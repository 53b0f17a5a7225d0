-- ===== src/Tests/Runs.antt =====
-- The theorems on steps and runs at the sample.
use riscv_trace_debugger.Prelude.{◌<◌, ◌^◌, ◌≤◌, ◌≡◌, refl, none, arith}
use riscv_trace_debugger.Machine.{
  Machine, continue, forwards, backwards, StopReason, ready, dropped, run, run_in_mode, run_loop,
  finish,
}
use riscv_trace_debugger.Machine.Moves.Step.{StepsTo, step-StepsTo}
use riscv_trace_debugger.Machine.Runs.Stops.{StopsAt}
use riscv_trace_debugger.Machine.Runs.Returns.{run_again}
use riscv_trace_debugger.Machine.Runs.Times.{HandsOut, run-HandsOut}
use riscv_trace_debugger.Machine.Runs.Total.{Returned, run-Returned}
use riscv_trace_debugger.Gdb.Resume.{resume, reverse_step}
use riscv_trace_debugger.Gdb.Resume.Direction.{resume-reverse_step}
use riscv_trace_debugger.Prelude.{ℕ, List, Option, some, false, true, [], ◌∷◌}
use riscv_trace_debugger.Machine.Moves.Watchpoints.{watch, also_watch, step-watch}
use riscv_trace_debugger.Machine.{step}
use riscv_trace_debugger.Machine.New.{ElfHeader, SectionHeader, done, first_pc, new}
use riscv_trace_debugger.Machine.New.Image.{image, new-image}
use riscv_trace_debugger.Memory.{r8}
use riscv_trace_debugger.Cpu
use riscv_trace_debugger.Tests.Sample.{
  machine, sample, start_state, sample-IsStart, machine-Consistent,
}

step-StepsTo_example : StepsTo start_state sample forwards machine
step-StepsTo_example = step-StepsTo sample-IsStart machine machine-Consistent

run-Returned_example : Returned start_state sample continue machine (run 3 3 machine)
run-Returned_example = run-Returned sample-IsStart 3 machine machine-Consistent (omega arith)

dropped_at_once : run 3 0 machine ≡ dropped machine
unfolding run run_in_mode run_loop finish
dropped_at_once = refl

run-HandsOut_example : HandsOut machine.send_time (run 3 1 machine)
run-HandsOut_example = run-HandsOut 3 1 machine

run_again_example : run 3 3 machine ≡ run 3 3 machine
run_again_example =
    run_again sample-IsStart 3 0 machine machine machine-Consistent (omega arith) dropped_at_once

resume-reverse_step_example :
    (m' : Machine) × (event : StopReason) × (run 3 3 (resume (reverse_step machine).0 none).0
      ≡ ready m' event)
    × StopsAt start_state sample none machine.breakpoints backwards 0 m'.trace_index event
    × (m'.trace_index ≤ 0)
resume-reverse_step_example =
    resume-reverse_step sample-IsStart 3 machine machine-Consistent (omega arith)

abbrev section : SectionHeader
section = record {
  name = true;
  is_alloc = true;
  is_nobits = false;
  sh_addr = 16;
  file_range = some (1, 3);
}

-- A parser that finds one section of two bytes in every file.
abbrev parse : List ℕ → Option ElfHeader
parse elf = some (record { entry = 4; section_headers = section ∷ [] })

abbrev header : ElfHeader
header = record { entry = 4; section_headers = section ∷ [] }

new-image_example :
    (m : Machine) × (new parse 32 true (127 ∷ 69 ∷ 76 ∷ []) sample ≡ done m)
    × ((x : ℕ) → x < 2 ^ 64 → r8 m.mem x ≡ image (127 ∷ 69 ∷ 76 ∷ []) header.section_headers x 0)
    × (m.cpu ≡ record Cpu.default { pc = first_pc sample header.entry })
    × (m.trace ≡ sample)
    × (m.trace_index ≡ 0)
    × (m.exec_dir ≡ forwards)
new-image_example =
    new-image parse 32 true (127 ∷ 69 ∷ 76 ∷ []) sample header (omega arith) refl (omega arith)
      (λ loaded. ((omega arith, omega arith), refl), tt)

-- The second byte of the section is the last byte of the file.
image_second : image (127 ∷ 69 ∷ 76 ∷ []) header.section_headers 17 0 ≡ 76
image_second = refl

-- The next event of this machine is the store.
abbrev before_store : Machine
before_store = record machine { trace_index = 1 }

step-watch_example : step (watch (0 ∷ []) before_store) ≡ also_watch (0 ∷ []) (step before_store)
step-watch_example = step-watch (0 ∷ []) before_store
