-- ===== src/Tests/Serving.antt =====
-- The theorems on the serving loop: a trace that was read, the machine made of it, and a debugger
-- that continues at its first byte.
use riscv_trace_debugger.Prelude.{
  ℕ, Option, ap, ◌≡◌, refl, true, none, some, List, [], ◌∷◌, ok, arith, Bool,
}
use riscv_trace_debugger.Cpu
use riscv_trace_debugger.Machine.{Machine}
use riscv_trace_debugger.Machine.Consistent.{state_of}
use riscv_trace_debugger.Machine.New.{ElfHeader, new, load_sections, done}
use riscv_trace_debugger.Main
use riscv_trace_debugger.Main.{
  Session, Turn, running, received, run_returns, at_once, reply, round, rounds, connect, read_trace,
  main_gdb, GdbStub, Reply, byte, flush, disconnect,
}
use riscv_trace_debugger.Main.Sent.{SendsReleased, rounds-SendsReleased}
use riscv_trace_debugger.Main.Sent.Recorded.{recorded, forget}
use riscv_trace_debugger.Main.Serving.{Started, Serves, rounds-Started}
use riscv_trace_debugger.Tests.Sample.{machine}
use riscv_trace_debugger.Tests.Host.{host, stub}
use riscv_trace_debugger.Tests.Readers.{ops, lines, event, ibex_reads}

-- A parser that finds no section.
abbrev parse : List ℕ → Option ElfHeader
parse elf = some (record { entry = 4; section_headers = [] })

abbrev made : Machine
made = record machine {
  cpu = record Cpu.default { pc = 4 };
  trace = event ∷ [];
  elf = 127 ∷ [];
  entry = 4;
  breakpoints = [];
}

reads : read_trace 32 ops (some lines) none ≡ ok (event ∷ [])
unfolding read_trace
reads = ap (Main.map_err Main.ibex) ibex_reads

makes : new parse 32 true (127 ∷ []) (event ∷ []) ≡ done made
unfolding new load_sections
makes = refl

sample_Started : Started 32 ops parse true (127 ∷ []) (event ∷ []) made
sample_Started = record {
  ibex_lines = some lines;
  cheriot_ibex_lines = none;
  reads = reads;
  bytes = (omega arith, tt);
  makes = makes;
}

abbrev no_range : ℕ → ℕ → List ℕ
no_range from to = []

abbrev turns : List (Bool × Turn)
turns = (true, received (some b'c')) ∷ (true, run_returns 2) ∷ (true, received none) ∷ []

rounds-Started_example :
    Serves
      (state_of made)
      (event ∷ [])
      (rounds no_range 32 host stub 2 turns (connect no_range 32 host stub made))
rounds-Started_example = rounds-Started sample_Started no_range host stub 2 turns (omega arith)

rounds-SendsReleased_example :
    let r =
      rounds no_range 32 host
        (recorded stub)
        3
        turns
        (connect no_range 32 host (recorded stub) machine) in
    (forget r ≡ rounds no_range 32 host stub 3 turns (connect no_range 32 host stub machine))
    × SendsReleased r
rounds-SendsReleased_example = rounds-SendsReleased no_range 32 host stub 3 turns machine
