-- ===== src/Machine/Runs/Times.antt =====
-- The times that a call of `run` hands to the channel of the waveform viewer.
use riscv_trace_debugger.Prelude.{
  ℕ, zero, suc, ◌+◌, ◌-◌, ◌%◌, ◌^◌, ◌≡◌, refl, sym, subst, ap, ◌∙◌, Bool, true, false, Option, none,
  some, List, [], ◌∷◌, ◌++◌, ◌==◌, leb, length, get_elem?, append-nil, Bool-cases, Option-cases,
  inl, inr,
}
use riscv_trace_debugger.Memory.{simple_memory}
use riscv_trace_debugger.MemSniffer.{Access, mem_sniffer}
use riscv_trace_debugger.Trace.{TraceEvent}
use riscv_trace_debugger.Cpu
use riscv_trace_debugger.Machine.State.{
  Machine, ExecDir, forwards, backwards, ExecMode, continue, range_step, StopReason,
}
use riscv_trace_debugger.Machine.Step.{
  collect_frames, check_stop, sniffer, event_before, step_forwards, step_backwards, step_towards,
  step,
}
use riscv_trace_debugger.Machine.Run.{
  Poll, ready, dropped, panicked, out_of_fuel, leaves, after_step, yield_now, yield_if, run_loop,
  update_time, finish, run_once, run_in_mode, run,
}

-- A step that handed out nothing.
abbrev StepKeeps : List ℕ → Option (Machine × Option StopReason) → Type 0
StepKeeps ts none = Unit
StepKeeps ts (some (m, event)) = m.send_time ≡ ts

check_stop-StepKeeps :
    (access : Option Access) (m : Machine) → StepKeeps m.send_time (check_stop access m)
unfolding check_stop
check_stop-StepKeeps none m = refl
check_stop-StepKeeps (some access) m = tt

step_towards-StepKeeps : (dir : ExecDir) (m : Machine) → StepKeeps m.send_time (step_towards dir m)
unfolding step_towards step_forwards step_backwards
step_towards-StepKeeps forwards m = elim (Bool-cases (leb (length m.trace) m.trace_index)) [
  | inl over ↦ rw (over, step_towards, step_forwards) refl
  | inr more ↦ elim (Option-cases (get_elem? m.trace m.trace_index)) [
    | inl e ↦ rw (more, e, step_towards, step_forwards) tt
    | inr (event, e) ↦
        elim (Option-cases (Cpu.step (mem_sniffer simple_memory) m.cpu (sniffer m) event)) [
          | inl f ↦ rw (more, e, f, step_towards, step_forwards) tt
          | inr ((cpu, s, event'), f) ↦
              rw (more, e, f, step_towards, step_forwards) (check_stop-StepKeeps s.captured _)
        ]
  ]
]
step_towards-StepKeeps backwards m = elim (Bool-cases (m.trace_index == 0)) [
  | inl over ↦ rw (over, step_towards, step_backwards) refl
  | inr more ↦ elim (Option-cases (get_elem? m.trace (m.trace_index - 1))) [
    | inl e ↦ rw (more, e, step_towards, step_backwards) tt
    | inr (event, e) ↦
        elim (Option-cases (
          Cpu.step_undo (mem_sniffer simple_memory) m.cpu (sniffer m) event
            (event_before m.trace (m.trace_index - 1)))) [
              | inl f ↦ rw (more, e, f, step_towards, step_backwards) tt
              | inr ((cpu, s), f) ↦
                  rw (more, e, f, step_towards, step_backwards) (check_stop-StepKeeps s.captured _)
            ]
  ]
]

collect_frames-send_time : (m : Machine) → (collect_frames m).send_time ≡ m.send_time
unfolding collect_frames
collect_frames-send_time m = elim (Bool-cases m.tracing) [
  | inl e ↦ rw (e, collect_frames) refl
  | inr e ↦ rw (e, collect_frames) refl
]

step-StepKeeps : (m : Machine) → StepKeeps m.send_time (step m)
unfolding step
step-StepKeeps m =
    let m' = collect_frames m in
    subst (λ ts. StepKeeps ts (step m)) (collect_frames-send_time m)
      (step_towards-StepKeeps m'.exec_dir m')

-- A loop that handed out nothing so far.
abbrev PollKeeps : List ℕ → Poll → Type 0
PollKeeps ts (ready m event) = m.send_time ≡ ts
PollKeeps ts (dropped m) = m.send_time ≡ ts
PollKeeps ts panicked = Unit
PollKeeps ts out_of_fuel = Unit

after_step-PollKeeps :
    (range : Option (ℕ × ℕ)) (again : Machine → Poll) (ts : List ℕ)
    (r : Option (Machine × Option StopReason))
    → ((m : Machine) → m.send_time ≡ ts → PollKeeps ts (again m))
    → StepKeeps ts r
    → PollKeeps ts (after_step range again r)
unfolding after_step
after_step-PollKeeps range again ts none keeps h = tt
after_step-PollKeeps range again ts (some (m, some event)) keeps h = h
after_step-PollKeeps range again ts (some (m, none)) keeps h =
    elim (Bool-cases (leaves range m.cpu.pc)) [
      | inl e ↦ rw (e, after_step) h
      | inr e ↦ rw (e, after_step) (keeps m h)
    ]

yield_if-PollKeeps :
    (b : Bool) (polls : ℕ) (go : ℕ → Poll) (m : Machine)
    → ((p : ℕ) → PollKeeps m.send_time (go p))
    → PollKeeps m.send_time (yield_if b polls go m)
unfolding yield_if yield_now
yield_if-PollKeeps true zero go m h = refl
yield_if-PollKeeps true (suc polls) go m h = h polls
yield_if-PollKeeps false polls go m h = h polls

run_loop-PollKeeps :
    (range : Option (ℕ × ℕ)) (fuel polls cycles : ℕ) (m : Machine)
    → PollKeeps m.send_time (run_loop range fuel polls cycles m)
unfolding run_loop
run_loop-PollKeeps range zero polls cycles m = tt
run_loop-PollKeeps range (suc fuel) polls cycles m =
    yield_if-PollKeeps (cycles % 1024 == 0) polls
      (λ p. after_step range (run_loop range fuel p ((cycles + 1) % 2 ^ 32)) (step m)) m
      (λ p.
        after_step-PollKeeps range (run_loop range fuel p ((cycles + 1) % 2 ^ 32)) m.send_time
          (step m)
          (λ m' e.
            subst (λ ts. PollKeeps ts (run_loop range fuel p ((cycles + 1) % 2 ^ 32) m')) e
              (run_loop-PollKeeps range fuel p ((cycles + 1) % 2 ^ 32) m'))
          (step-StepKeeps m))

run_once-PollKeeps :
    (ts : List ℕ) (r : Option (Machine × Option StopReason))
    → StepKeeps ts r
    → PollKeeps ts (run_once r)
unfolding run_once
run_once-PollKeeps ts none h = tt
run_once-PollKeeps ts (some (m, event)) h = h

run_in_mode-PollKeeps :
    (mode : ExecMode) (fuel polls : ℕ) (m : Machine)
    → PollKeeps m.send_time (run_in_mode mode fuel polls m)
unfolding run_in_mode
run_in_mode-PollKeeps ExecMode.step fuel polls m =
    run_once-PollKeeps m.send_time (step m) (step-StepKeeps m)
run_in_mode-PollKeeps continue fuel polls m = run_loop-PollKeeps none fuel polls 0 m
run_in_mode-PollKeeps (range_step start end) fuel polls m =
    run_loop-PollKeeps (some (start, end)) fuel polls 0 m

abbrev time_of : Option TraceEvent → List ℕ
time_of none = []
time_of (some event) = event.time ∷ []

-- The time of the event before which a machine stands, if there is one.
abbrev pub time_at : Machine → List ℕ
time_at m = time_of (get_elem? m.trace m.trace_index)

-- A call that has returned handed out the time where it stopped, and one that was dropped nothing.
abbrev pub HandsOut : List ℕ → Poll → Type 0
HandsOut ts (ready m event) = m.send_time ≡ ts ++ time_at m
HandsOut ts (dropped m) = m.send_time ≡ ts
HandsOut ts panicked = Unit
HandsOut ts out_of_fuel = Unit

update_time_lem : (m : Machine) → (update_time m).send_time ≡ m.send_time ++ time_at (update_time m)
unfolding update_time
update_time_lem m = elim (Option-cases (get_elem? m.trace m.trace_index)) [
  | inl e ↦ rw (e, update_time) (sym (rw e (append-nil m.send_time)))
  | inr (event, e) ↦ rw (e, update_time) (sym (rw e refl))
]

finish-HandsOut : (ts : List ℕ) (p : Poll) → PollKeeps ts p → HandsOut ts (finish p)
unfolding finish
finish-HandsOut ts (ready m event) h = update_time_lem m ∙ ap (λ l. l ++ time_at (update_time m)) h
finish-HandsOut ts (dropped m) h = h
finish-HandsOut ts panicked h = tt
finish-HandsOut ts out_of_fuel h = tt

-- In every mode and both directions, a call of `run` that returns has handed the channel exactly one
-- time more, that of the event before which it has stopped, or none where no event follows; a call
-- that was dropped has handed it none.
pub run-HandsOut : (fuel polls : ℕ) (m : Machine) → HandsOut m.send_time (run fuel polls m)
unfolding run
run-HandsOut fuel polls m =
    finish-HandsOut m.send_time (run_in_mode m.exec_mode fuel polls m)
      (run_in_mode-PollKeeps m.exec_mode fuel polls m)
