-- ===== src/Machine/Runs/Returns.antt =====
-- `run` as a whole: what it returns in each mode, and that a dropped call can be made again.
use mathlib.Core.Option
use native.Mathlib.Nat.{le_refl}
use riscv_trace_debugger.Prelude.{
  ℕ, ◌-◌, ◌≤◌, ◌<◌, ◌≡◌, ◌≢◌, refl, ap, sym, subst, ◌∙◌, Option, none, some, List, [], ◌∷◌, ◌++◌,
  arith, length, get_elem?, Option-cases, inl, inr,
}
use riscv_trace_debugger.Trace.{TraceEvent}
use riscv_trace_debugger.Cpu.Replay.{State}
use riscv_trace_debugger.Machine.State.{
  Machine, ExecMode, continue, range_step, ExecDir, forwards, backwards, StopReason, done_step,
}
use riscv_trace_debugger.Machine.Run.{
  Poll, ready, dropped, panicked, out_of_fuel, run_loop, update_time, finish, run_once, run_in_mode,
  run,
}
use riscv_trace_debugger.Machine.Consistent.{IsStart, Consistent, length-SameTrace}
use riscv_trace_debugger.Machine.Moves.Step.{next_index, step_event, SameControl, step-StepsTo}
use riscv_trace_debugger.Machine.Runs.Stops.{left, StopsAt, Settles}
use riscv_trace_debugger.Machine.Runs.Loop.{run_loop-Settles}
use riscv_trace_debugger.Machine.Runs.Cancel.{
  undisturbed, run_loop-undisturbed, run_loop-dropped, undisturbed_more,
}

module _ (s : State) (trace : List TraceEvent) where
  -- Where a call in each mode stops, and with which event.
  abbrev pub ModeStops : ExecMode → Machine → Machine → StopReason → Type 0
  ModeStops ExecMode.step m m' event =
      (m'.trace_index ≡ next_index m.exec_dir (length trace) m.trace_index)
      × (event
          ≡ Option.get_or
              (step_event m.exec_dir (length trace) m.trace_index m.breakpoints m'.cpu.pc)
              done_step)
  ModeStops continue m m' event =
      StopsAt s trace none m.breakpoints m.exec_dir m.trace_index m'.trace_index event
  ModeStops (range_step start end) m m' event =
      StopsAt s trace (some (start, end)) m.breakpoints m.exec_dir m.trace_index m'.trace_index
        event

  -- A call returned with a stop, or was dropped at a yield; either way the machine agrees with the
  -- replay. It did not panic, and did not go on for ever.
  abbrev pub Ran : ExecMode → Machine → Poll → Type 0
  Ran mode m (ready m' event) = Consistent s trace m' × SameControl m m' × ModeStops mode m m' event
  Ran mode m (dropped m') = Consistent s trace m' × SameControl m m'
  Ran mode m panicked = ⊥
  Ran mode m out_of_fuel = ⊥

times : Machine → List ℕ
times m = elim (get_elem? m.trace m.trace_index) [
  | none ↦ m.send_time
  | some event ↦ m.send_time ++ event.time ∷ []
]

update_time_lem : (m : Machine) → update_time m ≡ record m { send_time = times m }
unfolding update_time times
update_time_lem m = elim (Option-cases (get_elem? m.trace m.trace_index)) [
  | inl e ↦ rw (e, update_time) (rw (e, times))
  | inr (event, e) ↦ rw (e, update_time) (rw (e, times))
]

left-le : (dir : ExecDir) (n i : ℕ) → i ≤ n → left dir n i ≤ n
left-le forwards n i h = omega arith
left-le backwards n i h = h

pub finish-dropped : (p : Poll) (m : Machine) → finish p ≡ dropped m → p ≡ dropped m
unfolding finish
finish-dropped (ready m' event) m h = cc
finish-dropped (dropped m') m h = h
finish-dropped panicked m h = cc
finish-dropped out_of_fuel m h = cc

module _ (s : State) (trace : List TraceEvent) where
  ModeStops-times :
      (mode : ExecMode) (m m' : Machine) (event : StopReason) (ts : List ℕ)
      → ModeStops s trace mode m m' event
      → ModeStops s trace mode m (record m' { send_time = ts }) event
  ModeStops-times ExecMode.step m m' event ts h = h
  ModeStops-times continue m m' event ts h = h
  ModeStops-times (range_step start end) m m' event ts h = h

  Ran-finish :
      (mode : ExecMode) (m : Machine) (p : Poll)
      → Ran s trace mode m p
      → Ran s trace mode m (finish p)
  unfolding finish
  Ran-finish mode m (ready m' event) (c, control, stops) = rw (update_time_lem m') (
    record {
      same_trace = c.same_trace;
      in_range = c.in_range;
      at_state = c.at_state;
      filled = c.filled;
    },
    record {
      exec_mode = control.exec_mode;
      exec_dir = control.exec_dir;
      breakpoints = control.breakpoints;
    },
    ModeStops-times mode m m' event (times m') stops,
  )
  Ran-finish mode m (dropped m') h = h
  Ran-finish mode m panicked h = h
  Ran-finish mode m out_of_fuel h = h

  Ran-continue : (m : Machine) (p : Poll) → Settles s trace none m p → Ran s trace continue m p
  Ran-continue m (ready m' event) h = h
  Ran-continue m (dropped m') h = h
  Ran-continue m panicked h = h
  Ran-continue m out_of_fuel h = h

  Ran-range_step :
      (start end : ℕ) (m : Machine) (p : Poll)
      → Settles s trace (some (start, end)) m p
      → Ran s trace (range_step start end) m p
  Ran-range_step start end m (ready m' event) h = h
  Ran-range_step start end m (dropped m') h = h
  Ran-range_step start end m panicked h = h
  Ran-range_step start end m out_of_fuel h = h

module _ {s : State} {trace : List TraceEvent} (start : IsStart s trace) where
  enough_fuel :
      (fuel : ℕ) (m : Machine)
      → Consistent s trace m
      → length trace < fuel
      → left m.exec_dir (length trace) m.trace_index < fuel
  enough_fuel fuel m c h = omega (
    arith,
    c.in_range,
    length-SameTrace m.trace trace c.same_trace,
    left-le m.exec_dir (length trace) m.trace_index,
  )

  run_in_mode-Ran :
      (mode : ExecMode) (fuel polls : ℕ) (m : Machine)
      → Consistent s trace m
      → length trace < fuel
      → Ran s trace mode m (run_in_mode mode fuel polls m)
  unfolding run_in_mode
  run_in_mode-Ran ExecMode.step fuel polls m c h =
      let did = step-StepsTo start m c in
      rw did.returns (did.consistent, did.control, (did.index, refl))
  run_in_mode-Ran continue fuel polls m c h =
      Ran-continue s trace m (run_loop none fuel polls 0 m)
        (run_loop-Settles start none fuel polls 0 m c (enough_fuel fuel m c h))
  run_in_mode-Ran (range_step a b) fuel polls m c h =
      Ran-range_step s trace a b m (run_loop (some (a, b)) fuel polls 0 m)
        (run_loop-Settles start (some (a, b)) fuel polls 0 m c (enough_fuel fuel m c h))

  pub run-Ran :
      (fuel polls : ℕ) (m : Machine)
      → Consistent s trace m
      → length trace < fuel
      → Ran s trace m.exec_mode m (run fuel polls m)
  unfolding run
  run-Ran fuel polls m c h =
      Ran-finish s trace m.exec_mode m (run_in_mode m.exec_mode fuel polls m)
        (run_in_mode-Ran m.exec_mode fuel polls m c h)

  Settles-ne-out_of_fuel :
      (range : Option (ℕ × ℕ)) (m : Machine) (p : Poll)
      → Settles s trace range m p
      → p ≢ out_of_fuel
  Settles-ne-out_of_fuel range m p h e = subst (Settles s trace range m) e h

  loop_again :
      (range : Option (ℕ × ℕ)) (fuel polls : ℕ) (m m' : Machine)
      → Consistent s trace m
      → length trace < fuel
      → run_loop range fuel polls 0 m ≡ dropped m'
      → run_loop range fuel fuel 0 m' ≡ run_loop range fuel fuel 0 m
  loop_again range fuel polls m m' c h e =
      let (rest, fewer, left_over) = run_loop-dropped range fuel polls 0 m m' e in
      let whole : run_loop range fuel fuel 0 m ≡ undisturbed range fuel m =
        run_loop-undisturbed range fuel fuel 0 m (le_refl fuel) in
      let ends : undisturbed range rest m' ≢ out_of_fuel = λ bad.
        Settles-ne-out_of_fuel range m (run_loop range fuel fuel 0 m)
          (run_loop-Settles start range fuel fuel 0 m c (enough_fuel fuel m c h))
          (whole ∙ left_over ∙ bad) in
      run_loop-undisturbed range fuel fuel 0 m' (le_refl fuel)
      ∙ ap (λ n. undisturbed range n m') (omega arith)
      ∙ undisturbed_more range rest (fuel - rest) m' ends
      ∙ sym (whole ∙ left_over)

  mode_again :
      (mode : ExecMode) (fuel polls : ℕ) (m m' : Machine)
      → Consistent s trace m
      → length trace < fuel
      → run_in_mode mode fuel polls m ≡ dropped m'
      → run_in_mode mode fuel fuel m' ≡ run_in_mode mode fuel fuel m
  unfolding run_in_mode
  mode_again ExecMode.step fuel polls m m' c h e = cc (ap run_once (step-StepsTo start m c).returns)
  mode_again continue fuel polls m m' c h e = loop_again none fuel polls m m' c h e
  mode_again (range_step a b) fuel polls m m' c h e = loop_again (some (a, b)) fuel polls m m' c h e

  -- Cancellation safety: where the fuel is more than the events of the trace, and a call of `run`
  -- on a machine that agrees with the replay is dropped at any of its yields, calling `run` again on
  -- the machine it left, with enough polls, has exactly the outcome (the same machine and the same
  -- stop) that the first call would have had with enough polls.
  pub run_again :
      (fuel polls : ℕ) (m m' : Machine)
      → Consistent s trace m
      → length trace < fuel
      → run fuel polls m ≡ dropped m'
      → run fuel fuel m' ≡ run fuel fuel m
  unfolding run
  run_again fuel polls m m' c h e =
      let lost = finish-dropped (run_in_mode m.exec_mode fuel polls m) m' e in
      let same_mode : m'.exec_mode ≡ m.exec_mode =
        (subst (Ran s trace m.exec_mode m) lost
          (run_in_mode-Ran m.exec_mode fuel polls m c h)).1.exec_mode in
      ap finish (
        ap (λ mode. run_in_mode mode fuel fuel m') same_mode
        ∙ mode_again m.exec_mode fuel polls m m' c h lost)
