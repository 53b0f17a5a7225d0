-- ===== src/Machine/Runs/Loop.antt =====
-- The loop of `run` settles: it returns with a stop or is dropped, given a round for each event left.
use riscv_trace_debugger.Prelude.{
  ℕ, zero, suc, ◌+◌, ◌%◌, ◌^◌, ◌≤◌, ◌<◌, ◌≡◌, ◌≢◌, ◌⊎◌, refl, ap, sym, subst, ◌∙◌, Bool, true,
  false, Option, none, some, List, arith, length, ◌==◌, Bool-cases, inl, inr,
}
use riscv_trace_debugger.MemSniffer.{contains}
use riscv_trace_debugger.Trace.{TraceEvent}
use riscv_trace_debugger.Cpu.Replay.{State}
use riscv_trace_debugger.Machine.State.{
  Machine, ExecDir, forwards, backwards, StopReason, done_step, sw_break,
}
use riscv_trace_debugger.Machine.Step.{step}
use riscv_trace_debugger.Machine.Run.{
  Poll, leaves, after_step, yield_if, run_loop, ready, dropped, panicked, out_of_fuel,
}
use riscv_trace_debugger.Machine.Consistent.{IsStart, Consistent, length-SameTrace}
use riscv_trace_debugger.Machine.Moves.Step.{
  next_index, at_end, end_event, SameControl, StepsTo, step_event, step-StepsTo,
}
use riscv_trace_debugger.Machine.Runs.Stops.{
  InRange, InRange-leaves, leaves-ne-InRange, left, pc_at, StopsAt, StopsAt-next, Settles, Onward,
  Between, Passes,
}

SameControl-refl : (m : Machine) → SameControl m m
SameControl-refl m = record { exec_mode = refl; exec_dir = refl; breakpoints = refl }

SameControl-trans : {a b c : Machine} → SameControl a b → SameControl b c → SameControl a c
SameControl-trans p q = record {
  exec_mode = q.exec_mode ∙ p.exec_mode;
  exec_dir = q.exec_dir ∙ p.exec_dir;
  breakpoints = q.breakpoints ∙ p.breakpoints;
}

Onward-refl : (dir : ExecDir) (i : ℕ) → Onward dir i i
Onward-refl forwards i = omega arith
Onward-refl backwards i = omega arith

Between-one : (dir : ExecDir) (n i j : ℕ) → Between dir i j (next_index dir n i) → ⊥
Between-one forwards n i j b = ground arith
Between-one backwards n i j b = ground arith

at_end-next : (dir : ExecDir) (n i : ℕ) → at_end dir n i ≡ true → i ≤ n → next_index dir n i ≡ i
at_end-next forwards n i h b = ground arith
at_end-next backwards n i h b = ground arith

next-ne : (dir : ExecDir) (n i : ℕ) → at_end dir n i ≡ false → i ≢ next_index dir n i
next-ne forwards n i h e = ground arith
next-ne backwards n i h e = ground arith

left-next :
    (dir : ExecDir) (n i fuel : ℕ)
    → at_end dir n i ≡ false
    → left dir n i < suc fuel
    → left dir n (next_index dir n i) < fuel
left-next forwards n i fuel h b = ground arith
left-next backwards n i fuel h b = ground arith

Onward-one : (dir : ExecDir) (n i : ℕ) → Onward dir i (next_index dir n i)
Onward-one forwards n i = ground arith
Onward-one backwards n i = ground arith

module _ (range : Option (ℕ × ℕ)) (again : Machine → Poll) (m : Machine) where
  pub after_step-event : (e : StopReason) → after_step range again (some (m, some e)) ≡ ready m e
  unfolding after_step
  after_step-event e = refl

  pub after_step-out :
      leaves range m.cpu.pc ≡ true → after_step range again (some (m, none)) ≡ ready m done_step
  unfolding after_step
  after_step-out h = rw (h, after_step)

  pub after_step-in :
      leaves range m.cpu.pc ≡ false → after_step range again (some (m, none)) ≡ again m
  unfolding after_step
  after_step-in h = rw (h, after_step)

module _ {s : State} {trace : List TraceEvent} (start : IsStart s trace)
    (range : Option (ℕ × ℕ)) where
  pc_of : {m : Machine} → Consistent s trace m → m.cpu.pc ≡ pc_at s trace m.trace_index
  pc_of c = ap (λ (t : State). t.cpu.pc) c.at_state

  Settles-next :
      (m m' : Machine) (p : Poll)
      → SameControl m m'
      → m'.trace_index ≡ next_index m.exec_dir (length trace) m.trace_index
      → at_end m.exec_dir (length trace) m.trace_index ≡ false
      → Passes s trace range m.breakpoints m'.trace_index
      → Settles s trace range m' p
      → Settles s trace range m p
  Settles-next m m' (ready m'' event) same index inside passes (c, control, stops) = (
    c,
    SameControl-trans same control,
    StopsAt-next m.exec_dir m.trace_index m''.trace_index inside
        (subst (Passes s trace range m.breakpoints) index passes)
        (subst (λ i. StopsAt s trace range m.breakpoints m.exec_dir i m''.trace_index event) index
          (subst (λ d. StopsAt s trace range m.breakpoints d m'.trace_index m''.trace_index event)
            same.exec_dir
            (subst (λ b. StopsAt s trace range b m'.exec_dir m'.trace_index m''.trace_index event)
              same.breakpoints stops))),
  )
  Settles-next m m' (dropped m'') same index inside passes (c, control) =
      (c, SameControl-trans same control)
  Settles-next m m' panicked same index inside passes h = h
  Settles-next m m' out_of_fuel same index inside passes h = h

  module _ (m : Machine) (c : Consistent s trace m) where
    abbrev did : StepsTo s trace m.exec_dir m
    did = step-StepsTo start m c

    abbrev stepped : Machine
    stepped = (step-StepsTo start m c).m'

    pc_here : stepped.cpu.pc ≡ pc_at s trace stepped.trace_index
    pc_here = pc_of (step-StepsTo start m c).consistent

    -- The three ways in which the step just done is the last one.
    stops_over :
        at_end m.exec_dir (length trace) m.trace_index ≡ true
        → StopsAt s trace range m.breakpoints m.exec_dir m.trace_index stepped.trace_index
            (end_event m.exec_dir)
    stops_over over =
        subst
          (λ k.
            StopsAt s trace range m.breakpoints m.exec_dir m.trace_index k (end_event m.exec_dir))
          (sym stays)
          (record {
            onward = Onward-refl m.exec_dir m.trace_index;
            on_the_way = λ j b. absurd (
                Between-one m.exec_dir (length trace) m.trace_index j
                  (subst (Between m.exec_dir m.trace_index j) (sym unmoved) b));
            reason = inr (inl (refl, over, λ ne. absurd (ne refl)));
          })
      where
        unmoved : next_index m.exec_dir (length trace) m.trace_index ≡ m.trace_index
        unmoved =
            at_end-next m.exec_dir (length trace) m.trace_index over
              (omega (arith, c.in_range, length-SameTrace m.trace trace c.same_trace))

        stays : stepped.trace_index ≡ m.trace_index
        stays = did.index ∙ unmoved

    stops_here :
        (event : StopReason)
        → at_end m.exec_dir (length trace) m.trace_index ≡ false
        → ((event ≡ sw_break) × (contains m.breakpoints (pc_at s trace stepped.trace_index) ≡ true))
          ⊎ ((event ≡ done_step)
              × (contains m.breakpoints (pc_at s trace stepped.trace_index) ≡ false)
              × (¬ InRange range (pc_at s trace stepped.trace_index)))
        → StopsAt s trace range m.breakpoints m.exec_dir m.trace_index stepped.trace_index event
    stops_here event inside why = record {
      onward =
          subst (Onward m.exec_dir m.trace_index) (sym did.index)
            (Onward-one m.exec_dir (length trace) m.trace_index);
      on_the_way = λ j b. absurd (
          Between-one m.exec_dir (length trace) m.trace_index j
            (subst (Between m.exec_dir m.trace_index j) did.index b));
      reason = elim why [
        | inl (e, hit) ↦ inl (e, ne, hit)
        | inr (e, miss, out) ↦ inr (inr (e, ne, miss, out))
      ];
    }
      where
        ne : m.trace_index ≢ stepped.trace_index
        ne e = next-ne m.exec_dir (length trace) m.trace_index inside (e ∙ did.index)

    abbrev event : Option StopReason
    event =
        step_event m.exec_dir (length trace) m.trace_index m.breakpoints
          (step-StepsTo start m c).m'.cpu.pc

    returns : {e : Option StopReason} → event ≡ e → step m ≡ some (stepped, e)
    returns h = did.returns ∙ ap (λ o. some (stepped, o)) h

    round_Settles :
        (again : Machine → Poll)
        → ((m' : Machine)
            → Consistent s trace m'
            → SameControl m m'
            → m'.trace_index ≡ next_index m.exec_dir (length trace) m.trace_index
            → at_end m.exec_dir (length trace) m.trace_index ≡ false
            → Settles s trace range m' (again m'))
        → Settles s trace range m (after_step range again (step m))
    round_Settles again later = elim (Bool-cases (at_end m.exec_dir (length trace) m.trace_index)) [
      | inl over ↦
          rw (returns {e = some (end_event m.exec_dir)} (rw over), after_step-event)
            (did.consistent, did.control, stops_over over)
      | inr inside ↦ elim (Bool-cases (contains m.breakpoints stepped.cpu.pc)) [
        | inl hit ↦
            rw (returns {e = some sw_break} (rw (inside, hit)), after_step-event)
              (
                did.consistent,
                did.control,
                stops_here sw_break inside (inl (refl, rw (← pc_here) hit)),
              )
        | inr miss ↦ elim (Bool-cases (leaves range stepped.cpu.pc)) [
          | inl out ↦
              rw (returns {e = none} (rw (inside, miss)), after_step-out range again stepped out)
                (
                  did.consistent,
                  did.control,
                  stops_here done_step inside (
                      inr (
                        refl,
                        rw (← pc_here) miss,
                        rw (← pc_here) (leaves-ne-InRange range stepped.cpu.pc out),
                      )),
                )
          | inr stays ↦
              rw (returns {e = none} (rw (inside, miss)), after_step-in range again stepped stays)
                (Settles-next m stepped (again stepped) did.control did.index inside
                  (rw (← pc_here) miss, rw (← pc_here) (InRange-leaves range stepped.cpu.pc stays))
                  (later stepped did.consistent did.control did.index inside))
        ]
      ]
    ]

  -- A round before which the loop may yield.
  yield_Settles :
      (m : Machine) (round : ℕ → Poll)
      → Consistent s trace m
      → ((p : ℕ) → Settles s trace range m (round p))
      → (yields : Bool) (polls : ℕ) → Settles s trace range m (yield_if yields polls round m)
  unfolding yield_if
  yield_Settles m round c settles true zero = (c, SameControl-refl m)
  yield_Settles m round c settles true (suc polls) = settles polls
  yield_Settles m round c settles false polls = settles polls

  -- With a round for each event that is left, the loop ends: it reports a stop, or it is dropped at
  -- a yield.
  pub run_loop-Settles :
      (fuel polls cycles : ℕ) (m : Machine)
      → Consistent s trace m
      → left m.exec_dir (length trace) m.trace_index < fuel
      → Settles s trace range m (run_loop range fuel polls cycles m)
  unfolding run_loop
  run_loop-Settles zero polls cycles m c h = elim h [ ]
  run_loop-Settles (suc fuel) polls cycles m c h =
      yield_Settles m (λ p. after_step range (run_loop range fuel p next) (step m)) c
        (λ p. round_Settles m c (run_loop range fuel p next) λ m' c' control index inside.
          run_loop-Settles fuel p next m' c' (fewer m' control.exec_dir index inside))
        (cycles % 1024 == 0) polls
    where
      next : ℕ
      next = (cycles + 1) % 2 ^ 32

      fewer :
          (m' : Machine)
          → m'.exec_dir ≡ m.exec_dir
          → m'.trace_index ≡ next_index m.exec_dir (length trace) m.trace_index
          → at_end m.exec_dir (length trace) m.trace_index ≡ false
          → left m'.exec_dir (length trace) m'.trace_index < fuel
      fewer m' same index inside =
          rw (same, index) (left-next m.exec_dir (length trace) m.trace_index fuel inside h)
