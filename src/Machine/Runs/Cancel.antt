-- ===== src/Machine/Runs/Cancel.antt =====
-- `run` can be dropped at a yield: calling it again gives what a call that is never dropped gives.
use riscv_trace_debugger.Prelude.{
  ℕ, zero, suc, ◌+◌, ◌%◌, ◌^◌, ◌≤◌, ◌≡◌, ◌≢◌, ◌⊎◌, refl, ap, sym, fun_ext, ◌∙◌, Bool, true, false,
  Option, none, some, arith, ◌==◌, Bool-cases, inl, inr,
}
use riscv_trace_debugger.Machine.State.{Machine, StopReason, done_step}
use riscv_trace_debugger.Machine.Step.{step}
use riscv_trace_debugger.Machine.Run.{
  Poll, ready, dropped, panicked, out_of_fuel, leaves, after_step, yield_if, run_loop,
}
use Prim.Native.Nat.add
use riscv_trace_debugger.Machine.Runs.Loop.{after_step-out, after_step-in}

module _ (range : Option (ℕ × ℕ)) where
  -- The loop without its yields.
  pub undisturbed : ℕ → Machine → Poll
  undisturbed zero m = out_of_fuel
  undisturbed (suc fuel) m = after_step range (undisturbed fuel) (step m)

  -- A step is the last one of its loop, or the rounds go on from one machine.
  after_step_cases :
      (r : Option (Machine × Option StopReason))
      → ((p : Poll) × ((again : Machine → Poll) → after_step range again r ≡ p)
          × ((m : Machine) → p ≢ dropped m))
        ⊎ ((m : Machine) × ((again : Machine → Poll) → after_step range again r ≡ again m))
  unfolding after_step
  after_step_cases none = inl (panicked, λ again. refl, λ m h. cc)
  after_step_cases (some (m, some e)) = inl (ready m e, λ again. refl, λ m h. cc)
  after_step_cases (some (m, none)) = elim (Bool-cases (leaves range m.cpu.pc)) [
    | inl out ↦ inl (ready m done_step, λ again. after_step-out range again m out, λ m h. cc)
    | inr stays ↦ inr (m, λ again. after_step-in range again m stays)
  ]

  yield_if-polled :
      (yields : Bool) (fuel polls : ℕ) (round : ℕ → Poll) (m : Machine) {p : Poll}
      → suc fuel ≤ polls
      → ((n : ℕ) → fuel ≤ n → round n ≡ p)
      → yield_if yields polls round m ≡ p
  unfolding yield_if
  yield_if-polled true fuel zero round m h same = absurd (omega arith)
  yield_if-polled true fuel (suc polls) round m h same = same polls (omega arith)
  yield_if-polled false fuel polls round m h same = same polls (omega arith)

  yield_if-dropped :
      (yields : Bool) (polls : ℕ) (round : ℕ → Poll) (m : Machine) {m' : Machine}
      → yield_if yields polls round m ≡ dropped m'
      → (m ≡ m') ⊎ ((n : ℕ) × (round n ≡ dropped m'))
  unfolding yield_if
  yield_if-dropped true zero round m h = inl (cc)
  yield_if-dropped true (suc polls) round m h = inr (polls, h)
  yield_if-dropped false polls round m h = inr (polls, h)

  -- A caller that polls for every round never drops it.
  pub run_loop-undisturbed :
      (fuel polls cycles : ℕ) (m : Machine)
      → fuel ≤ polls
      → run_loop range fuel polls cycles m ≡ undisturbed fuel m
  unfolding run_loop undisturbed
  run_loop-undisturbed zero polls cycles m h = refl
  run_loop-undisturbed (suc fuel) polls cycles m h =
      yield_if-polled (cycles % 1024 == 0) fuel polls
        (λ p. after_step range (run_loop range fuel p ((cycles + 1) % 2 ^ 32)) (step m)) m h
        λ n enough.
          ap (λ again. after_step range again (step m))
            (fun_ext (λ m'. run_loop-undisturbed fuel n ((cycles + 1) % 2 ^ 32) m' enough))

  -- One that is dropped has done some rounds, and the others are left.
  pub run_loop-dropped :
      (fuel polls cycles : ℕ) (m m' : Machine)
      → run_loop range fuel polls cycles m ≡ dropped m'
      → (rest : ℕ) × (rest ≤ fuel) × (undisturbed fuel m ≡ undisturbed rest m')
  unfolding run_loop undisturbed
  run_loop-dropped zero polls cycles m m' h = cc
  run_loop-dropped (suc fuel) polls cycles m m' h =
      elim (yield_if-dropped (cycles % 1024 == 0) polls
        (λ p. after_step range (run_loop range fuel p ((cycles + 1) % 2 ^ 32)) (step m)) m h) [
          | inl here ↦ (suc fuel, omega arith, ap (undisturbed (suc fuel)) here)
          | inr (p, later) ↦ elim (after_step_cases (step m)) [
            | inl (last, same, not_dropped) ↦ absurd (not_dropped m' (sym (same _) ∙ later))
            | inr (m1, same) ↦
                let (rest, fewer, e) =
                  run_loop-dropped fuel p ((cycles + 1) % 2 ^ 32) m1 m' (sym (same _) ∙ later) in
                (rest, omega arith, same (undisturbed fuel) ∙ e)
          ]
        ]

  -- More fuel changes nothing once it is enough.
  pub undisturbed_more :
      (fuel more : ℕ) (m : Machine)
      → undisturbed fuel m ≢ out_of_fuel
      → undisturbed (fuel + more) m ≡ undisturbed fuel m
  unfolding undisturbed
  undisturbed_more zero more m h = absurd (h refl)
  undisturbed_more (suc fuel) more m h = rw (add.suc) (elim (after_step_cases (step m)) [
    | inl (last, same, _) ↦ same (undisturbed (fuel + more)) ∙ sym (same (undisturbed fuel))
    | inr (m1, same) ↦
        same (undisturbed (fuel + more))
        ∙ undisturbed_more fuel more m1 (λ e. h (same (undisturbed fuel) ∙ e))
        ∙ sym (same (undisturbed fuel))
  ])

  pub undisturbed-ne-dropped : (fuel : ℕ) (m m' : Machine) → undisturbed fuel m ≢ dropped m'
  unfolding undisturbed
  undisturbed-ne-dropped zero m m' h = cc
  undisturbed-ne-dropped (suc fuel) m m' h = elim (after_step_cases (step m)) [
    | inl (p, same, never) ↦ never m' (sym (same (undisturbed fuel)) ∙ h)
    | inr (m1, same) ↦ undisturbed-ne-dropped fuel m1 m' (sym (same (undisturbed fuel)) ∙ h)
  ]
