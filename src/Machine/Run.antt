-- ===== src/Machine/Run.antt =====
-- machine.rs: `run`, a future that may be dropped wherever it yields.
use riscv_trace_debugger.Prelude.{
  ℕ, zero, suc, ◌+◌, ◌%◌, ◌^◌, Bool, true, false, not, ◌&&◌, Option, none, some, [], ◌∷◌, ◌++◌,
  ◌==◌, ltb, leb, get_elem?,
}
use mathlib.Core.Option
use riscv_trace_debugger.Machine.State.{
  Machine, StopReason, done_step, ExecMode, continue, range_step,
}
use riscv_trace_debugger.Machine.Step.{step}

-- What becomes of a call of `run`: it returns, the caller drops it at a yield, or it panics.
-- `out_of_fuel` stands for a loop that has not ended after the rounds that the model gives it.
pub data Poll : Type 0 where
  ready : Machine → StopReason → Poll
  dropped : Machine → Poll
  panicked out_of_fuel : Poll

-- `!(start..end).contains(&pc)`
unfoldable pub leaves : Option (ℕ × ℕ) → ℕ → Bool
leaves none pc = false
leaves (some (start, end)) pc = not (leb start pc && ltb pc end)

-- The rest of a round after its step, `again` being the rounds that follow.
unfoldable pub after_step :
    Option (ℕ × ℕ) → (Machine → Poll) → Option (Machine × Option StopReason) → Poll
unfolding leaves
after_step range again none = panicked
after_step range again (some (m, some event)) = ready m event
after_step range again (some (m, none)) = elim (leaves range m.cpu.pc) [
  | true ↦ ready m done_step
  | false ↦ again m
]

-- A yield returns to `run` as long as `polls` are left.
unfoldable pub yield_now : ℕ → (ℕ → Poll) → Machine → Poll
yield_now zero go m = dropped m
yield_now (suc polls) go m = go polls

-- `if cycles % 1024 == 0 { yield_now().await; }`, and the round after it.
unfoldable pub yield_if : Bool → ℕ → (ℕ → Poll) → Machine → Poll
unfolding yield_now
yield_if true polls go m = yield_now polls go m
yield_if false polls go m = go polls

-- The loops of `Continue` (no range) and `RangeStep`. `cycles` is an `i32`, kept as its bits.
unfoldable pub run_loop : Option (ℕ × ℕ) → ℕ → ℕ → ℕ → Machine → Poll
unfolding yield_if
run_loop range zero polls cycles m = out_of_fuel
run_loop range (suc fuel) polls cycles m =
    yield_if (cycles % 1024 == 0) polls
      (λ p. after_step range (run_loop range fuel p ((cycles + 1) % 2 ^ 32)) (step m)) m

-- "Update the time. Ignore errors."
unfoldable pub update_time : Machine → Machine
update_time m = elim (get_elem? m.trace m.trace_index) [
  | none ↦ m
  | some event ↦ record m { send_time = m.send_time ++ event.time ∷ [] }
]

unfoldable pub finish : Poll → Poll
unfolding update_time
finish (ready m event) = ready (update_time m) event
finish (dropped m) = dropped m
finish panicked = panicked
finish out_of_fuel = out_of_fuel

unfoldable pub run_once : Option (Machine × Option StopReason) → Poll
run_once none = panicked
run_once (some (m, event)) = ready m (Option.get_or event done_step)

-- The `match self.exec_mode` of `run`, given `fuel` rounds for its loop and a caller that polls it
-- `polls` times again.
unfoldable pub run_in_mode : ExecMode → ℕ → ℕ → Machine → Poll
unfolding run_once
run_in_mode ExecMode.step fuel polls m = run_once (step m)
run_in_mode continue fuel polls m = run_loop none fuel polls 0 m
run_in_mode (range_step start end) fuel polls m = run_loop (some (start, end)) fuel polls 0 m

-- `Machine::run`
unfoldable pub run : ℕ → ℕ → Machine → Poll
run fuel polls m = finish (run_in_mode m.exec_mode fuel polls m)
