-- ===== src/Gdb/Breakpoints.antt =====
-- gdb/breakpoints.rs. Addresses are `w`-bit words, `w` being 32 or 64; `addr + len` wraps.
pub mod Counts
use mathlib.Core.Option
use riscv_trace_debugger.Prelude.{
  ℕ, zero, suc, ◌+◌, ◌-◌, ◌%◌, ◌^◌, Bool, true, false, Option, none, some, List, [], ◌∷◌, ◌++◌,
  ◌==◌, if◌then◌else◌, ◌≡◌, refl, arith, Result, ok, err,
}
use riscv_trace_debugger.Machine.{Machine}
use riscv_trace_debugger.Gdb.Resume.{Handled}

pub data WatchKind : Type 0 where
  write read read_write : WatchKind

-- `iter().position(|x| *x == addr)` followed by `remove(pos)`; `none` where there is no position.
unfoldable pub remove_first : ℕ → List ℕ → Option (List ℕ)
remove_first addr [] = none
remove_first addr (x ∷ xs) =
    if x == addr then some xs else Option.map (◌∷◌ x) (remove_first addr xs)

unfoldable pub add_sw_breakpoint : Machine → ℕ → Handled Bool
add_sw_breakpoint m addr = (record m { breakpoints = m.breakpoints ++ addr ∷ [] }, ok true)

unfoldable pub remove_sw_breakpoint : Machine → ℕ → Handled Bool
remove_sw_breakpoint m addr = elim (remove_first addr m.breakpoints) [
  | none ↦ (m, ok false)
  | some rest ↦ (record m { breakpoints = rest }, ok true)
]

unfoldable pub push_watch : WatchKind → ℕ → List ℕ → List ℕ
push_watch write addr points = points ++ addr ∷ []
push_watch read addr points = points ++ addr ∷ []
push_watch read_write addr points = points ++ addr ∷ []

unfoldable pub push_watches : WatchKind → List ℕ → List ℕ → List ℕ
unfolding push_watch
push_watches kind [] points = points
push_watches kind (addr ∷ addrs) points = push_watches kind addrs (push_watch kind addr points)

-- The three kinds remove alike. A missing address ends the loop; what was removed stays removed.
unfoldable pub remove_watches : WatchKind → List ℕ → List ℕ → List ℕ × Bool
unfolding remove_first
remove_watches kind [] points = (points, true)
remove_watches kind (addr ∷ addrs) points = elim (remove_first addr points) [
  | none ↦ (points, false)
  | some rest ↦ remove_watches kind addrs rest
]

-- `range from to` is what `num_iter::range` runs through; that crate is a parameter.
module _ (range : ℕ → ℕ → List ℕ) (w : ℕ) where
  unfoldable pub add_hw_watchpoint : Machine → ℕ → ℕ → WatchKind → Handled Bool
  unfolding push_watches
  add_hw_watchpoint m addr len kind =
      let addrs = range addr ((addr + len) % 2 ^ w) in
      (record m { watchpoints = push_watches kind addrs m.watchpoints }, ok true)

  unfoldable pub remove_hw_watchpoint : Machine → ℕ → ℕ → WatchKind → Handled Bool
  unfolding remove_watches
  remove_hw_watchpoint m addr len kind =
      let (points, found) = remove_watches kind (range addr ((addr + len) % 2 ^ w)) m.watchpoints in
      (record m { watchpoints = points }, ok found)
