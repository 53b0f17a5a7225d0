-- ===== src/Gdb/Breakpoints/Counts.antt =====
-- What adding and removing do, by how often each address stands in the lists.
use riscv_trace_debugger.Prelude.{
  ℕ, ◌+◌, ◌<◌, ◌%◌, ◌^◌, ◌≡◌, refl, ap, inl, inr, true, none, some, List, [], ◌∷◌, ◌++◌, arith,
  ◌==◌, if◌then◌else◌, Bool-cases, ok,
}
use riscv_trace_debugger.MemSniffer.{contains}
use riscv_trace_debugger.Machine.{Machine}
use riscv_trace_debugger.Gdb.Breakpoints.{
  WatchKind, write, read, read_write, remove_first, push_watch, push_watches, remove_watches,
  add_sw_breakpoint, remove_sw_breakpoint, add_hw_watchpoint, remove_hw_watchpoint,
}

abbrev pub one : ℕ → ℕ → ℕ
one x a = if x == a then 1 else 0

abbrev pub count : ℕ → List ℕ → ℕ
count x [] = 0
count x (a ∷ addrs) = one x a + count x addrs

count-append : (x : ℕ) (addrs bs : List ℕ) → count x (addrs ++ bs) ≡ count x addrs + count x bs
count-append x [] bs = omega arith
count-append x (a ∷ addrs) bs = omega (arith, count-append x addrs bs)

-- Removing an address that is there leaves the others, and itself once less.
pub record Removed (a : ℕ) (points : List ℕ) : Type 0 where
  pub rest : List ℕ
  pub returns : remove_first a points ≡ some rest
  pub counts : (x : ℕ) → count x points ≡ one x a + count x rest

remove_first-Removed : (a : ℕ) (points : List ℕ) → 0 < count a points → Removed a points
unfolding remove_first
remove_first-Removed a [] h = absurd (omega arith)
remove_first-Removed a (p ∷ ps) h = elim (Bool-cases (p == a)) [
  | inl same ↦ record { rest = ps; returns = rw same; counts = λ x. ground arith }
  | inr other ↦
      let later = remove_first-Removed a ps (ground arith) in
      record {
        rest = p ∷ later.rest;
        returns = rw (other, later.returns);
        counts = λ x. omega (arith, later.counts x);
      }
]

remove_first-eq-none : (a : ℕ) (points : List ℕ) → count a points ≡ 0 → remove_first a points ≡ none
unfolding remove_first
remove_first-eq-none a [] h = refl
remove_first-eq-none a (p ∷ ps) h = ground (arith, remove_first-eq-none a ps)

push_watch_lem :
    (k : WatchKind) (a : ℕ) (points : List ℕ) → push_watch k a points ≡ points ++ a ∷ []
unfolding push_watch
push_watch_lem write a points = refl
push_watch_lem read a points = refl
push_watch_lem read_write a points = refl

count-push_watches :
    (x : ℕ) (k : WatchKind) (addrs points : List ℕ)
    → count x (push_watches k addrs points) ≡ count x points + count x addrs
unfolding push_watches
count-push_watches x k [] points = omega arith
count-push_watches x k (a ∷ addrs) points =
    rw (push_watch_lem k a points) (
      omega
        (arith, count-push_watches x k addrs (points ++ a ∷ []), count-append x points (a ∷ [])))

-- Addresses that are all there are all removed.
remove_watches-found :
    (k : WatchKind) (addrs points left : List ℕ)
    → ((x : ℕ) → count x points ≡ count x left + count x addrs)
    → ((remove_watches k addrs points).1 ≡ true)
      × ((x : ℕ) → count x (remove_watches k addrs points).0 ≡ count x left)
unfolding remove_watches
remove_watches-found k [] points left h = (refl, λ x. omega (arith, h x))
remove_watches-found k (a ∷ addrs) points left h =
    let did = remove_first-Removed a points (ground (arith, h a)) in
    rw (did.returns, remove_watches)
      (remove_watches-found k addrs did.rest left (λ x. omega (arith, h x, did.counts x)))

-- An added breakpoint is one more of its address, and none of another.
pub add_sw_breakpoint-count :
    (m : Machine) (a x : ℕ)
    → count x (add_sw_breakpoint m a).0.breakpoints ≡ count x m.breakpoints + one x a
unfolding add_sw_breakpoint
add_sw_breakpoint-count m a x = omega (arith, count-append x m.breakpoints (a ∷ []))

pub contains-eq-count : (a : ℕ) (points : List ℕ) → contains points a ≡ true → 0 < count a points
unfolding contains
contains-eq-count a [] h = cc
contains-eq-count a (p ∷ ps) h = ground (arith, contains-eq-count a ps)

pub count-pos-contains : (a : ℕ) (points : List ℕ) → 0 < count a points → contains points a ≡ true
unfolding contains
count-pos-contains a [] h = absurd (omega arith)
count-pos-contains a (p ∷ ps) h = ground (arith, count-pos-contains a ps)

-- Removing a breakpoint: it succeeds exactly if the address is there, and takes one of its
-- occurrences and nothing else.
pub remove_sw_breakpoint-count :
    (m : Machine) (a : ℕ)
    → ((remove_sw_breakpoint m a).1 ≡ ok (contains m.breakpoints a))
      × ((x : ℕ)
          → count x m.breakpoints
            ≡ count x (remove_sw_breakpoint m a).0.breakpoints
              + (if contains m.breakpoints a then one x a else 0))
unfolding remove_sw_breakpoint
remove_sw_breakpoint-count m a = elim (Bool-cases (contains m.breakpoints a)) [
  | inl there ↦
      let did = remove_first-Removed a m.breakpoints (contains-eq-count a m.breakpoints there) in
      rw (there, did.returns, remove_sw_breakpoint) (refl, λ x. omega (arith, did.counts x))
  | inr missing ↦
      let nothing : count a m.breakpoints ≡ 0 =
        ground (arith, count-pos-contains a m.breakpoints) in
      rw (missing, remove_first-eq-none a m.breakpoints nothing, remove_sw_breakpoint)
        (refl, λ x. omega arith)
]

-- Removing the watchpoints that were just added, for the same address and length and with any two
-- kinds, succeeds, and every address is watched as often as before.
pub remove_hw_watchpoint-add :
    (range : ℕ → ℕ → List ℕ) (w : ℕ) (m : Machine) (addr len : ℕ) (kind kind' : WatchKind)
    → let added = (add_hw_watchpoint range w m addr len kind).0 in
      ((remove_hw_watchpoint range w added addr len kind').1 ≡ ok true)
      × ((x : ℕ)
          → count x (remove_hw_watchpoint range w added addr len kind').0.watchpoints
            ≡ count x m.watchpoints)
unfolding add_hw_watchpoint remove_hw_watchpoint
remove_hw_watchpoint-add range w m addr len kind kind' =
    let addrs = range addr ((addr + len) % 2 ^ w) in
    let did =
      remove_watches-found kind' addrs (push_watches kind addrs m.watchpoints) m.watchpoints
        (λ x. count-push_watches x kind addrs m.watchpoints) in
    (ap ok did.0, did.1)
