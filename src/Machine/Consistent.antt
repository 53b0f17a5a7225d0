-- ===== src/Machine/Consistent.antt =====
-- The machine agrees with a replay of the trace: its registers and memory are those after the first
-- `trace_index` events, and the events behind it carry the values that an undo needs.
use mathlib.Core.Option
use mathlib.Core.Option.{some-injective}
use riscv_trace_debugger.Prelude.{
  ℕ, zero, suc, ◌≤◌, ◌<◌, ◌≡◌, refl, ap, sym, ◌∙◌, none, some, List, [], ◌∷◌, map, length,
  get_elem?, set, Option-cases, inl, inr,
}
use riscv_trace_debugger.Memory.{r8}
use riscv_trace_debugger.Trace.{TraceEvent}
use riscv_trace_debugger.Cpu.Replay.{State, apply, fill, clear, replay, IsValid, IsSound}
use riscv_trace_debugger.Cpu.Events.{replay-map-clear, apply-IsSound, IsValid-clear, clear-IsValid}
use riscv_trace_debugger.Machine.State.{Machine}

-- What an observer sees of the registers and of the memory.
abbrev pub state_of : Machine → State
state_of m = record { cpu = m.cpu; bytes = r8 m.mem }

-- A start and a trace that fit together, as `Machine::new` and the trace readers make them: `pc` is
-- that of the first event, and the events name registers, addresses and values in range.
pub record IsStart (s : State) (trace : List TraceEvent) : Type 0 where
  pub sound : IsSound s
  pub first_pc : (e : TraceEvent) → get_elem? trace 0 ≡ some e → s.cpu.pc ≡ e.pc
  pub valid : (i : ℕ) (e : TraceEvent) → get_elem? trace i ≡ some e → IsValid e

-- Events that differ at most in the values from before.
abbrev pub SameTrace : List TraceEvent → List TraceEvent → Type 0
SameTrace a b = map clear a ≡ map clear b

pub record Consistent (s : State) (trace : List TraceEvent) (m : Machine) : Type 0 where
  pub same_trace : SameTrace m.trace trace
  pub in_range : m.trace_index ≤ length m.trace
  pub at_state : state_of m ≡ replay s trace m.trace_index
  pub filled :
      (i : ℕ) (e : TraceEvent)
      → i < m.trace_index
      → get_elem? m.trace i ≡ some e
      → e ≡ fill (replay s trace i) e

some≢none : {A : Type 0} {a : A} → some a ≡ none → ⊥
some≢none h = cc

get_elem?-map {ℓ κ} :
    {A : Type ℓ} {B : Type κ} (f : A → B) (xs : List A) (i : ℕ)
    → get_elem? (map f xs) i ≡ Option.map f (get_elem? xs i)
get_elem?-map f [] i = refl
get_elem?-map f (x ∷ xs) zero = refl
get_elem?-map f (x ∷ xs) (suc i) = get_elem?-map f xs i

pub map-set {ℓ κ} :
    {A : Type ℓ} {B : Type κ} (f : A → B) (xs : List A) (i : ℕ) (v : A) {a : A}
    → get_elem? xs i ≡ some a
    → f v ≡ f a
    → map f (set xs i v) ≡ map f xs
map-set f [] i v h e = refl
map-set f (x ∷ xs) zero v h e = ap (λ y. y ∷ map f xs) (e ∙ ap f (sym (some-injective _ _ h)))
map-set f (x ∷ xs) (suc i) v h e = ap (◌∷◌ (f x)) (map-set f xs i v h e)

pub length-map {ℓ κ} :
    {A : Type ℓ} {B : Type κ} (f : A → B) (xs : List A) → length (map f xs) ≡ length xs
length-map f [] = refl
length-map f (x ∷ xs) = ap suc (length-map f xs)

pub replay-IsSound :
    (s : State) (trace : List TraceEvent) (n : ℕ) → IsSound s → IsSound (replay s trace n)
unfolding replay
replay-IsSound s trace zero h = h
replay-IsSound s [] (suc n) h = h
replay-IsSound s (e ∷ trace) (suc n) h = replay-IsSound (apply e s) trace n (apply-IsSound e s h)

pub replay-SameTrace :
    (s : State) (a b : List TraceEvent) (n : ℕ) → SameTrace a b → replay s a n ≡ replay s b n
replay-SameTrace s a b n h =
    sym (replay-map-clear s a n) ∙ ap (λ l. replay s l n) h ∙ replay-map-clear s b n

pub length-SameTrace : (a b : List TraceEvent) → SameTrace a b → length a ≡ length b
length-SameTrace a b h = sym (length-map clear a) ∙ ap length h ∙ length-map clear b

-- An event of the one trace stands in the other too, up to the values from before.
pub event-SameTrace :
    (a b : List TraceEvent) (i : ℕ) {e : TraceEvent}
    → SameTrace a b
    → get_elem? a i ≡ some e
    → (e' : TraceEvent) × (get_elem? b i ≡ some e') × (clear e ≡ clear e')
event-SameTrace a b i {e} h found = elim (Option-cases (get_elem? b i)) [
  | inl missing ↦ absurd (some≢none (same ∙ ap (Option.map clear) missing))
  | inr (e', found') ↦ (e', found', some-injective _ _ (same ∙ ap (Option.map clear) found'))
]
  where
    same : some (clear e) ≡ Option.map clear (get_elem? b i)
    same =
        ap (Option.map clear) (sym found)
        ∙ sym (get_elem?-map clear a i)
        ∙ ap (λ l. get_elem? l i) h
        ∙ get_elem?-map clear b i

pub IsValid-SameTrace :
    (a b : List TraceEvent) (i : ℕ) {e : TraceEvent}
    → SameTrace a b
    → ((e' : TraceEvent) → get_elem? b i ≡ some e' → IsValid e')
    → get_elem? a i ≡ some e
    → IsValid e
IsValid-SameTrace a b i h valid found =
    let (e', found', e) = event-SameTrace a b i h found in
    IsValid-clear (rw e (clear-IsValid (valid e' found')))
