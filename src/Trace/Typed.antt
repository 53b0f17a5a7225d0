-- ===== src/Trace/Typed.antt =====
-- What the types of the source say of an event that a reader makes for a `Usize` of `w` bits.
use mathlib.Core.Option
use mathlib.Core.Option.{some-injective}
use riscv_trace_debugger.Prelude.{
  refl, sym, ℕ, zero, suc, List, [], ◌∷◌, get_elem?, subst, ◌^◌, ◌≤◌, ◌<◌, ◌≡◌, Option, none, some,
}
use riscv_trace_debugger.Trace.{XRegWrite, MemWrite, TraceEvent}
use riscv_trace_debugger.Cpu.Replay.{width, payload, IsValid, ValidWrite, ValidStore}
use riscv_trace_debugger.Memory.{size}

-- A number, if there is one, of `bits` bits.
abbrev pub Fits : ℕ → Option ℕ → Type 0
Fits bits none = Unit
Fits bits (some v) = v < 2 ^ bits

-- A write of one of the registers x1 to x31, as it is before a replay.
abbrev pub FreshWrite : ℕ → Option XRegWrite → Type 0
FreshWrite w none = Unit
FreshWrite w (some x) = (1 ≤ x.index) × (x.index < 32) × (x.value < 2 ^ w) × (x.prev_value ≡ none)

-- A store of a value that fits its width.
abbrev pub FreshStore : Option MemWrite → Type 0
FreshStore none = Unit
FreshStore (some st) =
    (st.phys_addr < 2 ^ 64)
    × (payload st.value < 256 ^ size (width st.value))
    × (st.prev_value ≡ none)

-- A write as it is before a replay.
abbrev pub fresh : XRegWrite → XRegWrite
fresh x = record { index = x.index; value = x.value; prev_value = none }

pub map-fresh : (w : ℕ) (x : Option XRegWrite) → FreshWrite w x → Option.map fresh x ≡ x
map-fresh w none h = refl
map-fresh w (some x) h =
    λ k. some (record { index = x.index; value = x.value; prev_value = sym h.3 k })

pub record IsTyped (w : ℕ) (e : TraceEvent) : Type 0 where
  pub time : e.time < 2 ^ 64
  pub cycle : e.cycle < 2 ^ 64
  pub pc : e.pc < 2 ^ w
  pub instruction : Fits 32 e.instruction
  pub xwrite : FreshWrite w e.xwrite
  pub store : FreshStore e.store

FreshWrite-ValidWrite : (w : ℕ) (x : Option XRegWrite) → FreshWrite w x → ValidWrite x
FreshWrite-ValidWrite w none h = tt
FreshWrite-ValidWrite w (some x) h = h.1

FreshStore-ValidStore : (st : Option MemWrite) → FreshStore st → ValidStore st
FreshStore-ValidStore none h = tt
FreshStore-ValidStore (some st) h = (h.0, h.1)

-- Such an event is one that a step can be made on.
pub IsTyped-IsValid : (w : ℕ) (e : TraceEvent) → IsTyped w e → IsValid e
IsTyped-IsValid w e t = record {
  xwrite = FreshWrite-ValidWrite w e.xwrite t.xwrite;
  store = FreshStore-ValidStore e.store t.store;
}

abbrev pub AllTyped : ℕ → List TraceEvent → Type 0
AllTyped w [] = Unit
AllTyped w (e ∷ es) = IsTyped w e × AllTyped w es

pub AllTyped-IsValid :
    (w : ℕ) (es : List TraceEvent)
    → AllTyped w es
    → (i : ℕ) (e : TraceEvent) → get_elem? es i ≡ some e
    → IsValid e
AllTyped-IsValid w [] h i e at = cc
AllTyped-IsValid w (x ∷ es) h zero e at =
    subst IsValid (some-injective x e at) (IsTyped-IsValid w x h.0)
AllTyped-IsValid w (x ∷ es) h (suc i) e at = AllTyped-IsValid w es h.1 i e at
