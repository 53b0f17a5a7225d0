-- ===== src/Cpu/Events.antt =====
-- The values from before that an event carries do not bear on what it does.
use riscv_trace_debugger.Prelude.{
  ℕ, zero, suc, ◌≡◌, refl, ap, ◌∙◌, Option, none, some, List, [], ◌∷◌, map, arith, get_elem?,
  length, length-set,
}
use riscv_trace_debugger.Memory.{Bytes, IsBytes, IsBytes-put, size}
use mathlib.Core.Option.{some-injective}
use riscv_trace_debugger.Trace.{TraceEvent, XRegWrite, MemWrite}
use riscv_trace_debugger.Cpu.Replay.{
  State, apply, put_write, put_store, fill, clear, clear_write, clear_store, replay, IsValid,
  ValidWrite, ValidStore, width, payload, IsSound,
}

put_write-clear :
    (w : Option XRegWrite) (xs : List ℕ) → put_write (clear_write w) xs ≡ put_write w xs
put_write-clear none xs = refl
put_write-clear (some w) xs = refl

pub apply-clear : (e : TraceEvent) (s : State) → apply (clear e) s ≡ apply e s
unfolding apply clear
apply-clear e s = ground arith

pub clear-fill : (s : State) (e : TraceEvent) → clear (fill s e) ≡ clear e
unfolding fill clear
clear-fill s e = ground arith

pub fill-clear : (s : State) (e : TraceEvent) → fill s (clear e) ≡ fill s e
unfolding fill clear
fill-clear s e = ground arith

pub fill-fill : (s : State) (e : TraceEvent) → fill s (fill s e) ≡ fill s e
unfolding fill
fill-fill s e = ground arith

ValidWrite-clear : (w : Option XRegWrite) → ValidWrite (clear_write w) → ValidWrite w
ValidWrite-clear none v = v
ValidWrite-clear (some w) v = v

ValidStore-clear : (st : Option MemWrite) → ValidStore (clear_store st) → ValidStore st
ValidStore-clear none v = v
ValidStore-clear (some st) v = v

pub IsValid-clear : {e : TraceEvent} → IsValid (clear e) → IsValid e
unfolding clear
IsValid-clear {e} v = record {
  xwrite = ValidWrite-clear e.xwrite v.xwrite;
  store = ValidStore-clear e.store v.store;
}

clear-ValidWrite : (w : Option XRegWrite) → ValidWrite w → ValidWrite (clear_write w)
clear-ValidWrite none v = v
clear-ValidWrite (some w) v = v

clear-ValidStore : (st : Option MemWrite) → ValidStore st → ValidStore (clear_store st)
clear-ValidStore none v = v
clear-ValidStore (some st) v = v

pub clear-IsValid : {e : TraceEvent} → IsValid e → IsValid (clear e)
unfolding clear
clear-IsValid {e} v = record {
  xwrite = clear-ValidWrite e.xwrite v.xwrite;
  store = clear-ValidStore e.store v.store;
}

length-put_write : (w : Option XRegWrite) (xs : List ℕ) → length (put_write w xs) ≡ length xs
length-put_write none xs = refl
length-put_write (some w) xs = length-set xs w.index w.value

IsBytes-put_store : (st : Option MemWrite) (f : Bytes) → IsBytes f → IsBytes (put_store st f)
IsBytes-put_store none f h = h
IsBytes-put_store (some st) f h =
    IsBytes-put (size (width st.value)) (payload st.value) f st.phys_addr h

pub apply-IsSound : (e : TraceEvent) (s : State) → IsSound s → IsSound (apply e s)
unfolding apply
apply-IsSound e s h = record {
  registers = length-put_write e.xwrite s.cpu.xregs ∙ h.registers;
  bytes = IsBytes-put_store e.store s.bytes h.bytes;
}

pub replay-map-clear :
    (s : State) (tr : List TraceEvent) (n : ℕ) → replay s (map clear tr) n ≡ replay s tr n
unfolding replay
replay-map-clear s tr zero = refl
replay-map-clear s [] (suc n) = refl
replay-map-clear s (e ∷ tr) (suc n) = rw (apply-clear e s) (replay-map-clear (apply e s) tr n)

-- One more event.
pub replay-suc :
    (s : State) (tr : List TraceEvent) (n : ℕ) {e : TraceEvent}
    → get_elem? tr n ≡ some e
    → replay s tr (suc n) ≡ apply e (replay s tr n)
unfolding replay
replay-suc s [] n h = cc
replay-suc s (x ∷ tr) zero h = ap (λ e. apply e s) (some-injective _ _ h)
replay-suc s (x ∷ tr) (suc n) h = replay-suc (apply x s) tr n h
