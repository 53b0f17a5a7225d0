-- ===== src/Gdb/Base/Memory.antt =====
-- The memory that a debugger sees is that of the replay.
use riscv_trace_debugger.Prelude.{
  ℕ, zero, suc, ◌+◌, ◌%◌, ◌^◌, ◌<◌, ◌≡◌, refl, ap, sym, ◌∙◌, none, some, List, [], ◌∷◌, arith,
  length, get_elem?, ok,
}
use native.Mathlib.Nat.{mod-add-mod, mod-eq_of_lt, mod-lt, add-zero}
use riscv_trace_debugger.Str.Bounds.{two_pow_pos}
use riscv_trace_debugger.Memory.{SimpleMemory, r8}
use riscv_trace_debugger.Trace.{TraceEvent}
use riscv_trace_debugger.Cpu.Replay.{State, replay}
use riscv_trace_debugger.Machine.{Machine}
use riscv_trace_debugger.Machine.Consistent.{Consistent}
use riscv_trace_debugger.Gdb.Base.{read_bytes, read_addrs}

get_elem?-read_bytes :
    (w : ℕ) (mem : SimpleMemory) (addr : ℕ) (buf : List ℕ) (i : ℕ)
    → addr < 2 ^ w
    → i < length buf
    → get_elem? (read_bytes w mem addr buf) i ≡ some (r8 mem ((addr + i) % 2 ^ w))
unfolding read_bytes
get_elem?-read_bytes w mem addr [] i low h = elim h [ ]
get_elem?-read_bytes w mem addr (old ∷ buf) zero low h = ap (λ a. some (r8 mem a)) here
  where
    here : addr ≡ (addr + 0) % 2 ^ w
    here = sym (ap (λ (t : ℕ). t % 2 ^ w) (add-zero addr) ∙ mod-eq_of_lt low)
get_elem?-read_bytes w mem addr (old ∷ buf) (suc i) low h =
    get_elem?-read_bytes w mem ((addr + 1) % 2 ^ w) buf i (mod-lt (addr + 1) (two_pow_pos w))
      (omega arith)
    ∙ ap (λ a. some (r8 mem a))
        (mod-add-mod (addr + 1) (2 ^ w) i ∙ ap (λ (t : ℕ). t % 2 ^ w) (omega arith))

length-read_bytes :
    (w : ℕ) (mem : SimpleMemory) (addr : ℕ) (buf : List ℕ)
    → length (read_bytes w mem addr buf) ≡ length buf
unfolding read_bytes
length-read_bytes w mem addr [] = refl
length-read_bytes w mem addr (old ∷ buf) = ap suc (length-read_bytes w mem ((addr + 1) % 2 ^ w) buf)

-- A debugger that reads memory, with no trace frame selected, on a machine that agrees with the
-- replay, gets as many bytes as its buffer has, and the byte at each index is that of the replayed
-- memory at the address that far on, where addresses wrap at `w` bits.
pub read_addrs_lem :
    {s : State} {trace : List TraceEvent} (w : ℕ) (m : Machine) (addr : ℕ) (buf : List ℕ)
    → Consistent s trace m
    → m.selected_frame ≡ none
    → addr < 2 ^ w
    → let read = read_addrs w m addr buf in
      (read.1 ≡ ok (length buf))
      × (length read.0 ≡ length buf)
      × ((i : ℕ)
          → i < length buf
          → get_elem? read.0 i ≡ some ((replay s trace m.trace_index).bytes ((addr + i) % 2 ^ w)))
unfolding read_addrs
read_addrs_lem w m addr buf c frame low = rw frame (
  refl,
  length-read_bytes w m.mem addr buf,
  λ i h.
      get_elem?-read_bytes w m.mem addr buf i low h
      ∙ ap (λ (t : State). some (t.bytes ((addr + i) % 2 ^ w))) c.at_state,
)
