-- ===== src/Machine/New/Start.antt =====
-- The machine that `Machine::new` makes is at the start of its trace.
use riscv_trace_debugger.Prelude.{
  ℕ, zero, suc, ◌+◌, ◌-◌, ◌^◌, ◌%◌, ◌<◌, ◌≡◌, refl, ap, Bool, true, false, not, ◌&&◌, ◌||◌, Option,
  none, some, List, [], ◌∷◌, take, drop, ltb, leb, length, get_elem?, if◌then◌else◌, arith,
  Bool-cases, inl, inr,
}
use mathlib.Core.Option.{some-injective}
use riscv_trace_debugger.Memory.{
  SimpleMemory, default, r8, w8, b8, IsBytes, simple_lawful, IsBytes-write,
}
use riscv_trace_debugger.HashMap.{get}
use riscv_trace_debugger.Trace.{TraceEvent}
use riscv_trace_debugger.Cpu.Replay.{replay, IsValid}
use riscv_trace_debugger.Machine.State.{Machine}
use riscv_trace_debugger.Machine.Consistent.{state_of, IsStart, Consistent}
use riscv_trace_debugger.Machine.New.{
  Outcome, done, failed, panicked, ◌>>=◌, or_fail, Error, SectionHeader, ElfHeader, load_bytes,
  slice, load_section, load_sections, first_pc, new, entry_too_large, parse_error,
}

-- What is returned, if anything is, has the property.
abbrev pub Returns : {A : Type 0} → (A → Type 0) → Outcome A → Type 0
Returns P (done a) = P a
Returns P (failed e) = Unit
Returns P panicked = Unit

Returns-bind :
    {A B : Type 0} (P : A → Type 0) (Q : B → Type 0) (o : Outcome A) (f : A → Outcome B)
    → Returns P o
    → ((a : A) → P a → Returns Q (f a))
    → Returns Q (o >>= f)
Returns-bind P Q (done a) f h g = g a h
Returns-bind P Q (failed e) f h g = tt
Returns-bind P Q panicked f h g = tt

Returns-if :
    {A : Type 0} (P : A → Type 0) (b : Bool) (x y : Outcome A)
    → Returns P x
    → Returns P y
    → Returns P (if b then x else y)
Returns-if P true x y hx hy = hx
Returns-if P false x y hx hy = hy

Returns-or_fail : {A : Type 0} (o : Option A) (e : Error) → Returns (λ _. Unit) (or_fail o e)
Returns-or_fail none e = tt
Returns-or_fail (some a) e = tt

abbrev pub AllBytes : List ℕ → Type 0
AllBytes [] = Unit
AllBytes (b ∷ bs) = (b < 256) × AllBytes bs

AllBytes-take : (n : ℕ) (bs : List ℕ) → AllBytes bs → AllBytes (take n bs)
AllBytes-take zero bs h = tt
AllBytes-take (suc n) [] h = tt
AllBytes-take (suc n) (b ∷ bs) (h, t) = (h, AllBytes-take n bs t)

AllBytes-drop : (n : ℕ) (bs : List ℕ) → AllBytes bs → AllBytes (drop n bs)
AllBytes-drop zero bs h = h
AllBytes-drop (suc n) [] h = tt
AllBytes-drop (suc n) (b ∷ bs) (h, t) = AllBytes-drop n bs t

abbrev Sound : SimpleMemory → Type 0
Sound mem = IsBytes (r8 mem)

load_bytes-Sound :
    (addr i : ℕ) (bs : List ℕ) (mem : SimpleMemory)
    → AllBytes bs
    → Sound mem
    → Sound (load_bytes addr i bs mem)
unfolding load_bytes
load_bytes-Sound addr i [] mem h s = s
load_bytes-Sound addr i (b ∷ bs) mem (h, t) s =
    load_bytes-Sound addr (i + 1) bs (w8 mem ((addr + i) % 2 ^ 64) b) t (
      IsBytes-write simple_lawful b8 ((addr + i) % 2 ^ 64) b mem (omega arith) (omega (arith, h)) s)

slice-AllBytes :
    (elf : List ℕ) (range : Option (ℕ × ℕ)) → AllBytes elf → Returns AllBytes (slice elf range)
unfolding slice
slice-AllBytes elf none h = tt
slice-AllBytes elf (some (start, end)) h =
    Returns-if AllBytes (leb start end && leb end (length elf)) _ _
      (AllBytes-take (end - start) (drop start elf) (AllBytes-drop start elf h)) tt

load_section-Sound :
    (info : Bool) (elf : List ℕ) (h : SectionHeader) (mem : SimpleMemory)
    → AllBytes elf
    → Sound mem
    → Returns Sound (load_section info elf h mem)
unfolding load_section
load_section-Sound info elf h mem bytes s =
    Returns-if Sound (not info || h.name) _ _
      (Returns-bind AllBytes Sound (slice elf h.file_range) _
        (slice-AllBytes elf h.file_range bytes)
        (λ bs all. load_bytes-Sound h.sh_addr 0 bs mem all s))
      tt

load_sections-Sound :
    (info : Bool) (elf : List ℕ) (hs : List SectionHeader) (mem : SimpleMemory)
    → AllBytes elf
    → Sound mem
    → Returns Sound (load_sections info elf hs mem)
unfolding load_sections
load_sections-Sound info elf [] mem bytes s = s
load_sections-Sound info elf (h ∷ hs) mem bytes s =
    let skip = load_sections-Sound info elf hs mem bytes s in
    let load =
      Returns-bind Sound Sound (load_section info elf h mem) _
        (load_section-Sound info elf h mem bytes s)
        (λ mem' s'. load_sections-Sound info elf hs mem' bytes s') in
    elim (Bool-cases h.is_alloc) [
      | inl alloc ↦ elim (Bool-cases h.is_nobits) [
        | inl nobits ↦ rw (alloc, nobits) skip
        | inr bits ↦ rw (alloc, bits) load
      ]
      | inr not_alloc ↦ rw not_alloc skip
    ]

AllValid : List TraceEvent → Type 0
AllValid trace = (i : ℕ) (e : TraceEvent) → get_elem? trace i ≡ some e → IsValid e

default-Sound : Sound default
unfolding r8 get
default-Sound x = omega arith

first_pc_lem :
    (trace : List TraceEvent) (entry : ℕ) (e : TraceEvent)
    → get_elem? trace 0 ≡ some e
    → first_pc trace entry ≡ e.pc
unfolding first_pc
first_pc_lem [] entry e h = cc
first_pc_lem (event ∷ trace) entry e h = ap (λ (e : TraceEvent). e.pc) (some-injective event e h)

-- If `Machine::new` returns a machine, for an ELF file of bytes and a trace of valid events, the trace
-- is valid from the state of that machine, and the machine agrees with the replay from there.
pub new-Consistent :
    (parse : List ℕ → Option ElfHeader) (w : ℕ) (info : Bool) (elf : List ℕ)
    (trace : List TraceEvent)
    → AllBytes elf
    → ((i : ℕ) (e : TraceEvent) → get_elem? trace i ≡ some e → IsValid e)
    → Returns
        (λ m. IsStart (state_of m) trace × Consistent (state_of m) trace m)
        (new parse w info elf trace)
unfolding new
new-Consistent parse w info elf trace bytes valid =
    let Started : Machine → Type 0 =
      λ m. IsStart (state_of m) trace × Consistent (state_of m) trace m in
    Returns-bind (λ _. Unit) Started (or_fail (parse elf) parse_error) _
      (Returns-or_fail (parse elf) parse_error)
      (λ header _.
        Returns-bind (λ _. Unit) Started
          (if ltb header.entry (2 ^ w) then done header.entry else failed entry_too_large) _
          (Returns-if (λ _. Unit) (ltb header.entry (2 ^ w)) _ _ tt tt)
          (λ entry _.
            Returns-bind Sound Started (load_sections info elf header.section_headers default) _
              (load_sections-Sound info elf header.section_headers default bytes default-Sound)
              (λ mem s. (
                record {
                  sound = record { registers = refl; bytes = s };
                  first_pc = first_pc_lem trace entry;
                  valid = valid;
                },
                record {
                  same_trace = refl;
                  in_range = omega arith;
                  at_state = unfold replay in refl;
                  filled = λ i e h at. absurd (omega arith);
                },
              ))))
