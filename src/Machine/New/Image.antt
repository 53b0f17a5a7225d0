-- ===== src/Machine/New/Image.antt =====
-- What `Machine::new` puts into the memory: an independent description, byte by byte.
use mathlib.Core.Option
use riscv_trace_debugger.Prelude.{
  ℕ, zero, suc, ◌+◌, ◌-◌, ◌^◌, ◌%◌, ◌<◌, ◌≤◌, ◌≡◌, refl, sym, ap, ◌∙◌, Bool, true, false, not, ◌&&◌,
  ◌||◌, Option, none, some, List, [], ◌∷◌, take, drop, ltb, leb, ◌==◌, length, length-take,
  length-drop, get_elem?, if◌then◌else◌, arith, Bool-cases, inl, inr,
}
use riscv_trace_debugger.Memory.{SimpleMemory, default, r8, w8}
use riscv_trace_debugger.HashMap.{get, get-insert}
use riscv_trace_debugger.Trace.{TraceEvent}
use riscv_trace_debugger.Cpu
use riscv_trace_debugger.Machine.State.{Machine, forwards}
use riscv_trace_debugger.Machine.New.{
  Outcome, done, SectionHeader, ElfHeader, load_bytes, slice, load_section, load_sections, first_pc,
  new,
}

-- How far an address lies behind another one, around the end of the address space.
abbrev pub distance : ℕ → ℕ → ℕ
distance addr x = (x + (2 ^ 64 - addr % 2 ^ 64)) % 2 ^ 64

there-distance :
    (addr i x : ℕ) → i < 2 ^ 64 → x < 2 ^ 64 → (addr + i) % 2 ^ 64 ≡ x → distance addr x ≡ i
there-distance addr i x hi hx e = omega (arith, hi, hx, e)

distance-there :
    (addr i x : ℕ) → i < 2 ^ 64 → x < 2 ^ 64 → distance addr x ≡ i → (addr + i) % 2 ^ 64 ≡ x
distance-there addr i x hi hx e = omega (arith, hi, hx, e)

r8-w8 : (m : SimpleMemory) (a v x : ℕ) → r8 (w8 m a v) x ≡ (if a == x then v else r8 m x)
unfolding r8 w8
r8-w8 m a v x = ground (arith, get-insert m.map a v x)

-- The byte at a distance, of some that follow each other from the distance `i` on.
abbrev nth_from : ℕ → List ℕ → ℕ → ℕ → ℕ
nth_from i bs d below = if leb i d then Option.get_or (get_elem? bs (d - i)) below else below

nth_from-cons :
    (i : ℕ) (b : ℕ) (bs : List ℕ) (d below : ℕ)
    → nth_from (i + 1) bs d (if i == d then b else below) ≡ nth_from i (b ∷ bs) d below
nth_from-cons i b bs d below = elim (Bool-cases (leb (i + 1) d)) [
  | inl before ↦
      let different : (i == d) ≡ false = ground arith in
      let from : leb i d ≡ true = ground arith in
      let rest : d - i ≡ suc (d - (i + 1)) = ground arith in rw (before, different, from, rest) refl
  | inr behind ↦ elim (Bool-cases (i == d)) [
    | inl same ↦
        let from : leb i d ≡ true = ground arith in
        let first : d - i ≡ 0 = ground arith in rw (behind, same, from, first) refl
    | inr different ↦ let from : leb i d ≡ false = ground arith in rw (behind, different, from) refl
  ]
]

load_bytes-nth_from :
    (addr x : ℕ) (bs : List ℕ) (i : ℕ) (mem : SimpleMemory)
    → x < 2 ^ 64
    → i + length bs ≤ 2 ^ 64
    → r8 (load_bytes addr i bs mem) x ≡ nth_from i bs (distance addr x) (r8 mem x)
unfolding load_bytes
load_bytes-nth_from addr x [] i mem hx le = elim (Bool-cases (leb i (distance addr x))) [
  | inl e ↦ rw e refl
  | inr e ↦ rw e refl
]
load_bytes-nth_from addr x (b ∷ bs) i mem hx le =
    load_bytes-nth_from addr x bs (i + 1) (w8 mem ((addr + i) % 2 ^ 64) b) hx (omega (arith, le))
    ∙ ap (nth_from (i + 1) bs (distance addr x))
        (r8-w8 mem ((addr + i) % 2 ^ 64) b x ∙ ap (λ t. if t then b else r8 mem x) same)
    ∙ nth_from-cons i b bs (distance addr x) (r8 mem x)
  where
    same : ((addr + i) % 2 ^ 64 == x) ≡ (i == distance addr x)
    same = ground (
      arith,
      there-distance addr i x (omega (arith, le)) hx,
      distance-there addr i x (omega (arith, le)) hx,
    )

-- Sections that are loaded, in the order of their headers.
abbrev pub is_loaded : SectionHeader → Bool
is_loaded h = h.is_alloc && not h.is_nobits

-- What a section has at an address: a byte of the file, by its distance from the section's start.
abbrev pub section_byte : List ℕ → ℕ → ℕ → Option (ℕ × ℕ) → ℕ → ℕ
section_byte elf addr x none below = below
section_byte elf addr x (some (start, end)) below =
    if ltb (start + distance addr x) end
    then Option.get_or (get_elem? elf (start + distance addr x)) below
    else below

-- The byte at an address is that of the last loaded section that has one there, or `below`.
abbrev pub image : List ℕ → List SectionHeader → ℕ → ℕ → ℕ
image elf [] x below = below
image elf (h ∷ hs) x below =
    image elf hs x (if is_loaded h then section_byte elf h.sh_addr x h.file_range below else below)

-- The bytes of a section lie in the file.
abbrev pub InFile : List ℕ → Option (ℕ × ℕ) → Type 0
InFile elf none = ⊥
InFile elf (some (start, end)) = (start ≤ end) × (end ≤ length elf)

-- Nothing of a section keeps it from being loaded: its bytes lie in the file, and where the log asks
-- for its name, it has one.
abbrev pub AllLoadable : Bool → List ℕ → List SectionHeader → Type 0
AllLoadable info elf [] = Unit
AllLoadable info elf (h ∷ hs) =
    (is_loaded h ≡ true → InFile elf h.file_range × ((not info || h.name) ≡ true))
    × AllLoadable info elf hs

get_elem?-take :
    (n : ℕ) (xs : List ℕ) (d : ℕ)
    → get_elem? (take n xs) d ≡ (if ltb d n then get_elem? xs d else none)
get_elem?-take zero xs d = let out : ltb d 0 ≡ false = ground arith in rw out refl
get_elem?-take (suc n) [] d = elim (Bool-cases (ltb d (suc n))) [
  | inl e ↦ rw e refl
  | inr e ↦ rw e refl
]
get_elem?-take (suc n) (x ∷ xs) zero =
    let first : ltb 0 (suc n) ≡ true = ground arith in rw first refl
get_elem?-take (suc n) (x ∷ xs) (suc d) =
    let same : ltb (suc d) (suc n) ≡ ltb d n = ground arith in rw same (get_elem?-take n xs d)

get_elem?-drop : (n : ℕ) (xs : List ℕ) (d : ℕ) → get_elem? (drop n xs) d ≡ get_elem? xs (n + d)
get_elem?-drop zero xs d = ap (get_elem? xs) (omega arith)
get_elem?-drop (suc n) [] d = refl
get_elem?-drop (suc n) (x ∷ xs) d = get_elem?-drop n xs d ∙ ap (get_elem? (x ∷ xs)) (sym shift)
  where
    shift : suc n + d ≡ suc (n + d)
    shift = omega arith

module _ (elf : List ℕ) (small : length elf ≤ 2 ^ 64) where
  bytes_at :
      (start end d below : ℕ)
      → start ≤ end
      → nth_from 0 (take (end - start) (drop start elf)) d below
        ≡ (if ltb (start + d) end then Option.get_or (get_elem? elf (start + d)) below else below)
  bytes_at start end d below ordered =
      let from : leb 0 d ≡ true = ground arith in
      let none_off : d - 0 ≡ d = omega arith in
      let same : ltb d (end - start) ≡ ltb (start + d) end = ground arith in
      rw
        (
          from,
          none_off,
          get_elem?-take (end - start) (drop start elf) d,
          get_elem?-drop start elf d,
          same,
        )
        (elim (Bool-cases (ltb (start + d) end)) [ inl e ↦ rw e refl | inr e ↦ rw e refl ])

  -- A memory that a loader returned, with these bytes.
  abbrev Loads : (ℕ → ℕ) → Outcome SimpleMemory → Type 0
  Loads bytes o =
      (mem : SimpleMemory) × (o ≡ done mem) × ((x : ℕ) → x < 2 ^ 64 → r8 mem x ≡ bytes x)

  load_section-Loads :
      (info : Bool) (h : SectionHeader) (range : Option (ℕ × ℕ)) (mem : SimpleMemory)
      → h.file_range ≡ range
      → InFile elf range
      → (not info || h.name) ≡ true
      → Loads (λ x. section_byte elf h.sh_addr x range (r8 mem x)) (load_section info elf h mem)
  unfolding load_section slice
  load_section-Loads info h none mem e inside named = absurd inside
  load_section-Loads info h (some (start, end)) mem e (ordered, fits) named =
      let bs = take (end - start) (drop start elf) in
      let low : leb start end ≡ true = ground arith in
      let high : leb end (length elf) ≡ true = ground arith in
      let room : 0 + length bs ≤ 2 ^ 64 =
        omega (arith, length-take (end - start) (drop start elf), length-drop start elf) in
      (
        load_bytes h.sh_addr 0 bs mem,
        rw (named, e, low, high, load_section, slice) refl,
        λ x hx.
            load_bytes-nth_from h.sh_addr x bs 0 mem hx room
            ∙ bytes_at start end (distance h.sh_addr x) (r8 mem x) ordered,
      )

  load_sections-Loads :
      (info : Bool) (hs : List SectionHeader) (mem : SimpleMemory)
      → AllLoadable info elf hs
      → Loads (λ x. image elf hs x (r8 mem x)) (load_sections info elf hs mem)
  unfolding load_sections
  load_sections-Loads info [] mem h = (mem, refl, λ x hx. refl)
  load_sections-Loads info (h ∷ hs) mem (loadable, more) = elim (Bool-cases h.is_alloc) [
    | inr e ↦ rw e (load_sections-Loads info hs mem more)
    | inl e ↦ elim (Bool-cases h.is_nobits) [
      | inl f ↦ rw (e, f) (load_sections-Loads info hs mem more)
      | inr f ↦
          let can : InFile elf h.file_range × ((not info || h.name) ≡ true) =
            loadable (rw (e, f) refl) in
          let one = load_section-Loads info h h.file_range mem refl can.0 can.1 in
          let rest = load_sections-Loads info hs one.0 more in
          rw (e, f, one.1) (rest.0, rest.1, λ x hx. rest.2 x hx ∙ ap (image elf hs x) (one.2 x hx))
    ]
  ]

-- Where the file is parsed, its entry point is an address of the architecture, and all sections that
-- are loaded lie in the file (and have names, if the log asks for these), `Machine::new` returns a
-- machine. Its memory has at each address the byte of the file that the last loaded section with that
-- address puts there, around the end of the address space, and 0 where there is none; its registers
-- are those of a new processor with `pc` at the first event, or at the entry point of the file if there
-- is none; it stands before the first event, forwards. A file is no longer than the address space.
pub new-image :
    (parse : List ℕ → Option ElfHeader) (w : ℕ) (info : Bool) (elf : List ℕ)
    (trace : List TraceEvent) (header : ElfHeader)
    → length elf ≤ 2 ^ 64
    → parse elf ≡ some header
    → header.entry < 2 ^ w
    → AllLoadable info elf header.section_headers
    → (m : Machine) × (new parse w info elf trace ≡ done m)
      × ((x : ℕ) → x < 2 ^ 64 → r8 m.mem x ≡ image elf header.section_headers x 0)
      × (m.cpu ≡ record Cpu.default { pc = first_pc trace header.entry })
      × (m.trace ≡ trace)
      × (m.trace_index ≡ 0)
      × (m.exec_dir ≡ forwards)
unfolding new
new-image parse w info elf trace header small parsed entry loadable =
    let fits : ltb header.entry (2 ^ w) ≡ true = ground arith in
    let loaded = load_sections-Loads elf small info header.section_headers default loadable in
    rw (parsed, fits, loaded.1, new)
      (
        _,
        refl,
        λ x hx. loaded.2 x hx ∙ ap (image elf header.section_headers x) (unfold r8 get in refl),
        refl,
        refl,
        refl,
        refl,
      )
