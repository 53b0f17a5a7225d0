-- ===== src/Machine/New.antt =====
-- machine.rs: `Machine::new`. `info` is whether the log takes what `info!` says: only then are its
-- arguments, and so the name of the section, looked up. The ELF parser (goblin) is a parameter: it gives the parts of a file
-- that the program reads. A `Usize` has `w` bits.
pub mod Image
pub mod Start
use riscv_trace_debugger.Prelude.{
  ℕ, ◌+◌, ◌-◌, ◌%◌, ◌^◌, Bool, true, false, ◌&&◌, ◌||◌, not, Option, none, some, List, [], ◌∷◌, ltb,
  leb, length, take, drop, if◌then◌else◌,
}
use riscv_trace_debugger.Memory.{SimpleMemory, default, w8}
use riscv_trace_debugger.Trace.{TraceEvent}
use riscv_trace_debugger.Cpu
use riscv_trace_debugger.Machine.State.{Machine, continue, forwards}

-- A section header. `name` is whether its name can be read, and `file_range` its bytes in the file.
pub record SectionHeader : Type 0 where
  pub name : Bool
  pub is_alloc : Bool
  pub is_nobits : Bool
  pub sh_addr : ℕ
  pub file_range : Option (ℕ × ℕ)

pub record ElfHeader : Type 0 where
  pub entry : ℕ
  pub section_headers : List SectionHeader

pub data Error : Type 0 where
  parse_error entry_too_large section_name_error : Error

pub data Outcome (A : Type 0) : Type 0 where
  done : A → Outcome A
  failed : Error → Outcome A
  panicked : Outcome A

infixl 5 ◌>>=◌
abbrev pub ◌>>=◌ : {A B : Type 0} → Outcome A → (A → Outcome B) → Outcome B
done a >>= f = f a
failed e >>= f = failed e
panicked >>= f = panicked

abbrev pub or_fail : {A : Type 0} → Option A → Error → Outcome A
or_fail none e = failed e
or_fail (some a) e = done a

-- The inner loop: the byte at index `i` of the section goes to `sh_addr + i`, which wraps.
unfoldable pub load_bytes : ℕ → ℕ → List ℕ → SimpleMemory → SimpleMemory
load_bytes addr i [] mem = mem
load_bytes addr i (b ∷ bytes) mem = load_bytes addr (i + 1) bytes (w8 mem ((addr + i) % 2 ^ 64) b)

-- `elf[range]`, which panics where the range does not lie in the file.
unfoldable pub slice : List ℕ → Option (ℕ × ℕ) → Outcome (List ℕ)
slice elf none = panicked
slice elf (some (start, end)) =
    if leb start end && leb end (length elf)
    then done (take (end - start) (drop start elf))
    else panicked

unfoldable pub load_section : Bool → List ℕ → SectionHeader → SimpleMemory → Outcome SimpleMemory
unfolding slice load_bytes
load_section info elf h mem =
    if not info || h.name
    then (do bytes ← slice elf h.file_range; done (load_bytes h.sh_addr 0 bytes mem))
    else failed section_name_error

unfoldable pub load_sections :
    Bool → List ℕ → List SectionHeader → SimpleMemory → Outcome SimpleMemory
load_sections info elf [] mem = done mem
load_sections info elf (h ∷ hs) mem = elim h.is_alloc [
  | false ↦ load_sections info elf hs mem
  | true ↦ elim h.is_nobits [
    | true ↦ load_sections info elf hs mem
    | false ↦ do mem' ← load_section info elf h mem; load_sections info elf hs mem'
  ]
]

-- `trace.first().map(|t| t.pc).unwrap_or(entry)`
unfoldable pub first_pc : List TraceEvent → ℕ → ℕ
first_pc [] entry = entry
first_pc (event ∷ trace) entry = event.pc

module _ (parse : List ℕ → Option ElfHeader) (w : ℕ) (info : Bool) where
  -- The channel `send_time` starts with no time sent.
  unfoldable pub new : List ℕ → List TraceEvent → Outcome Machine
  unfolding first_pc
  new elf trace = do
    header ← or_fail (parse elf) parse_error
    entry ← (if ltb header.entry (2 ^ w) then done header.entry else failed entry_too_large)
    mem ← load_sections info elf header.section_headers default
    done (record {
      exec_mode = continue;
      exec_dir = forwards;
      cpu = record Cpu.default { pc = first_pc trace entry };
      mem = mem;
      trace = trace;
      trace_index = 0;
      elf = elf;
      entry = entry;
      watchpoints = [];
      breakpoints = [];
      files = [];
      tracepoints = [];
      traceframes = [];
      tracing = false;
      selected_frame = none;
      send_time = [];
    })
