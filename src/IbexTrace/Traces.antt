-- ===== src/IbexTrace/Traces.antt =====
-- A whole Ibex trace, printed and read.
use mathlib.Core.Option
use riscv_trace_debugger.Prelude.{
  ℕ, ◌<◌, ◌≡◌, refl, ap, ◌∙◌, true, false, some, List, [], ◌∷◌, ◌==◌, ok, map,
}
use riscv_trace_debugger.Trace.{Text, TraceEvent}
use riscv_trace_debugger.Trace.Typed.{IsTyped}
use riscv_trace_debugger.Str.{codes, starts_with}
use riscv_trace_debugger.Str.Display.Width.{starts_with-printed}
use riscv_trace_debugger.Str.Split.{NoSep}
use riscv_trace_debugger.IbexTrace.{Opcodes, instruction_access_width, read_line, read_trace}
use riscv_trace_debugger.IbexTrace.RoundTrip.{StoresAtWidth, print_line, read_line-print_line}

-- An event of an instruction, and no trap, that has a line.
pub record IsPrintable (w : ℕ) (ops : Opcodes) (e : TraceEvent) : Type 0 where
  pub typed : IsTyped w e
  pub no_trap : e.trap ≡ false
  pub instruction : ℕ
  pub runs : e.instruction ≡ some instruction
  pub at_width : StoresAtWidth (instruction_access_width ops instruction) e.store
  pub mnemonic : NoSep (λ c. c == 9) e.assembly_mnemonic
  pub args : NoSep (λ c. c == 9) e.assembly_args

abbrev pub AllPrintable : ℕ → Opcodes → List TraceEvent → Type 0
AllPrintable w ops [] = Unit
AllPrintable w ops (e ∷ es) = IsPrintable w ops e × AllPrintable w ops es

abbrev pub print_event : ℕ → TraceEvent → Text
print_event w e = print_line w (Option.get_or e.instruction 0) e

module _ (w : ℕ) (some_bits : 0 < w) (ops : Opcodes) where
  read_line-print_event :
      (e : TraceEvent) → IsPrintable w ops e → read_line w ops (print_event w e) ≡ ok e
  read_line-print_event e h =
      ap (λ o. read_line w ops (print_line w (Option.get_or o 0) e)) h.runs
      ∙ read_line-print_line w some_bits ops h.instruction e h.typed h.runs h.no_trap h.at_width
          h.mnemonic h.args

  read_trace-events :
      (es : List TraceEvent)
      → AllPrintable w ops es
      → read_trace w ops (map (print_event w) es) ≡ ok es
  unfolding read_trace
  read_trace-events [] h = refl
  read_trace-events (e ∷ es) h =
      rw
        (
          starts_with-printed e.time _,
          read_line-print_event e h.0,
          read_trace-events es h.1,
          read_trace,
        )
        refl

  -- A file that has a header and then a line for each of some events is read as exactly these
  -- events, in their order, if each of them is no trap, its instruction has the width of its store, if
  -- it has one, its numbers are in the range of their types, and its mnemonic and arguments have no
  -- tab.
  pub ibex_read_trace-print_event :
      (header : Text) (es : List TraceEvent)
      → starts_with (codes "Time") header ≡ true
      → AllPrintable w ops es
      → read_trace w ops (header ∷ map (print_event w) es) ≡ ok es
  unfolding read_trace
  ibex_read_trace-print_event header es skipped h =
      rw (skipped, read_trace) (read_trace-events es h)
