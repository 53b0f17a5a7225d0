-- ===== src/CheriotIbexTrace/Traces.antt =====
-- A whole trace of Cheriot-Ibex, printed and read.
use mathlib.Core.Option
use riscv_trace_debugger.Prelude.{
  ℕ, ◌<◌, ◌≡◌, refl, ap, ◌∙◌, true, some, List, [], ◌∷◌, ◌==◌, ok, map,
}
use riscv_trace_debugger.Trace.{Text, TraceEvent}
use riscv_trace_debugger.Trace.Typed.{IsTyped}
use riscv_trace_debugger.Str.{codes, starts_with}
use riscv_trace_debugger.Str.Display.Width.{starts_with-printed}
use riscv_trace_debugger.Str.Split.{NoSep}
use riscv_trace_debugger.CheriotIbexTrace.{read_line, read_trace}
use riscv_trace_debugger.CheriotIbexTrace.Print.{NoSpace}
use riscv_trace_debugger.CheriotIbexTrace.Parts.{Form, StoreInForm}
use riscv_trace_debugger.CheriotIbexTrace.RoundTrip.{print_line, cheriot_read_line-print_line}

-- An event of an instruction that has a line in some form.
pub record IsPrintable (w : ℕ) (form : Form) (e : TraceEvent) : Type 0 where
  pub typed : IsTyped w e
  pub trapped : e.trap ≡ starts_with (codes "-->") e.assembly_mnemonic
  pub instruction : ℕ
  pub runs : e.instruction ≡ some instruction
  pub in_form : StoreInForm w form.store e.store
  pub metadata : NoSpace form.metadata
  pub mnemonic : NoSep (λ c. c == 9) e.assembly_mnemonic
  pub args : NoSep (λ c. c == 9) e.assembly_args

abbrev pub AllPrintable : ℕ → List (Form × TraceEvent) → Type 0
AllPrintable w [] = Unit
AllPrintable w ((form, e) ∷ es) = IsPrintable w form e × AllPrintable w es

abbrev pub print_event : ℕ → Form × TraceEvent → Text
print_event w (form, e) = print_line w form (Option.get_or e.instruction 0) e

module _ (w : ℕ) (some_bits : 0 < w) where
  read_line-print_event :
      (form : Form) (e : TraceEvent)
      → IsPrintable w form e
      → read_line w (print_event w (form, e)) ≡ ok e
  read_line-print_event form e h =
      ap (λ o. read_line w (print_line w form (Option.get_or o 0) e)) h.runs
      ∙ cheriot_read_line-print_line w some_bits form h.instruction e h.typed h.runs h.trapped
          h.in_form h.metadata h.mnemonic h.args

  read_trace-events :
      (es : List (Form × TraceEvent))
      → AllPrintable w es
      → read_trace w (map (print_event w) es) ≡ ok (map (λ p. p.1) es)
  unfolding read_trace
  read_trace-events [] h = refl
  read_trace-events ((form, e) ∷ es) h =
      rw
        (
          starts_with-printed e.time _,
          read_line-print_event form e h.0,
          read_trace-events es h.1,
          read_trace,
        )
        refl

  -- A file that has a header and then a line for each of some events is read as exactly these
  -- events, in their order. Each line has a form of its own: a store is written with its digits after
  -- any number of `?` or, if it is twice as wide as a register, as a capability with its tag, and
  -- metadata without white space may follow the value of a register. Each event is a trap exactly if
  -- its mnemonic says so, its numbers are in the range of their types, and its mnemonic and arguments
  -- have no tab.
  pub cheriot_read_trace-print_event :
      (header : Text) (es : List (Form × TraceEvent))
      → starts_with (codes "Time") header ≡ true
      → AllPrintable w es
      → read_trace w (header ∷ map (print_event w) es) ≡ ok (map (λ p. p.1) es)
  unfolding read_trace
  cheriot_read_trace-print_event header es skipped h =
      rw (skipped, read_trace) (read_trace-events es h)
