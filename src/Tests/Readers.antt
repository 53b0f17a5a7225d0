-- ===== src/Tests/Readers.antt =====
-- The readers of traces at lines of both formats.
use riscv_trace_debugger.Prelude.{
  arith, true, ◌≡◌, refl, false, none, some, List, [], ◌∷◌, ◌++◌, ok, err,
}
use riscv_trace_debugger.Fallible.{Ensures}
use riscv_trace_debugger.Str.{
  codes, strip_prefix, starts_with, trim, split, split_once, split_ascii_whitespace, from_str_radix,
  decimal, is_ascii_whitespace,
}
use riscv_trace_debugger.Str.Utf8.{from_utf8}
use riscv_trace_debugger.Trace.{Text, TraceEvent, u16, u32, u64}
use riscv_trace_debugger.Trace.Typed.{IsTyped, AllTyped}
use riscv_trace_debugger.IbexTrace
use riscv_trace_debugger.IbexTrace.{Opcodes}
use riscv_trace_debugger.IbexTrace.Valid.{ibex_trace-AllTyped}
use riscv_trace_debugger.IbexTrace.Traces.{IsPrintable, print_event, ibex_read_trace-print_event}
use riscv_trace_debugger.CheriotIbexTrace.Traces
use riscv_trace_debugger.CheriotIbexTrace.Print.{StoreForm}
use riscv_trace_debugger.CheriotIbexTrace.Parts.{Form}
use riscv_trace_debugger.CheriotIbexTrace.RoundTrip.{print_line}
use riscv_trace_debugger.Str.Display.{digits}
use riscv_trace_debugger.Str.Display.Read.{printed}
use riscv_trace_debugger.CheriotIbexTrace
use riscv_trace_debugger.CheriotIbexTrace.Valid.{cheriot_ibex_trace-AllTyped}

-- The masks and matches of the instruction set.
abbrev pub ops : Opcodes
ops = record {
  lb = (0x707f, 0x3);
  lh = (0x707f, 0x1003);
  lw = (0x707f, 0x2003);
  sb = (0x707f, 0x23);
  sh = (0x707f, 0x1023);
  sw = (0x707f, 0x2023);
  c_lw = (0xe003, 0x4000);
  c_sw = (0xe003, 0xc000);
  c_lwsp = (0xe003, 0x4002);
  c_swsp = (0xe003, 0xc002);
}

abbrev tabbed : List Text → Text
tabbed [] = []
tabbed (part ∷ []) = part
tabbed (part ∷ parts) = part ++ 9 ∷ tabbed parts

abbrev pub lines : List Text
lines =
    tabbed (codes "Time" ∷ codes "Cycle" ∷ codes "PC" ∷ [])
    ∷ tabbed (
        codes " 10"
        ∷ codes "1"
        ∷ codes "00000004"
        ∷ codes "00112023"
        ∷ codes "sw"
        ∷ codes "x1,0(x2)"
        ∷ codes "x1:0x00000007 store:0x000000Ff PA:0x100 x12=0x2a"
        ∷ [])
    ∷ []

abbrev pub event : TraceEvent
event = record {
  time = 10;
  cycle = 1;
  pc = 4;
  trap = false;
  instruction = some 0x112023;
  assembly_mnemonic = codes "sw";
  assembly_args = codes "x1,0(x2)";
  xwrite = some (record { index = 12; value = 42; prev_value = none });
  store = some (record { phys_addr = 0x100; value = u32 0xff; prev_value = none });
}

pub ibex_reads : IbexTrace.read_trace 32 ops lines ≡ ok (event ∷ [])
unfolding IbexTrace.read_trace IbexTrace.instruction_access_width split trim starts_with
    strip_prefix split_ascii_whitespace from_str_radix decimal
ibex_reads = refl

ibex_trace-AllTyped_example : Ensures (AllTyped 32) (IbexTrace.read_trace 32 ops lines)
ibex_trace-AllTyped_example = ibex_trace-AllTyped 32 ops lines

event-IsTyped : IsTyped 32 event
event-IsTyped = record {
  time = omega arith;
  cycle = omega arith;
  pc = omega arith;
  instruction = omega arith;
  xwrite = (omega arith, omega arith, omega arith, refl);
  store = (omega arith, omega arith, refl);
}

event-IsPrintable : IsPrintable 32 ops event
unfolding IbexTrace.instruction_access_width
event-IsPrintable = record {
  typed = event-IsTyped;
  no_trap = refl;
  instruction = 0x112023;
  runs = refl;
  at_width = refl;
  mnemonic = (refl, (refl, tt));
  args = (refl, (refl, (refl, (refl, (refl, (refl, (refl, (refl, tt))))))));
}

header-skipped : starts_with (codes "Time") (codes "Time Cycle") ≡ true
unfolding starts_with
header-skipped = refl

ibex_read_trace-print_event_example :
    IbexTrace.read_trace 32 ops
      (codes "Time Cycle" ∷ print_event 32 event ∷ print_event 32 event ∷ [])
    ≡ ok (event ∷ event ∷ [])
ibex_read_trace-print_event_example =
    ibex_read_trace-print_event 32 (omega arith) ops (codes "Time Cycle") (event ∷ event ∷ [])
      header-skipped (event-IsPrintable, (event-IsPrintable, tt))

two_stores :
    IbexTrace.read_accesses 32 (some (codes "store:0x1 PA:0x1 store:0x1"))
    ≡ err IbexTrace.multiple_stores
unfolding IbexTrace.read_accesses strip_prefix split_ascii_whitespace from_str_radix decimal
two_stores = refl

-- A capability and a half word.
capability :
    CheriotIbexTrace.read_store_val 32 (codes "0x00000001+0x100000002") ≡ ok (u64 0x200000001)
unfolding CheriotIbexTrace.read_store_val split_once strip_prefix from_str_radix
capability = refl

half_word : CheriotIbexTrace.read_store_val 32 (codes "0x????1234") ≡ ok (u16 0x1234)
unfolding CheriotIbexTrace.read_store_val split_once strip_prefix from_str_radix
half_word = refl

cheriot_lines : List Text
cheriot_lines =
    tabbed (
      codes "20"
      ∷ codes "2"
      ∷ codes "00000008"
      ∷ codes "1"
      ∷ codes "-->"
      ∷ codes ""
      ∷ codes "x1=0x7+0x1 store:0x12 PA:0x10"
      ∷ [])
    ∷ []

cheriot_ibex_trace-AllTyped_example :
    Ensures (AllTyped 32) (CheriotIbexTrace.read_trace 32 cheriot_lines)
cheriot_ibex_trace-AllTyped_example = cheriot_ibex_trace-AllTyped 32 cheriot_lines

utf8 :
    from_utf8 (b'a' ∷ 0xc3 ∷ 0xa9 ∷ 0xf0 ∷ 0x9f ∷ 0x98 ∷ 0x80 ∷ [])
    ≡ some (b'a' ∷ 0xe9 ∷ 0x1f600 ∷ [])
unfolding from_utf8
utf8 = refl

surrogate : from_utf8 (0xed ∷ 0xa0 ∷ 0x80 ∷ []) ≡ none
unfolding from_utf8
surrogate = refl

-- A capability is stored, and a register is written with its metadata.
abbrev capability_event : TraceEvent
capability_event = record {
  time = 20;
  cycle = 2;
  pc = 8;
  trap = false;
  instruction = some 1;
  assembly_mnemonic = codes "csc";
  assembly_args = [];
  xwrite = some (record { index = 31; value = 7; prev_value = none });
  store = some (record { phys_addr = 0x10; value = u64 0x200000001; prev_value = none });
}

capability_event-IsTyped : IsTyped 32 capability_event
capability_event-IsTyped = record {
  time = omega arith;
  cycle = omega arith;
  pc = omega arith;
  instruction = omega arith;
  xwrite = (omega arith, omega arith, omega arith, refl);
  store = (omega arith, omega arith, refl);
}

abbrev tagged : Form
tagged = record { store = StoreForm.capability true; metadata = some (codes "0x1") }

abbrev marked : Form
marked = record { store = StoreForm.plain 3; metadata = none }

capability_event-IsPrintable : CheriotIbexTrace.Traces.IsPrintable 32 tagged capability_event
unfolding is_ascii_whitespace starts_with
capability_event-IsPrintable = record {
  typed = capability_event-IsTyped;
  trapped = refl;
  instruction = 1;
  runs = refl;
  in_form = refl;
  metadata = (refl, (refl, (refl, tt)));
  mnemonic = (refl, (refl, (refl, tt)));
  args = tt;
}

marked_event-IsPrintable : CheriotIbexTrace.Traces.IsPrintable 32 marked capability_event
unfolding starts_with
marked_event-IsPrintable = record {
  typed = capability_event-IsTyped;
  trapped = refl;
  instruction = 1;
  runs = refl;
  in_form = tt;
  metadata = tt;
  mnemonic = (refl, (refl, (refl, tt)));
  args = tt;
}

cheriot_read_trace-print_event_example :
    CheriotIbexTrace.read_trace 32 (
      codes "Time Cycle"
      ∷ CheriotIbexTrace.Traces.print_event 32 (tagged, capability_event)
      ∷ CheriotIbexTrace.Traces.print_event 32 (marked, capability_event)
      ∷ [])
    ≡ ok (capability_event ∷ capability_event ∷ [])
cheriot_read_trace-print_event_example =
    CheriotIbexTrace.Traces.cheriot_read_trace-print_event 32 (omega arith) (codes "Time Cycle")
      ((tagged, capability_event) ∷ (marked, capability_event) ∷ []) header-skipped
      (capability_event-IsPrintable, (marked_event-IsPrintable, tt))

printed_line :
    print_line 32 tagged 1 capability_event
    ≡ tabbed (
        codes "20"
        ∷ codes "2"
        ∷ codes "00000008"
        ∷ codes "00000001"
        ∷ codes "csc"
        ∷ []
        ∷ codes "x31=0x00000007+0x1 store:0x00000001+0x100000002 PA:0x00000010"
        ∷ [])
unfolding printed digits decimal
printed_line = refl
