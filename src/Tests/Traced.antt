-- ===== src/Tests/Traced.antt =====
-- The theorems on tracepoints and on the accesses of a line.
use riscv_trace_debugger.Prelude.{ℕ, ◌+◌, ◌≡◌, refl, none, some, [], ◌∷◌, true, ok, arith}
use riscv_trace_debugger.Str.{
  codes, strip_prefix, split_once, split_ascii_whitespace, from_str_radix, decimal,
}
use riscv_trace_debugger.Str.Prefixes.{number, has, count, registers}
use riscv_trace_debugger.Trace.{Text, u8}
use riscv_trace_debugger.IbexTrace
use riscv_trace_debugger.IbexTrace.Counted.{ibex_read_accesses-count}
use riscv_trace_debugger.CheriotIbexTrace
use riscv_trace_debugger.CheriotIbexTrace.Counted.{cheriot_ibex_read_accesses-count}
use riscv_trace_debugger.Machine.{Machine, Definition, registers as registers_action, forwards}
use riscv_trace_debugger.Machine.Moves.Step.{StepsTo}
use riscv_trace_debugger.Machine.Moves.Hits.{hits, tracepoint_status-step}
use riscv_trace_debugger.Machine.Consistent.{Consistent}
use riscv_trace_debugger.Gdb.Tracepoints.{hit, select_frame, tracepoint_status}
use riscv_trace_debugger.Gdb.Tracepoints.Frames.{IsFirstFrom, described, select_frame-IsFirstFrom}
use riscv_trace_debugger.Tests.Sample.{
  cpu, machine, sample, start_state, sample-IsStart, machine-Consistent,
}

abbrev at_load : Definition
at_load = (record { number = 2; addr = 4; enabled = true }, [], registers_action [] ∷ [])

abbrev at_store : Definition
at_store = (record { number = 5; addr = 8; enabled = true }, [], [])

-- The experiment runs; tracepoint 2 stands at the first event and was hit once, between two hits of
-- tracepoint 5.
abbrev traced : Machine
traced = record machine {
  tracing = true;
  tracepoints = (2, at_load) ∷ (5, at_store) ∷ [];
  traceframes =
      record { number = 5; snapshot = cpu }
      ∷ record { number = 2; snapshot = cpu }
      ∷ record { number = 5; snapshot = cpu }
      ∷ [];
  selected_frame = some 0;
}

traced-Consistent : Consistent start_state sample traced
traced-Consistent = record {
  same_trace = machine-Consistent.same_trace;
  in_range = machine-Consistent.in_range;
  at_state = machine-Consistent.at_state;
  filled = machine-Consistent.filled;
}

tracepoint_status-step_example :
    (did : StepsTo start_state sample forwards traced) × (did.m'.tracepoints ≡ traced.tracepoints)
    × ((tp : ℕ) → tracepoint_status did.m' tp ≡ tracepoint_status traced tp + hits traced tp)
tracepoint_status-step_example =
    tracepoint_status-step sample-IsStart traced traced-Consistent ((omega arith, tt), (tt, tt))

select_frame-IsFirstFrom_example :
    let out = select_frame traced (hit 5) in
    IsFirstFrom traced.traceframes 5 1 out.0.selected_frame
    × (out.1 ≡ ok (described 5 out.0.selected_frame))
select_frame-IsFirstFrom_example = select_frame-IsFirstFrom traced 5

-- It is the third frame.
next_hit : (select_frame traced (hit 5)).0.selected_frame ≡ some 2
unfolding select_frame
next_hit = refl

abbrev line : Text
line = codes "x1:0x7 store:0xff PA:0x100 x12=0x2a"

abbrev ibex_found : IbexTrace.Accesses
ibex_found = record {
  phys_addr = some 0x100;
  store_val = some 0xff;
  xwrite = some (record { index = 12; value = 42; prev_value = none });
}

ibex_reads_line : IbexTrace.read_accesses 32 (some line) ≡ ok ibex_found
unfolding IbexTrace.read_accesses split_ascii_whitespace strip_prefix from_str_radix decimal
ibex_reads_line = refl

ibex_read_accesses-count_example :
    let parts = split_ascii_whitespace line in
    (number ibex_found.store_val ≡ count (has (codes "store:0x")) parts)
    × (number ibex_found.phys_addr ≡ count (has (codes "PA:0x")) parts)
    × (number ibex_found.xwrite ≡ count (registers (codes "=0x")) parts)
ibex_read_accesses-count_example = ibex_read_accesses-count 32 line ibex_found ibex_reads_line

abbrev cheriot_found : CheriotIbexTrace.Accesses
cheriot_found = record {
  phys_addr = some 0x100;
  store_val = some (u8 0xff);
  xwrite = some (record { index = 12; value = 42; prev_value = none });
}

cheriot_reads_line : CheriotIbexTrace.read_accesses 32 (some line) ≡ ok cheriot_found
unfolding CheriotIbexTrace.read_accesses split_ascii_whitespace split_once strip_prefix
    from_str_radix decimal
cheriot_reads_line = refl

cheriot_ibex_read_accesses-count_example :
    let parts = split_ascii_whitespace line in
    (number cheriot_found.store_val ≡ count (has (codes "store:")) parts)
    × (number cheriot_found.phys_addr ≡ count (has (codes "PA:")) parts)
    × (number cheriot_found.xwrite ≡ count (registers (codes "=")) parts)
cheriot_ibex_read_accesses-count_example =
    cheriot_ibex_read_accesses-count 32 line cheriot_found cheriot_reads_line
