-- ===== src/Gdb/Tracepoints/Enumerate.antt =====
-- What an enumeration of the tracepoints comes by.
use riscv_trace_debugger.Prelude.{ℕ, ◌≡◌, ◌≢◌, some, List, ◌∷◌, arith}
use riscv_trace_debugger.BTreeMap
use riscv_trace_debugger.BTreeMap.{range_from}
use riscv_trace_debugger.Machine.{Machine, NewTracepoint, SourceTracepoint, TracepointAction}
use riscv_trace_debugger.Gdb.Tracepoints.{
  EnumerateStep, source, action, step_to_next_tracepoint, tracepoint_enumerate_start,
  tracepoint_enumerate_source,
}

step_to_next-ne-action : (m : Machine) (tp : ℕ) → step_to_next_tracepoint m tp ≢ action
unfolding step_to_next_tracepoint
step_to_next-ne-action m tp h = ground arith

module _ (m : Machine) (tp : ℕ) (ctp : NewTracepoint) (src : SourceTracepoint)
    (sources : List SourceTracepoint) (actions : List TracepointAction)
    (found : BTreeMap.get m.tracepoints tp ≡ some (ctp, src ∷ sources, actions)) where
  -- The enumeration of a tracepoint that has a source begins with its sources, and after any of
  -- them goes on to a source or to another tracepoint or ends: it never comes to the actions.
  pub enumeration_skips_actions :
      (tracepoint_enumerate_start m (some tp) ≡ some (some ctp, source))
      × ((step : ℕ) (reported : SourceTracepoint) (after : EnumerateStep)
          → tracepoint_enumerate_source m tp step ≡ some (reported, after)
          → after ≢ action)
  unfolding tracepoint_enumerate_start tracepoint_enumerate_source
  enumeration_skips_actions =
      (rw found, λ step reported after h e. ground (arith, step_to_next-ne-action m tp))
