-- ===== src/Gdb/Tracepoints.antt =====
-- gdb/tracepoints.rs. `none` is a panic: an index of a missing tracepoint or item, or an `unwrap`.
-- A callback is told of the items that are listed in the result.
pub mod Enumerate
pub mod Frames
pub mod Ordered
use mathlib.Core.Option
use riscv_trace_debugger.Prelude.{
  ℕ, suc, ◌+◌, Bool, true, false, Option, none, some, List, [], ◌∷◌, ◌++◌, ◌==◌, ◌>>=◌,
  if◌then◌else◌, length, get_elem?, drop, Result, ok, err,
}
use riscv_trace_debugger.BTreeMap
use riscv_trace_debugger.BTreeMap.{range_from}
use riscv_trace_debugger.Machine.{
  Machine, Definition, NewTracepoint, SourceTracepoint, TracepointAction, registers, other_action,
  TraceFrame,
}

-- gdbstub: the errors of a `TargetResult`.
pub data TargetError : Type 0 where
  non_fatal fatal : TargetError

-- gdbstub: `TracepointEnumerateStep`.
pub data EnumerateStep : Type 0 where
  source action done : EnumerateStep
  next : ℕ → ℕ → EnumerateStep

-- gdbstub: `FrameRequest`; the program refuses all but the first two.
pub data FrameRequest : Type 0 where
  select hit : ℕ → FrameRequest
  other_request : FrameRequest

-- gdbstub: `FrameDescription`.
pub data FrameDescription : Type 0 where
  frame_number hit_of : ℕ → FrameDescription

abbrev pub Handled : Type 0 → Type 0
Handled A = Machine × Result TargetError A

-- `range(tp..).nth(1)`
unfoldable pub step_to_next_tracepoint : Machine → ℕ → EnumerateStep
step_to_next_tracepoint m tp = elim (get_elem? (range_from m.tracepoints tp) 1) [
  | some (tp', definition) ↦ next tp' definition.0.addr
  | none ↦ done
]

unfoldable pub tracepoints_init : Machine → Handled (Unit {0})
tracepoints_init m = (record m { tracepoints = []; traceframes = [] }, ok tt)

unfoldable pub tracepoint_create_begin : Machine → NewTracepoint → Handled (Unit {0})
tracepoint_create_begin m tp =
    (record m { tracepoints = BTreeMap.insert m.tracepoints tp.number (tp, [], []) }, ok tt)

unfoldable pub tracepoint_create_continue : Machine → ℕ → TracepointAction → Handled (Unit {0})
tracepoint_create_continue m tp other_action = (m, err non_fatal)
tracepoint_create_continue m tp (registers mask) = elim (BTreeMap.get m.tracepoints tp) [
  | none ↦ (m, err fatal)
  | some (ctp, sources, actions) ↦ (
    record m {
      tracepoints = BTreeMap.insert m.tracepoints tp (ctp, sources, actions ++ registers mask ∷ []);
    },
    ok tt,
  )
]

unfoldable pub tracepoint_create_complete : Machine → ℕ → Handled (Unit {0})
tracepoint_create_complete m tp = (m, ok tt)

-- The frames of one tracepoint.
unfoldable pub frames_of : ℕ → List TraceFrame → List TraceFrame
frames_of tp [] = []
frames_of tp (frame ∷ frames) =
    if frame.number == tp then frame ∷ frames_of tp frames else frames_of tp frames

-- The hit count; `bytes_used` is always 0.
unfoldable pub tracepoint_status : Machine → ℕ → ℕ
unfolding frames_of
tracepoint_status m tp = length (frames_of tp m.traceframes)

abbrev is_empty {ℓ} : {A : Type ℓ} → List A → Bool
is_empty [] = true
is_empty (x ∷ xs) = false

unfoldable pub start_at : Machine → ℕ → Option (NewTracepoint × EnumerateStep)
start_at m tp = do
  definition ← BTreeMap.get m.tracepoints tp
  some (
    definition.0,
    if is_empty definition.1 then if is_empty definition.2 then done else action else source,
  )

-- The tracepoint that `f` is told of, if there is one, and the next step.
unfoldable pub tracepoint_enumerate_start :
    Machine → Option ℕ → Option (Option NewTracepoint × EnumerateStep)
unfolding start_at
tracepoint_enumerate_start m (some tp) = Option.map (λ r. (some r.0, r.1)) (start_at m tp)
tracepoint_enumerate_start m none = elim m.tracepoints [
  | [] ↦ some (none, done)
  | (tp, definition) ∷ rest ↦ Option.map (λ r. (some r.0, r.1)) (start_at m tp)
]

unfoldable pub tracepoint_enumerate_action :
    Machine → ℕ → ℕ → Option (TracepointAction × EnumerateStep)
unfolding step_to_next_tracepoint
tracepoint_enumerate_action m tp step = do
  definition ← BTreeMap.get m.tracepoints tp
  reported ← get_elem? definition.2 step
  some (
    reported,
    elim (get_elem? definition.2 (step + 1)) [
      | some _ ↦ action
      | none ↦ if is_empty definition.1 then step_to_next_tracepoint m tp else source
    ],
  )

unfoldable pub tracepoint_enumerate_source :
    Machine → ℕ → ℕ → Option (SourceTracepoint × EnumerateStep)
unfolding step_to_next_tracepoint
tracepoint_enumerate_source m tp step = do
  definition ← BTreeMap.get m.tracepoints tp
  reported ← get_elem? definition.1 step
  some (
    reported,
    elim (get_elem? definition.1 (step + 1)) [
      | some _ ↦ source
      | none ↦ step_to_next_tracepoint m tp
    ],
  )

unfoldable pub tracepoint_attach_source : Machine → SourceTracepoint → Option (Handled (Unit {0}))
tracepoint_attach_source m src = do
  definition ← BTreeMap.get m.tracepoints src.number
  some (
    record m {
      tracepoints =
          BTreeMap.insert m.tracepoints src.number
            (definition.0, definition.1 ++ src ∷ [], definition.2);
    },
    ok tt,
  )

-- `.iter().enumerate().filter(..).next()`, counted from `n`.
unfoldable pub first_hit : ℕ → ℕ → List TraceFrame → Option (ℕ × TraceFrame)
first_hit tp n [] = none
first_hit tp n (frame ∷ frames) =
    if frame.number == tp then some (n, frame) else first_hit tp (n + 1) frames

unfoldable pub find_frame : Machine → FrameRequest → Option (Option (ℕ × TraceFrame))
unfolding first_hit
find_frame m (select n) = some (Option.map (λ frame. (n, frame)) (get_elem? m.traceframes n))
find_frame m (hit tp) =
    let start : ℕ = Option.get_or (Option.map suc m.selected_frame) 0 in
    some (first_hit tp start (drop start m.traceframes))
find_frame m other_request = none

-- The frame that was found is selected and described; if there is none, none is selected.
unfoldable pub select_found : Machine → Option (ℕ × TraceFrame) → Machine × List FrameDescription
select_found m (some (n, frame)) =
    (record m { selected_frame = some n }, frame_number n ∷ hit_of frame.number ∷ [])
select_found m none = (record m { selected_frame = none }, [])

unfoldable pub select_frame : Machine → FrameRequest → Handled (List FrameDescription)
unfolding find_frame select_found
select_frame m request = elim (find_frame m request) [
  | none ↦ (m, err non_fatal)
  | some found ↦ let (m', report) = select_found m found in (m', ok report)
]

unfoldable pub trace_experiment_start : Machine → Handled (Unit {0})
trace_experiment_start m = (record m { tracing = true }, ok tt)

unfoldable pub trace_experiment_stop : Machine → Handled (Unit {0})
trace_experiment_stop m = (record m { tracing = false }, ok tt)

-- Whether the experiment runs, and the number of its frames.
unfoldable pub trace_experiment_status : Machine → Bool
trace_experiment_status m = m.tracing

unfoldable pub trace_experiment_info : Machine → ℕ
trace_experiment_info m = length m.traceframes

-- There is no real trace buffer: its configuration is ignored, and no data is reported.
unfoldable pub trace_buffer_configure : Machine → Handled (Unit {0})
trace_buffer_configure m = (m, ok tt)

unfoldable pub trace_buffer_request : Machine → ℕ → ℕ → Handled (List (List ℕ))
trace_buffer_request m offset len = (m, ok [])
