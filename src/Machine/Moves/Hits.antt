-- ===== src/Machine/Moves/Hits.antt =====
-- What a step adds to the frames of a tracepoint.
use riscv_trace_debugger.Prelude.{
  ℕ, ◌+◌, ◌-◌, ◌≡◌, refl, subst, ap, ◌∙◌, ◌&&◌, Option, none, some, List, [], ◌∷◌, ◌++◌, ◌==◌, leb,
  if◌then◌else◌, length, get_elem?, Bool-cases, ==_iff, inl, inr, arith, ◌>>=◌,
}
use riscv_trace_debugger.BTreeMap.{BTreeMap, get}
use riscv_trace_debugger.BTreeMap.Sorted.{IsSorted, get-IsAbove}
use riscv_trace_debugger.Trace.{TraceEvent}
use riscv_trace_debugger.Cpu
use riscv_trace_debugger.Cpu.{Cpu}
use riscv_trace_debugger.Cpu.Replay.{State}
use riscv_trace_debugger.Memory.{simple_memory}
use riscv_trace_debugger.MemSniffer.{Access, mem_sniffer}
use riscv_trace_debugger.Machine.{
  Machine, Definition, TraceFrame, StopReason, ExecDir, forwards, backwards,
}
use riscv_trace_debugger.Machine.Step.{
  hit_frames, collect_frames, check_stop, step_forwards, step_backwards, step_towards, step,
  sniffer, event_before,
}
use riscv_trace_debugger.Machine.Consistent.{IsStart, Consistent}
use riscv_trace_debugger.Machine.Moves.Step.{StepsTo, step-StepsTo}
use riscv_trace_debugger.Gdb.Tracepoints.{frames_of, tracepoint_status}
use riscv_trace_debugger.Gdb.Tracepoints.Ordered.{InOrder}

-- Whether a tracepoint, if there is one, is hit at `pc`, as a number.
abbrev hits_at : ℕ → Option Definition → ℕ
hits_at pc none = 0
hits_at pc (some definition) = if definition.0.enabled && (definition.0.addr == pc) then 1 else 0

-- The hits of a tracepoint that a step has to count: while the experiment runs, one if the tracepoint
-- is there, is enabled and stands where the step begins.
abbrev pub hits : Machine → ℕ → ℕ
hits m tp = if m.tracing then hits_at m.cpu.pc (get m.tracepoints tp) else 0

length-frames_of-append :
    (tp : ℕ) (a b : List TraceFrame)
    → length (frames_of tp (a ++ b)) ≡ length (frames_of tp a) + length (frames_of tp b)
unfolding frames_of
length-frames_of-append tp [] b = omega arith
length-frames_of-append tp (frame ∷ a) b = ground (arith, length-frames_of-append tp a b)

length-frames_of-hit_frames :
    (tps : BTreeMap Definition) (cpu : Cpu) (tp : ℕ)
    → IsSorted tps
    → length (frames_of tp (hit_frames tps cpu)) ≡ hits_at cpu.pc (get tps tp)
unfolding frames_of hit_frames get
length-frames_of-hit_frames [] cpu tp sorted = refl
length-frames_of-hit_frames ((j, definition) ∷ tps) cpu tp sorted =
    let rest = length-frames_of-hit_frames tps cpu tp sorted.1 in
    elim (Bool-cases (j == tp)) [
      | inl e ↦
          let same : j ≡ tp = (==_iff j tp).0 e in
          let gone = get-IsAbove tps j tp sorted.0 (omega (arith, same)) in
          ground (arith, rest, gone)
      | inr e ↦ ground (arith, rest)
    ]

status-collect_frames :
    (m : Machine) (tp : ℕ)
    → InOrder m
    → tracepoint_status (collect_frames m) tp ≡ tracepoint_status m tp + hits m tp
unfolding collect_frames tracepoint_status
status-collect_frames m tp sorted = elim (Bool-cases m.tracing) [
  | inl e ↦
      rw (e, length-frames_of-append tp m.traceframes (hit_frames m.tracepoints m.cpu))
        (ap (λ n. tracepoint_status m tp + n)
          (length-frames_of-hit_frames m.tracepoints m.cpu tp sorted))
  | inr e ↦ rw e (omega arith)
]

-- The part of the machine that the tracepoints are.
abbrev tracing_of : Machine → BTreeMap Definition × List TraceFrame
tracing_of m = (m.tracepoints, m.traceframes)

abbrev Leaves :
    BTreeMap Definition × List TraceFrame → Option (Machine × Option StopReason) → Type 0
Leaves k none = Unit
Leaves k (some (m, event)) = tracing_of m ≡ k

Leaves-bind {ℓ} :
    {A : Type ℓ} (k : BTreeMap Definition × List TraceFrame) (o : Option A)
    (f : A → Option (Machine × Option StopReason))
    → ((a : A) → Leaves k (f a))
    → Leaves k (o >>= f)
Leaves-bind k none f h = tt
Leaves-bind k (some a) f h = h a

check_stop-Leaves :
    (captured : Option Access) (m : Machine) → Leaves (tracing_of m) (check_stop captured m)
unfolding check_stop
check_stop-Leaves none m = refl
check_stop-Leaves (some access) m = tt

step_forwards-Leaves : (m : Machine) → Leaves (tracing_of m) (step_forwards m)
unfolding step_forwards
step_forwards-Leaves m = elim (Bool-cases (leb (length m.trace) m.trace_index)) [
  | inl e ↦ rw (e, step_forwards) refl
  | inr e ↦
      rw (e, step_forwards)
        (Leaves-bind (tracing_of m) (get_elem? m.trace m.trace_index) _ (λ event.
          Leaves-bind (tracing_of m) (Cpu.step (mem_sniffer simple_memory) m.cpu (sniffer m) event)
            _ (λ did. check_stop-Leaves did.1.captured _)))
]

step_backwards-Leaves : (m : Machine) → Leaves (tracing_of m) (step_backwards m)
unfolding step_backwards
step_backwards-Leaves m = elim (Bool-cases (m.trace_index == 0)) [
  | inl e ↦ rw (e, step_backwards) refl
  | inr e ↦
      rw (e, step_backwards)
        (Leaves-bind (tracing_of m) (get_elem? m.trace (m.trace_index - 1)) _ (λ event.
          Leaves-bind (tracing_of m)
            (Cpu.step_undo (mem_sniffer simple_memory) m.cpu (sniffer m) event
              (event_before m.trace (m.trace_index - 1)))
            _ (λ did. check_stop-Leaves did.1.captured _)))
]

step_towards-Leaves : (dir : ExecDir) (m : Machine) → Leaves (tracing_of m) (step_towards dir m)
unfolding step_towards
step_towards-Leaves forwards m = step_forwards-Leaves m
step_towards-Leaves backwards m = step_backwards-Leaves m

collect_frames-tracepoints : (m : Machine) → (collect_frames m).tracepoints ≡ m.tracepoints
unfolding collect_frames
collect_frames-tracepoints m = elim (Bool-cases m.tracing) [ inl e ↦ rw e refl | inr e ↦ rw e refl ]

-- A step, in either direction, from a machine that agrees with the replay of a valid trace counts for
-- each tracepoint one hit more, if it is enabled and stands where the step begins and the experiment
-- runs, and none otherwise; it changes no tracepoint. The tracepoints are in the order of their
-- numbers.
pub tracepoint_status-step :
    {s : State} {trace : List TraceEvent} (start : IsStart s trace) (m : Machine)
    → Consistent s trace m
    → InOrder m
    → (did : StepsTo s trace m.exec_dir m) × (did.m'.tracepoints ≡ m.tracepoints)
      × ((tp : ℕ) → tracepoint_status did.m' tp ≡ tracepoint_status m tp + hits m tp)
unfolding step tracepoint_status
tracepoint_status-step start m c sorted =
    let did = step-StepsTo start m c in
    let left : tracing_of did.m' ≡ tracing_of (collect_frames m) =
      subst (Leaves (tracing_of (collect_frames m))) did.returns
        (step_towards-Leaves (collect_frames m).exec_dir (collect_frames m)) in
    (
      did,
      ap (λ k. k.0) left ∙ collect_frames-tracepoints m,
      λ tp. ap (λ k. length (frames_of tp k.1)) left ∙ status-collect_frames m tp sorted,
    )
