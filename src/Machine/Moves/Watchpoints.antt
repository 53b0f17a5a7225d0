-- ===== src/Machine/Moves/Watchpoints.antt =====
-- What watchpoints do to `Machine::step`: `step` does not give them to the sniffer.
use mathlib.Core.Option
use riscv_trace_debugger.Prelude.{
  ℕ, ◌-◌, ◌≡◌, refl, ap, ◌∙◌, Option, none, some, List, leb, length, ◌==◌, get_elem?, Bool-cases,
  Option-cases, inl, inr,
}
use riscv_trace_debugger.Memory.{simple_memory}
use riscv_trace_debugger.MemSniffer.{mem_sniffer, Access}
use riscv_trace_debugger.Cpu
use riscv_trace_debugger.Machine.State.{Machine, StopReason, ExecDir, forwards, backwards}
use riscv_trace_debugger.Machine.Step.{
  step, step_towards, step_forwards, step_backwards, check_stop, collect_frames, sniffer,
  event_before,
}

abbrev pub watch : List ℕ → Machine → Machine
watch ws m = record m { watchpoints = ws }

abbrev pub also_watch :
    List ℕ → Option (Machine × Option StopReason) → Option (Machine × Option StopReason)
also_watch ws = Option.map (λ r. (watch ws r.0, r.1))

check_stop-watch :
    (ws : List ℕ) (hit : Option Access) (m : Machine)
    → check_stop hit (watch ws m) ≡ also_watch ws (check_stop hit m)
unfolding check_stop
check_stop-watch ws (some access) m = refl
check_stop-watch ws none m = refl

step_forwards-watch :
    (ws : List ℕ) (m : Machine) → step_forwards (watch ws m) ≡ also_watch ws (step_forwards m)
unfolding step_forwards
step_forwards-watch ws m = elim (Bool-cases (leb (length m.trace) m.trace_index)) [
  | inl over ↦ rw over refl
  | inr inside ↦ elim (Option-cases (get_elem? m.trace m.trace_index)) [
    | inl e ↦ rw (inside, e) refl
    | inr (event, e) ↦
        elim (Option-cases (Cpu.step (mem_sniffer simple_memory) m.cpu (sniffer m) event)) [
          | inl f ↦ rw (inside, e, f) refl
          | inr ((cpu, s, event'), f) ↦ rw (inside, e, f) (check_stop-watch ws s.captured _)
        ]
  ]
]

step_backwards-watch :
    (ws : List ℕ) (m : Machine) → step_backwards (watch ws m) ≡ also_watch ws (step_backwards m)
unfolding step_backwards
step_backwards-watch ws m = elim (Bool-cases (m.trace_index == 0)) [
  | inl over ↦ rw over refl
  | inr inside ↦ elim (Option-cases (get_elem? m.trace (m.trace_index - 1))) [
    | inl e ↦ rw (inside, e) refl
    | inr (event, e) ↦
        elim (Option-cases (
          Cpu.step_undo (mem_sniffer simple_memory) m.cpu (sniffer m) event
            (event_before m.trace (m.trace_index - 1)))) [
              | inl f ↦ rw (inside, e, f) refl
              | inr ((cpu, s), f) ↦ rw (inside, e, f) (check_stop-watch ws s.captured _)
            ]
  ]
]

step_towards-watch :
    (ws : List ℕ) (dir : ExecDir) (m : Machine)
    → step_towards dir (watch ws m) ≡ also_watch ws (step_towards dir m)
unfolding step_towards
step_towards-watch ws forwards m = step_forwards-watch ws m
step_towards-watch ws backwards m = step_backwards-watch ws m

collect_frames-watch :
    (ws : List ℕ) (m : Machine) → collect_frames (watch ws m) ≡ watch ws (collect_frames m)
unfolding collect_frames
collect_frames-watch ws m = elim (Bool-cases m.tracing) [ inl e ↦ rw e refl | inr e ↦ rw e refl ]

-- Watchpoints have no effect on a step: on a machine with other watchpoints, in either direction,
-- `step` panics exactly if it does without the change, and else makes the same machine but for its
-- watchpoints, and reports the same.
pub step-watch : (ws : List ℕ) (m : Machine) → step (watch ws m) ≡ also_watch ws (step m)
unfolding step
step-watch ws m =
    ap (λ (t : Machine). step_towards t.exec_dir t) (collect_frames-watch ws m)
    ∙ step_towards-watch ws (collect_frames m).exec_dir (collect_frames m)
