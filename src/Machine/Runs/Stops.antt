-- ===== src/Machine/Runs/Stops.antt =====
-- Where the loops of `run` stop, and that they do.
use riscv_trace_debugger.Prelude.{
  ℕ, ◌-◌, ◌≤◌, ◌<◌, ◌≡◌, ◌≢◌, ◌⊎◌, sym, subst, true, false, Option, none, some, List, arith, length,
  inl, inr,
}
use native.Mathlib.Decide.{ℕ_discrete}
use riscv_trace_debugger.MemSniffer.{contains}
use riscv_trace_debugger.Trace.{TraceEvent}
use riscv_trace_debugger.Cpu.Replay.{State, replay}
use riscv_trace_debugger.Machine.State.{
  Machine, ExecDir, forwards, backwards, StopReason, done_step, sw_break,
}
use riscv_trace_debugger.Machine.Run.{Poll, ready, dropped, panicked, out_of_fuel, leaves}
use riscv_trace_debugger.Machine.Consistent.{Consistent}
use riscv_trace_debugger.Machine.Moves.Step.{next_index, at_end, end_event, SameControl}

-- `j` lies on the way from `i` to `k`, the ends not counted.
abbrev pub Between : ExecDir → ℕ → ℕ → ℕ → Type 0
Between forwards i j k = (i < j) × (j < k)
Between backwards i j k = (k < j) × (j < i)

-- `k` is `i` or comes after it on the way.
abbrev pub Onward : ExecDir → ℕ → ℕ → Type 0
Onward forwards i k = i ≤ k
Onward backwards i k = k ≤ i

-- What is left of the way at index `i` of a trace of length `n`.
abbrev pub left : ExecDir → ℕ → ℕ → ℕ
left forwards n i = n - i
left backwards n i = i

-- The range of a range step, its end not in it; without one, everything is inside.
abbrev pub InRange : Option (ℕ × ℕ) → ℕ → Type 0
InRange none pc = Unit
InRange (some (start, end)) pc = (start ≤ pc) × (pc < end)

pub InRange-leaves : (range : Option (ℕ × ℕ)) (pc : ℕ) → leaves range pc ≡ false → InRange range pc
unfolding leaves
InRange-leaves none pc h = tt
InRange-leaves (some (start, end)) pc h = ground arith

pub leaves-ne-InRange :
    (range : Option (ℕ × ℕ)) (pc : ℕ) → leaves range pc ≡ true → ¬ InRange range pc
unfolding leaves
leaves-ne-InRange none pc h inside = cc
leaves-ne-InRange (some (start, end)) pc h (low, high) = ground arith

module _ (s : State) (trace : List TraceEvent) where
  abbrev pub pc_at : ℕ → ℕ
  pc_at j = (replay s trace j).cpu.pc

  module _ (range : Option (ℕ × ℕ)) (breakpoints : List ℕ) where
    -- Nothing at index `j` stops a run.
    abbrev pub Passes : ℕ → Type 0
    Passes j = (contains breakpoints (pc_at j) ≡ false) × InRange range (pc_at j)

    -- A run from index `i` stops at index `k` with `event`: the first place on its way that has a
    -- breakpoint, or lies outside of the range, or the end of the trace.
    pub record StopsAt (dir : ExecDir) (i k : ℕ) (event : StopReason) : Type 0 where
      pub onward : Onward dir i k
      pub on_the_way : (j : ℕ) → Between dir i j k → Passes j
      pub reason :
          ((event ≡ sw_break) × (i ≢ k) × (contains breakpoints (pc_at k) ≡ true))
          ⊎ ((event ≡ end_event dir) × (at_end dir (length trace) k ≡ true) × (i ≢ k → Passes k))
          ⊎ ((event ≡ done_step)
              × (i ≢ k)
              × (contains breakpoints (pc_at k) ≡ false)
              × (¬ InRange range (pc_at k)))

  -- A call of `run` on `m` returned with a stop, or was dropped on its way.
  abbrev pub Settles : Option (ℕ × ℕ) → Machine → Poll → Type 0
  Settles range m (ready m' event) =
      Consistent s trace m'
      × SameControl m m'
      × StopsAt range m.breakpoints m.exec_dir m.trace_index m'.trace_index event
  Settles range m (dropped m') = Consistent s trace m' × SameControl m m'
  Settles range m panicked = ⊥
  Settles range m out_of_fuel = ⊥

Onward-next :
    (dir : ExecDir) (n i k : ℕ)
    → at_end dir n i ≡ false
    → Onward dir (next_index dir n i) k
    → Onward dir i k × (i ≢ k)
Onward-next forwards n i k h on = ground arith
Onward-next backwards n i k h on = ground arith

Between-next :
    (dir : ExecDir) (n i j k : ℕ)
    → at_end dir n i ≡ false
    → Between dir i j k
    → (j ≡ next_index dir n i) ⊎ Between dir (next_index dir n i) j k
Between-next forwards n i j k h b = ground arith
Between-next backwards n i j k h b = ground arith

module _ {s : State} {trace : List TraceEvent} {range : Option (ℕ × ℕ)} {breakpoints : List ℕ} where
  -- One step that nothing stops, and a run from there.
  pub StopsAt-next :
      (dir : ExecDir) (i k : ℕ) {event : StopReason}
      → at_end dir (length trace) i ≡ false
      → Passes s trace range breakpoints (next_index dir (length trace) i)
      → StopsAt s trace range breakpoints dir (next_index dir (length trace) i) k event
      → StopsAt s trace range breakpoints dir i k event
  StopsAt-next dir i k h passes stops = record {
    onward = (Onward-next dir (length trace) i k h stops.onward).0;
    on_the_way = λ j b. elim (Between-next dir (length trace) i j k h b) [
      | inl here ↦ subst (Passes s trace range breakpoints) (sym here) passes
      | inr later ↦ stops.on_the_way j later
    ];
    reason = elim stops.reason [
      | inl (e, ne, hit) ↦ inl (e, (Onward-next dir (length trace) i k h stops.onward).1, hit)
      | inr (inl (e, over, passed)) ↦ inr (
          inl (
            e,
            over,
            λ _. elim (ℕ_discrete (next_index dir (length trace) i) k) [
              | yes same ↦ subst (Passes s trace range breakpoints) same passes
              | no ne ↦ passed ne
            ],
          ))
      | inr (inr (e, ne, miss, out)) ↦
          inr (inr (e, (Onward-next dir (length trace) i k h stops.onward).1, miss, out))
    ];
  }
