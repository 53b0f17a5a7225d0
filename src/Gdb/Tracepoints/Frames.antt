-- ===== src/Gdb/Tracepoints/Frames.antt =====
-- Which frame a debugger gets that asks for the next hit of a tracepoint.
use mathlib.Core.Option
use riscv_trace_debugger.Prelude.{
  ℕ, zero, suc, ◌+◌, ◌-◌, ◌<◌, ◌≤◌, ◌≡◌, ◌≢◌, refl, sym, ap, ◌∙◌, Option, none, some, List, [], ◌∷◌,
  ◌==◌, drop, Result, ok, arith, Bool-cases, inl, inr, ==_iff,
}
use riscv_trace_debugger.Machine.{Machine, TraceFrame}
use riscv_trace_debugger.Gdb.Tracepoints.{
  TargetError, hit, FrameDescription, frame_number, hit_of, first_hit, find_frame, select_found,
  select_frame,
}

-- The tracepoint of the frame at a place, if there is a frame.
abbrev pub number_at : List TraceFrame → ℕ → Option ℕ
number_at [] i = none
number_at (frame ∷ frames) zero = some frame.number
number_at (frame ∷ frames) (suc i) = number_at frames i

-- `found` is the first frame of `tp` from `start` on.
abbrev pub IsFirstFrom : List TraceFrame → ℕ → ℕ → Option ℕ → Type 0
IsFirstFrom frames tp start none = (i : ℕ) → start ≤ i → number_at frames i ≢ some tp
IsFirstFrom frames tp start (some found) =
    (start ≤ found)
    × (number_at frames found ≡ some tp)
    × ((i : ℕ) → start ≤ i → i < found → number_at frames i ≢ some tp)

-- The search counts from `n` where the list has its first frame.
abbrev Finds : ℕ → ℕ → List TraceFrame → Option (ℕ × TraceFrame) → Type 0
Finds tp n frames none = (i : ℕ) → number_at frames i ≢ some tp
Finds tp n frames (some (found, frame)) =
    (j : ℕ) × (found ≡ n + j)
    × (frame.number ≡ tp)
    × (number_at frames j ≡ some tp)
    × ((i : ℕ) → i < j → number_at frames i ≢ some tp)

module _ (tp n : ℕ) (frame : TraceFrame) (frames : List TraceFrame) (ne : frame.number ≢ tp) where
  number_at-ne :
      (j : ℕ)
      → ((i : ℕ) → i < j → number_at frames i ≢ some tp)
      → (i : ℕ) → i < suc j
      → number_at (frame ∷ frames) i ≢ some tp
  number_at-ne j h zero lt = λ e. ne (Option.some-injective frame.number tp e)
  number_at-ne j h (suc i) lt = h i (omega (arith, lt))

  Finds-later :
      (o : Option (ℕ × TraceFrame)) → Finds tp (n + 1) frames o → Finds tp n (frame ∷ frames) o
  Finds-later none h = λ i. number_at-ne i (λ k lt. h k) i (omega arith)
  Finds-later (some (found, f)) h = (suc h.0, omega (arith, h.1), h.2, h.3, number_at-ne h.0 h.4)

first_hit-Finds : (tp n : ℕ) (frames : List TraceFrame) → Finds tp n frames (first_hit tp n frames)
unfolding first_hit
first_hit-Finds tp n [] = λ i. Option.none-ne-some tp
first_hit-Finds tp n (frame ∷ frames) = elim (Bool-cases (frame.number == tp)) [
  | inl e ↦
      let same : frame.number ≡ tp = (==_iff frame.number tp).0 e in
      let here : Finds tp n (frame ∷ frames) (some (n, frame)) =
        (0, omega arith, same, ap some same, λ i lt. absurd (omega (arith, lt))) in
      rw (e, first_hit) here
  | inr e ↦
      rw (e, first_hit)
        (Finds-later tp n frame frames (ground arith) (first_hit tp (n + 1) frames)
          (first_hit-Finds tp (n + 1) frames))
]

number_at-drop :
    (start : ℕ) (frames : List TraceFrame) (i : ℕ)
    → number_at (drop start frames) i ≡ number_at frames (start + i)
number_at-drop zero frames i = let same : i ≡ 0 + i = omega arith in ap (number_at frames) same
number_at-drop (suc start) [] i = refl
number_at-drop (suc start) (frame ∷ frames) i =
    let same : suc (start + i) ≡ suc start + i = omega arith in
    number_at-drop start frames i ∙ ap (number_at (frame ∷ frames)) same

module _ (frames : List TraceFrame) (tp start : ℕ) where
  below_start :
      (j : ℕ)
      → ((i : ℕ) → i < j → number_at (drop start frames) i ≢ some tp)
      → (i : ℕ) → start ≤ i
      → i < start + j
      → number_at frames i ≢ some tp
  below_start j h i le lt = λ e.
      h (i - start) (omega (arith, le, lt))
        (number_at-drop start frames (i - start) ∙ ap (number_at frames) (omega (arith, le)) ∙ e)

  Finds-IsFirstFrom :
      (o : Option (ℕ × TraceFrame))
      → Finds tp start (drop start frames) o
      → IsFirstFrom frames tp start (Option.map (λ r. r.0) o)
  Finds-IsFirstFrom none h = λ i le. below_start (suc i) (λ k lt. h k) i le (omega arith)
  Finds-IsFirstFrom (some (found, frame)) h = (
    omega (arith, h.1),
    ap (number_at frames) h.1 ∙ sym (number_at-drop start frames h.0) ∙ h.3,
    λ i le lt. below_start h.0 h.4 i le (omega (arith, lt, h.1)),
  )

-- What gdbstub is told of a selection.
abbrev pub described : ℕ → Option ℕ → List FrameDescription
described tp none = []
described tp (some found) = frame_number found ∷ hit_of tp ∷ []

-- From where the next hit is searched.
abbrev pub next_start : Machine → ℕ
next_start m = Option.get_or (Option.map suc m.selected_frame) 0

-- A debugger that asks for the next hit of a tracepoint gets the first frame of that tracepoint
-- behind the selected one, or from the start if none is selected: it is selected and described. If
-- there is no such frame, none is selected and nothing is described.
pub select_frame-IsFirstFrom :
    (m : Machine) (tp : ℕ)
    → let out = select_frame m (hit tp) in
      IsFirstFrom m.traceframes tp (next_start m) out.0.selected_frame
      × (out.1 ≡ ok (described tp out.0.selected_frame))
unfolding select_frame find_frame select_found
select_frame-IsFirstFrom m tp =
    go (first_hit tp (next_start m) (drop (next_start m) m.traceframes))
      (first_hit-Finds tp (next_start m) (drop (next_start m) m.traceframes))
  where
    go :
        (o : Option (ℕ × TraceFrame))
        → Finds tp (next_start m) (drop (next_start m) m.traceframes) o
        → IsFirstFrom m.traceframes tp (next_start m) (select_found m o).0.selected_frame
          × ◌≡◌ {A = Result TargetError (List FrameDescription)}
              (ok (select_found m o).1)
              (ok (described tp (select_found m o).0.selected_frame))
    go none h = (Finds-IsFirstFrom m.traceframes tp (next_start m) none h, refl)
    go (some (found, frame)) h = (
      Finds-IsFirstFrom m.traceframes tp (next_start m) (some (found, frame)) h,
      ap (λ n. ok (frame_number found ∷ hit_of n ∷ [])) h.2,
    )
