-- ===== src/Main/Waves/Writes.antt =====
-- What a connection has taken after some writes.
use riscv_trace_debugger.Prelude.{
  ℕ, ◌≡◌, refl, sym, ap, subst, ◌∙◌, Bool, true, false, List, [], ◌∷◌, ◌++◌, append-nil,
  append_assoc, length, take, drop, leb, if◌then◌else◌, Bool-cases, Option-cases, inl, inr,
  take-drop,
}
use riscv_trace_debugger.Main.Waves.{Socket, write_all, write_alls}

abbrev pub concat : List (List ℕ) → List ℕ
concat [] = []
concat (bytes ∷ more) = bytes ++ concat more

-- A connection has taken all of the bytes, or a part of them from the front.
abbrev pub Wrote : List ℕ → Socket × Bool → Type 0
Wrote all (socket, true) = socket.sent ≡ all
Wrote all (socket, false) = (rest : List ℕ) × (socket.sent ++ rest ≡ all)

write_all-Wrote : (s : Socket) (bytes : List ℕ) → Wrote (s.sent ++ bytes) (write_all s bytes)
unfolding write_all
write_all-Wrote s bytes = elim (Option-cases s.room) [
  | inl e ↦ rw (e, write_all) refl
  | inr (room, e) ↦ elim (Bool-cases (leb (length bytes) room)) [
    | inl fits ↦ rw (e, fits, write_all) refl
    | inr short ↦
        rw (e, short, write_all)
          (
            drop room bytes,
            append_assoc s.sent (take room bytes) (drop room bytes)
                ∙ ap (λ b. s.sent ++ b) (take-drop room bytes),
          )
  ]
]

Wrote-more :
    (s : Socket) (bytes : List ℕ) (parts : List (List ℕ)) (r : Socket × Bool)
    → Wrote (s.sent ++ bytes) r
    → Wrote (r.0.sent ++ concat parts) (write_alls r.0 parts)
    → Wrote
        (s.sent ++ (bytes ++ concat parts))
        (let rest = write_alls r.0 parts in if r.1 then rest else r)
Wrote-more s bytes parts (socket, true) h more =
    subst (λ all. Wrote all (write_alls socket parts))
      (ap (λ b. b ++ concat parts) h ∙ append_assoc s.sent bytes (concat parts)) more
Wrote-more s bytes parts (socket, false) (rest, e) more = (
  rest ++ concat parts,
  sym (append_assoc socket.sent rest (concat parts))
      ∙ ap (λ b. b ++ concat parts) e
      ∙ append_assoc s.sent bytes (concat parts),
)

pub write_alls-Wrote :
    (s : Socket) (parts : List (List ℕ)) → Wrote (s.sent ++ concat parts) (write_alls s parts)
unfolding write_alls
write_alls-Wrote s [] = sym (append-nil s.sent)
write_alls-Wrote s (bytes ∷ parts) =
    let first = write_all s bytes in
    Wrote-more s bytes parts first (write_all-Wrote s bytes) (write_alls-Wrote first.0 parts)
