-- ===== src/Storage/SessionIds.antt =====
-- app/storage/model.py: which texts `validate_session_id` accepts, by their code points.
use agentstrata.Prelude.{
  All, Bool-cases, List, [], ap, arith, inl, inr, length, refl, suc, true, zero, ℕ, ◌++◌, ◌<◌, ◌↔◌,
  ◌∷◌, ◌≡◌, ◌≤◌, ◌⊎◌,
}
use agentstrata.Storage.Model.{session_id_char, session_id_match, session_id_rest}

abbrev pub IsAllowed : List ℕ → Type 0
IsAllowed = All (λ c. session_id_char c ≡ true)

-- `text` is `name`, or `name` and a line feed.
abbrev pub IsLine : List ℕ → List ℕ → Type 0
IsLine name text = (text ≡ name) ⊎ (text ≡ name ++ 10 ∷ [])

rest_sound :
    (room : ℕ) (cs : List ℕ)
    → session_id_rest room cs ≡ true
    → (name : List ℕ) × IsAllowed name × (length name ≤ room) × IsLine name cs
unfolding session_id_rest
rest_sound room [] h = ([], tt, omega arith, inl refl)
rest_sound zero (c ∷ []) h = ([], tt, omega arith, inr (ground arith))
rest_sound zero (c ∷ d ∷ cs) h = absurd (ground arith)
rest_sound (suc room) (c ∷ []) h = elim (Bool-cases (session_id_char c)) [
  | inl e ↦ (c ∷ [], (e, tt), omega arith, inl refl)
  | inr e ↦ ([], tt, omega arith, inr (ground arith))
]
rest_sound (suc room) (c ∷ d ∷ cs) h =
    let (name, allowed, short, line) = rest_sound room (d ∷ cs) (ground arith) in
    (
      c ∷ name,
      (ground arith, allowed),
      omega arith,
      elim line [ inl e ↦ inl (ap (◌∷◌ c) e) | inr e ↦ inr (ap (◌∷◌ c) e) ],
    )

rest_complete :
    (room : ℕ) (name : List ℕ)
    → IsAllowed name
    → length name ≤ room
    → (session_id_rest room name ≡ true) × (session_id_rest room (name ++ 10 ∷ []) ≡ true)
unfolding session_id_rest
rest_complete zero [] allowed short = (refl, refl)
rest_complete (suc room) [] allowed short = (refl, ground arith)
rest_complete zero (c ∷ name) allowed short = absurd (omega arith)
rest_complete (suc room) (c ∷ []) allowed short = (ground (arith, allowed.0), go room)
  where
    go : (n : ℕ) → session_id_rest (suc n) (c ∷ 10 ∷ []) ≡ true
    go zero = ground (arith, allowed.0)
    go (suc n) = ground (arith, allowed.0)
rest_complete (suc room) (c ∷ d ∷ name) allowed short =
    ground (arith, allowed.0, rest_complete room (d ∷ name) allowed.1 (omega arith))

-- Exactly the texts of 1 to 128 letters, digits, underscores and dashes are accepted, and these
-- texts with a line feed behind them.
pub session_id_match_iff :
    (text : List ℕ)
    → (session_id_match text ≡ true) ↔ (
        (name : List ℕ) × IsAllowed name
        × (0 < length name)
        × (length name ≤ 128)
        × IsLine name text)
unfolding session_id_match
session_id_match_iff text = (
  sound text,
  λ (name, allowed, nonempty, short, line). complete text name allowed nonempty short line,
)
  where
    sound :
        (text : List ℕ)
        → session_id_match text ≡ true
        → (name : List ℕ) × IsAllowed name
          × (0 < length name)
          × (length name ≤ 128)
          × IsLine name text
    sound [] h = absurd (ground arith)
    sound (c ∷ cs) h =
        let (name, allowed, short, line) = rest_sound 127 cs (ground arith) in
        (
          c ∷ name,
          (ground arith, allowed),
          omega arith,
          omega arith,
          elim line [ inl e ↦ inl (ap (◌∷◌ c) e) | inr e ↦ inr (ap (◌∷◌ c) e) ],
        )

    complete :
        (text name : List ℕ)
        → IsAllowed name
        → 0 < length name
        → length name ≤ 128
        → IsLine name text
        → session_id_match text ≡ true
    complete text [] allowed nonempty short line = absurd (omega arith)
    complete text (c ∷ name) allowed nonempty short (inl e) =
        rw e (ground (arith, allowed.0, rest_complete 127 name allowed.1 (omega arith)))
    complete text (c ∷ name) allowed nonempty short (inr e) =
        rw e (ground (arith, allowed.0, rest_complete 127 name allowed.1 (omega arith)))
