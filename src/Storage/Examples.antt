-- ===== src/Storage/Examples.antt =====
-- app/storage/model.py: a test, and the theorem at a concrete text.
use agentstrata.Prelude.{List, [], length, refl, true, ℕ, ◌++◌, ◌<◌, ◌↔◌, ◌∷◌, ◌≡◌, ◌≤◌}
use agentstrata.Storage.Model.{session_id_match}
use agentstrata.Storage.SessionIds.{IsAllowed, IsLine, session_id_match_iff}

-- "s-1"
abbrev id_text : List ℕ
id_text = 115 ∷ 45 ∷ 49 ∷ []

test_newline : session_id_match (id_text ++ 10 ∷ []) ≡ true
unfolding session_id_match
test_newline = refl

session_id_match_iff_example : (session_id_match id_text ≡ true) ↔ (
    (name : List ℕ) × IsAllowed name
    × (0 < length name)
    × (length name ≤ 128)
    × IsLine name id_text)
session_id_match_iff_example = session_id_match_iff id_text
