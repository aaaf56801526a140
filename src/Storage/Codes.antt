-- ===== src/Storage/Codes.antt =====
-- The code points of a text, as app/storage/model.py compares ids and keys, determine it.
use Prim.Native.String.{[] as nil, ◌∷◌ as cons}
use text.Mathlib.TextEquality.{Char-path}
use agentstrata.Prelude.{String, refl, ◌≡◌}
use agentstrata.Storage.Model.{codes}

pub codes-injective : (s t : String) → codes s ≡ codes t → s ≡ t
unfolding codes
codes-injective nil nil h = refl
codes-injective nil (cons d t) h = absurd (cc)
codes-injective (cons c s) nil h = absurd (cc)
codes-injective (cons c s) (cons d t) h =
    λ i. cons (Char-path c d (cc) i) (codes-injective s t (cc) i)
