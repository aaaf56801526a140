-- ===== src/Storage/File/Paths.antt =====
-- app/storage/file_backend.py: different sessions have different files, as an accepted id has no
-- dot and no separator.
use mathlib.Core.Bool.{false≢true}
use agentstrata.Prelude.{
  Bool, Bool-cases, List, String, [], and_split, any, ap, arith, eq_iff, false, inl, inr, refl,
  str_eq, suc, sym, true, zero, ℕ, ℕ_discrete, ◌++◌, ◌==◌, ◌||◌, ◌∙◌, ◌∷◌, ◌≡◌, ◌≢◌,
}
use agentstrata.Storage.Codes.{codes-injective}
use agentstrata.Storage.File.Names.{safe_component, session_file}
use agentstrata.Storage.Model.{
  codes, session_id_char, session_id_match, session_id_rest, validate_session_id,
}
use agentstrata.Text.{begins, occurs}

-- A mark that no accepted id contains.
abbrev IsForeign : ℕ → Type 0
IsForeign m = (session_id_char m ≡ false) × (m ≢ 10)

foreign_ne : (m c : ℕ) → IsForeign m → session_id_char c ≡ true → (c == m) ≡ false
foreign_ne m c f h = elim (ℕ_discrete c m) [
  | yes p ↦ absurd (false≢true (sym f.0 ∙ ap session_id_char (sym p) ∙ h))
  | no p ↦ ground arith
]

rest-any :
    (m room : ℕ) (cs : List ℕ)
    → IsForeign m
    → session_id_rest room cs ≡ true
    → any (λ c. c == m) cs ≡ false
unfolding session_id_rest any
rest-any m room [] f h = refl
rest-any m zero (c ∷ []) f h = ground (arith, f.1)
rest-any m zero (c ∷ d ∷ cs) f h = absurd (ground arith)
rest-any m (suc room) (c ∷ []) f h = elim (Bool-cases (session_id_char c)) [
  | inl e ↦ ground (arith, foreign_ne m c f e)
  | inr e ↦ ground (arith, f.1)
]
rest-any m (suc room) (c ∷ d ∷ cs) f h =
    let (here, rest) = and_split (session_id_char c) (session_id_rest room (d ∷ cs)) h in
    ground (arith, foreign_ne m c f here, rest-any m room (d ∷ cs) f rest)

pub match-any :
    (m : ℕ) (cs : List ℕ) → IsForeign m → session_id_match cs ≡ true → any (λ c. c == m) cs ≡ false
unfolding session_id_match any
match-any m [] f h = absurd (ground arith)
match-any m (c ∷ cs) f h =
    let (here, rest) = and_split (session_id_char c) (session_id_rest 127 cs) h in
    ground (arith, foreign_ne m c f here, rest-any m 127 cs f rest)

-- The text before the first dot is determined.
pub cut_at_dot :
    (xs ys r s : List ℕ)
    → any (λ c. c == 46) xs ≡ false
    → any (λ c. c == 46) ys ≡ false
    → xs ++ 46 ∷ r ≡ ys ++ 46 ∷ s
    → xs ≡ ys
unfolding any
cut_at_dot [] [] r s p q h = refl
cut_at_dot [] (y ∷ ys) r s p q h = absurd (ground arith)
cut_at_dot (x ∷ xs) [] r s p q h = absurd (ground arith)
cut_at_dot (x ∷ xs) (y ∷ ys) r s p q h = ground (arith, cut_at_dot xs ys r s)

pub session_file-injective :
    (s t : String)
    → validate_session_id s ≡ true
    → validate_session_id t ≡ true
    → session_file s ≡ session_file t
    → s ≡ t
unfolding validate_session_id session_file
session_file-injective s t v w h = codes-injective s t (
    cut_at_dot (codes s) (codes t) _ _ (match-any 46 (codes s) dot v) (match-any 46 (codes t) dot w)
      h)
  where
    dot : IsForeign 46
    dot = (refl, omega arith)

any-eq-false :
    (p q : ℕ → Bool) (cs : List ℕ)
    → any p cs ≡ false
    → any q cs ≡ false
    → any (λ c. p c || q c) cs ≡ false
unfolding any
any-eq-false p q [] h k = refl
any-eq-false p q (c ∷ cs) h k = ground (arith, any-eq-false p q cs)

slash : (cs : List ℕ) → any (λ c. c == 47) cs ≡ false → occurs (codes "/") cs ≡ false
unfolding any occurs begins codes
slash [] h = refl
slash (c ∷ cs) h = ground (arith, slash cs)

not_refused :
    (s bad : String)
    → validate_session_id s ≡ true
    → validate_session_id bad ≡ false
    → str_eq s bad ≡ false
not_refused s bad v w = elim (Bool-cases (str_eq s bad)) [
  | inl e ↦ absurd (false≢true (sym w ∙ ap validate_session_id (sym ((eq_iff s bad).0 e)) ∙ v))
  | inr e ↦ e
]

-- An accepted id is a safe component.
pub safe_component-valid : (s : String) → validate_session_id s ≡ true → safe_component s ≡ true
unfolding safe_component validate_session_id
safe_component-valid s v =
    rw
      (
        not_refused s "" v refl,
        not_refused s "." v refl,
        not_refused s ".." v refl,
        slash (codes s) (match-any 47 (codes s) (refl, omega arith) v),
        any-eq-false (λ c. c == 92) (λ c. c == 0) (codes s)
            (match-any 92 (codes s) (refl, omega arith) v)
            (match-any 0 (codes s) (refl, omega arith) v),
      )
      refl
