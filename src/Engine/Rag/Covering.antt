-- ===== src/Engine/Rag/Covering.antt =====
-- app/engine/rag.py: the chunks of a text hold the whole text.
use agentstrata.Engine.Rag.Chunks.{chunk_text, normalize_text, valid_parameters, windows}
use agentstrata.Prelude.{
  All, Bool-cases, List, [], ap, arith, drop, inl, inr, length, length-drop, length-take, ltb, refl,
  some, suc, sym, take, take-append-drop, zero, ℕ, ◌++◌, ◌+◌, ◌-◌, ◌<◌, ◌∙◌, ◌∷◌, ◌≡◌, ◌≤◌,
}
use agentstrata.Storage.Memory.Commands.{step}
use agentstrata.Text.{Text}

-- The first `step` code points of each chunk, one after the other.
abbrev pub pieces : ℕ → List Text → Text
pieces step [] = []
pieces step (c ∷ chunks) = take step c ++ pieces step chunks

take-take : (n m : ℕ) (xs : Text) → n ≤ m → take n (take m xs) ≡ take n xs
take-take zero m xs h = refl
take-take (suc n) zero xs h = absurd (omega arith)
take-take (suc n) (suc m) [] h = refl
take-take (suc n) (suc m) (x ∷ xs) h = ap (◌∷◌ x) (take-take n m xs (omega arith))

drop-nil : (n : ℕ) → drop {A = ℕ} n [] ≡ []
drop-nil zero = refl
drop-nil (suc n) = refl

drop-drop : (n m : ℕ) (xs : Text) → drop n (drop m xs) ≡ drop (m + n) xs
drop-drop n zero xs = ap (λ k. drop k xs) (omega arith)
drop-drop n (suc m) [] = drop-nil n ∙ sym (drop-nil (suc m + n))
drop-drop n (suc m) (x ∷ xs) = drop-drop n m xs ∙ ap (λ k. drop k (x ∷ xs)) (same m)
  where
    same : (m : ℕ) → suc (m + n) ≡ suc m + n
    same m = omega arith

drop-all : (n : ℕ) (xs : Text) → length xs ≤ n → drop n xs ≡ []
drop-all zero [] h = refl
drop-all zero (x ∷ xs) h = absurd (omega arith)
drop-all (suc n) [] h = refl
drop-all (suc n) (x ∷ xs) h = drop-all n xs (omega arith)

pieces-windows :
    (fuel chunk_chars step start : ℕ) (text : Text)
    → 0 < step
    → step ≤ chunk_chars
    → length text ≤ start + fuel
    → pieces step (windows fuel chunk_chars step start text) ≡ drop start text
unfolding windows
pieces-windows zero chunk_chars step start text p q h = sym (drop-all start text (omega arith))
pieces-windows (suc fuel) chunk_chars step start text p q h =
    elim (Bool-cases (ltb start (length text))) [
      | inl e ↦
          rw
            (
              e,
              take-take step chunk_chars (drop start text) q,
              pieces-windows fuel chunk_chars step (start + step) text p q (omega arith),
            )
            (ap (λ rest. take step (drop start text) ++ rest) (sym (drop-drop step start text))
              ∙ take-append-drop step (drop start text))
      | inr e ↦ rw e (sym (drop-all start text (ground arith)))
    ]

abbrev pub IsChunk : ℕ → Text → Type 0
IsChunk chunk_chars c = (0 < length c) × (length c ≤ chunk_chars)

windows-IsChunk :
    (fuel chunk_chars step start : ℕ) (text : Text)
    → 0 < chunk_chars
    → All (IsChunk chunk_chars) (windows fuel chunk_chars step start text)
unfolding windows
windows-IsChunk zero chunk_chars step start text p = tt
windows-IsChunk (suc fuel) chunk_chars step start text p =
    elim (Bool-cases (ltb start (length text))) [
      | inl e ↦ rw e (
        (
          ground (arith, length-take chunk_chars (drop start text), length-drop start text),
          omega (arith, length-take chunk_chars (drop start text)),
        ),
        windows-IsChunk fuel chunk_chars step (start + step) text p,
      )
      | inr e ↦ rw e tt
    ]

-- With a positive size above the overlap, a text has chunks; none of them is empty or longer
-- than the size, and what each of them has before the overlap makes up the normalized text.
pub chunk_text-covers :
    (text : Text) (chunk_chars overlap_chars : ℕ)
    → 0 < chunk_chars
    → overlap_chars < chunk_chars
    → (chunks : List Text) × (chunk_text text chunk_chars overlap_chars ≡ some chunks)
      × All (IsChunk chunk_chars) chunks
      × (pieces (chunk_chars - overlap_chars) chunks ≡ normalize_text text)
unfolding chunk_text valid_parameters
chunk_text-covers text chunk_chars overlap_chars p q =
    let normalized = normalize_text text in
    let step = chunk_chars - overlap_chars in
    (
      windows (length normalized) chunk_chars step 0 normalized,
      ground arith,
      windows-IsChunk (length normalized) chunk_chars step 0 normalized p,
      pieces-windows (length normalized) chunk_chars step 0 normalized (omega arith) (omega arith)
          (omega arith),
    )
