-- ===== src/Engine/Mcp/Filtering/Names.antt =====
-- app/engine/mcp/filtering.py: the names that the tools of a server get.
use agentstrata.Engine.Mcp.Filtering.{apply_tool_filter, next_free, numbered, qualified, rename_one}
use agentstrata.Prelude.{
  Bool-cases, List, Option-cases, [], arith, false, inl, inr, ite, length, none, not, refl, some,
  suc, true, zero, ℕ, ℕ_discrete, ◌&&◌, ◌++◌, ◌+◌, ◌<◌, ◌==◌, ◌||◌, ◌∷◌, ◌≡◌, ◌≢◌, ◌≤◌,
}
use agentstrata.Text.{Text, decimal, decimal-injective, elem, text_discrete}

-- A tool is offered if it is in the server's list, not denied, and allowed if there is an allow
-- list; the filter keeps exactly these names.
pub elem-apply_tool_filter :
    (name : Text) (raw_names allow deny : List Text)
    → elem name (apply_tool_filter raw_names allow deny)
      ≡ (elem name raw_names && not (elem name deny) && (length allow == 0 || elem name allow))
unfolding apply_tool_filter elem
elem-apply_tool_filter name [] allow deny = refl
elem-apply_tool_filter name (raw ∷ raws) allow deny = elim (text_discrete raw name) [
  | yes p ↦ ground (arith, elem-apply_tool_filter name raws allow deny)
  | no p ↦ ground (arith, elem-apply_tool_filter name raws allow deny)
]

-- Each name stands once.
abbrev pub IsUnique : List Text → Type 0
IsUnique [] = Unit
IsUnique (x ∷ xs) = (elem x xs ≡ false) × IsUnique xs

-- xs without the first x
without : Text → List Text → List Text
unfolding text_discrete
without x [] = []
without x (y ∷ ys) = ite (text_discrete y x) ys (y ∷ without x ys)

length-without :
    (x : Text) (xs : List Text) → elem x xs ≡ true → length (without x xs) + 1 ≡ length xs
unfolding without elem
length-without x [] h = cc
length-without x (y ∷ ys) h = ground (arith, length-without x ys)

elem-without :
    (x y : Text) (xs : List Text) → x ≢ y → elem y xs ≡ true → elem y (without x xs) ≡ true
unfolding without elem
elem-without x y [] ne h = h
elem-without x y (z ∷ zs) ne h = ground (arith, elem-without x y zs ne)

-- More different names than `used` holds cannot all be used.
pigeonhole :
    (name : ℕ → Text)
    → ((i j : ℕ) → name i ≡ name j → i ≡ j)
    → (k n : ℕ) (used : List Text) → ((i : ℕ) → n ≤ i → i < n + k → elem (name i) used ≡ true)
    → k ≤ length used
pigeonhole name inj zero n used h = omega arith
pigeonhole name inj (suc k) n used h =
    let here = h n (omega arith) (omega arith) in
    let ih = pigeonhole name inj k (suc n) (without (name n) used) (λ i lo hi.
      elem-without (name n) (name i) used (λ e. absurd (omega (arith, inj n i e)))
        (h i (omega arith) (omega arith))) in
    omega (arith, ih, length-without (name n) used here)

qualified-injective : (s r : Text) (m n : ℕ) → numbered s r m ≡ numbered s r n → m ≡ n
unfolding numbered
qualified-injective s r m n h = decimal-injective m n (go (qualified s r) h)
  where
    go : (p : Text) → p ++ 95 ∷ decimal m ≡ p ++ 95 ∷ decimal n → decimal m ≡ decimal n
    go [] e = ground arith
    go (c ∷ p) e = go p (ground arith)

next_free-none :
    (fuel : ℕ) (s r : Text) (n : ℕ) (used : List Text)
    → next_free fuel s r n used ≡ none
    → (i : ℕ) → n ≤ i
    → i < n + fuel
    → elem (numbered s r i) used ≡ true
unfolding next_free
next_free-none zero s r n used h i lo hi = absurd (omega arith)
next_free-none (suc fuel) s r n used h i lo hi = elim (Bool-cases (elem (numbered s r n) used)) [
  | inr free ↦ absurd (ground arith)
  | inl taken ↦ elim (ℕ_discrete n i) [
    | yes p ↦ rw (← p) taken
    | no p ↦ next_free-none fuel s r (n + 1) used (ground arith) i (omega arith) (omega arith)
  ]
]

next_free-fresh :
    (fuel : ℕ) (s r : Text) (n : ℕ) (used : List Text) (name : Text)
    → next_free fuel s r n used ≡ some name
    → elem name used ≡ false
unfolding next_free
next_free-fresh zero s r n used name h = absurd (ground arith)
next_free-fresh (suc fuel) s r n used name h =
    ground (arith, next_free-fresh fuel s r (n + 1) used name)

-- The search for a name always ends, with a name that is not used yet; a raw name that is not used
-- yet is kept.
pub rename_one-fresh :
    (s raw : Text) (used : List Text)
    → (name : Text) × (rename_one s raw used ≡ some name)
      × (elem name used ≡ false)
      × (elem raw used ≡ false → name ≡ raw)
unfolding rename_one
rename_one-fresh s raw used = elim (Bool-cases (elem raw used)) [
  | inr free ↦ (raw, ground arith, free, λ _. refl)
  | inl taken ↦ elim (Bool-cases (elem (qualified s raw) used)) [
    | inr free ↦ (qualified s raw, ground arith, free, λ e. cc)
    | inl taken' ↦ elim (Option-cases (next_free (length used + 1) s raw 2 used)) [
      | inl e ↦ absurd (
          omega (
            arith,
            pigeonhole (numbered s raw) (qualified-injective s raw) (length used + 1) 2 used
                (next_free-none (length used + 1) s raw 2 used e),
          ))
      | inr (name, e) ↦
          (name, ground arith, next_free-fresh (length used + 1) s raw 2 used name e, λ f. cc)
    ]
  ]
]
