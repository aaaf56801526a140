-- ===== src/Engine/Mcp/Filtering/Unique.antt =====
-- app/engine/mcp/filtering.py: the names that `rename_collision_safe` gives are different.
use agentstrata.Engine.Mcp.Filtering.{rename_all, rename_collision_safe, rename_one}
use agentstrata.Engine.Mcp.Filtering.Names.{IsUnique, rename_one-fresh}
use agentstrata.Prelude.{All, List, [], arith, false, length, refl, some, ◌||◌, ◌∷◌, ◌≡◌}
use agentstrata.Text.{Text, elem, text_discrete}

-- None of the names is used yet.
abbrev pub AreFree : List Text → List Text → Type 0
AreFree names used = All (λ name. elem name used ≡ false) names

pub free-tail :
    (name : Text) (names used : List Text) → AreFree names (name ∷ used) → AreFree names used
unfolding elem
free-tail name [] used h = tt
free-tail name (x ∷ names) used h = (ground (arith, h.0), free-tail name names used h.1)

pub free-head :
    (name : Text) (names used : List Text) → AreFree names (name ∷ used) → elem name names ≡ false
unfolding elem
free-head name [] used h = refl
free-head name (x ∷ names) used h = elim (text_discrete x name) [
  | yes p ↦ ground (arith, h.0)
  | no p ↦ ground (arith, free-head name names used h.1)
]

-- Naming the tools of a server ends, whatever names are in use: each tool gets one name, the names
-- are pairwise different, none of them was in use, and the used names after it are those before it
-- and the new ones.
pub rename_all-total :
    (server_name : Text) (raws used : List Text)
    → (names used' : List Text) × (rename_all server_name raws used ≡ some (names, used'))
      × (length names ≡ length raws)
      × IsUnique names
      × AreFree names used
      × ((x : Text) → elem x used' ≡ (elem x names || elem x used))
unfolding rename_all elem
rename_all-total s [] used = ([], used, refl, refl, tt, tt, λ x. refl)
rename_all-total s (raw ∷ raws) used =
    let (name, e, free, _) = rename_one-fresh s raw used in
    let (names, used', es, len, uniq, frees, after) = rename_all-total s raws (name ∷ used) in
    (
      name ∷ names,
      used',
      rw (rename_all, e, es) refl,
      omega (arith, len),
      (free-head name names used frees, uniq),
      (free, free-tail name names used frees),
      λ x. ground (arith, after x),
    )

-- Renaming always ends (the `while True` finds a name), with exactly one name for each raw name,
-- and no two of the names are equal.
pub rename_collision_safe-IsUnique :
    (raw_names : List Text) (server_name : Text)
    → (names : List Text) × (rename_collision_safe raw_names server_name ≡ some names)
      × (length names ≡ length raw_names)
      × IsUnique names
unfolding rename_collision_safe
rename_collision_safe-IsUnique raws s =
    let (names, used, e, len, uniq, _, _) = rename_all-total s raws [] in
    (names, rw (rename_collision_safe, e) refl, len, uniq)

free-cons :
    (name : Text) (names used : List Text)
    → elem name names ≡ false
    → AreFree names used
    → AreFree names (name ∷ used)
unfolding elem
free-cons name [] used h free = tt
free-cons name (x ∷ names) used h free = elim (text_discrete x name) [
  | yes p ↦ absurd (ground arith)
  | no p ↦ (ground (arith, free.0), free-cons name names used (ground arith) free.1)
]

rename_all-kept :
    (s : Text) (raws used : List Text)
    → IsUnique raws
    → AreFree raws used
    → (used' : List Text) × (rename_all s raws used ≡ some (raws, used'))
unfolding rename_all rename_one
rename_all-kept s [] used h free = (used, refl)
rename_all-kept s (raw ∷ raws) used h free =
    let (used', e) = rename_all-kept s raws (raw ∷ used) h.1 (free-cons raw raws used h.0 free.1) in
    (used', rw (rename_all, rename_one, free.0, e) refl)

pub empty-free : (names : List Text) → AreFree names []
unfolding elem
empty-free [] = tt
empty-free (name ∷ names) = (refl, empty-free names)

-- Raw names that are pairwise different are all kept as they are.
pub rename_collision_safe-kept :
    (raw_names : List Text) (server_name : Text)
    → IsUnique raw_names
    → rename_collision_safe raw_names server_name ≡ some raw_names
unfolding rename_collision_safe
rename_collision_safe-kept raws s h =
    let (used, e) = rename_all-kept s raws [] h (empty-free raws) in
    rw (rename_collision_safe, e) refl
