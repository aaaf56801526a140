-- ===== src/Engine/Mcp/Manager/Names.antt =====
-- app/engine/mcp/manager.py: the final names of the tools.
use agentstrata.Engine.Mcp.Filtering.Names.{IsUnique}
use agentstrata.Engine.Mcp.Filtering.Unique.{AreFree, free-head, free-tail, rename_all-total}
use agentstrata.Engine.Mcp.Manager.{ServerHandle, recompute_finals, recompute_from}
use agentstrata.Prelude.{List, [], arith, length, refl, some, ◌++◌, ◌||◌, ◌∷◌, ◌≡◌}
use agentstrata.Text.{Text, elem}

-- The final names of all servers, in configured order.
abbrev pub all_finals : List ServerHandle → List Text
all_finals [] = []
all_finals (h ∷ handles) = h.final_names ++ all_finals handles

-- The same handles but for their final names, of which there are as many as filtered names.
abbrev pub AreRenamed : List ServerHandle → List ServerHandle → Type 0
AreRenamed [] [] = Unit
AreRenamed (h ∷ hs) (g ∷ gs) =
    (g ≡ record h { final_names = g.final_names })
    × (length g.final_names ≡ length h.filtered_names)
    × AreRenamed hs gs
AreRenamed _ _ = ⊥

pub elem-append : (x : Text) (xs ys : List Text) → elem x (xs ++ ys) ≡ (elem x xs || elem x ys)
unfolding elem
elem-append x [] ys = refl
elem-append x (y ∷ xs) ys = ground (arith, elem-append x xs ys)

free-append : (xs ys used : List Text) → AreFree xs used → AreFree ys used → AreFree (xs ++ ys) used
free-append [] ys used f g = g
free-append (x ∷ xs) ys used f g = (f.0, free-append xs ys used f.1 g)

free-split :
    (ys used' names used : List Text)
    → ((x : Text) → elem x used' ≡ (elem x names || elem x used))
    → AreFree ys used'
    → AreFree ys names × AreFree ys used
free-split [] used' names used after f = (tt, tt)
free-split (y ∷ ys) used' names used after f =
    let (g, h) = free-split ys used' names used after f.1 in
    ((ground (arith, after y, f.0), g), (ground (arith, after y, f.0), h))

IsUnique-append :
    (xs ys : List Text) → IsUnique xs → IsUnique ys → AreFree ys xs → IsUnique (xs ++ ys)
IsUnique-append [] ys u v f = v
IsUnique-append (x ∷ xs) ys u v f = (
  ground (arith, elem-append x xs ys, u.0, free-head x ys xs f),
  IsUnique-append xs ys u.1 v (free-tail x ys xs f),
)

recompute_from-total :
    (used : List Text) (handles : List ServerHandle)
    → (out : List ServerHandle) × (recompute_from used handles ≡ some out)
      × AreRenamed handles out
      × IsUnique (all_finals out)
      × AreFree (all_finals out) used
unfolding recompute_from
recompute_from-total used [] = ([], refl, tt, tt, tt)
recompute_from-total used (h ∷ handles) =
    let (names, used', e, len, uniq, free, after) = rename_all-total h.name h.filtered_names used in
    let (rest, es, renamed, uniqs, frees) = recompute_from-total used' handles in
    let (apart, frees') = free-split (all_finals rest) used' names used after frees in
    (
      record h { final_names = names } ∷ rest,
      rw (recompute_from, e, es) refl,
      (refl, len, renamed),
      IsUnique-append names (all_finals rest) uniq uniqs apart,
      free-append names (all_finals rest) used free frees',
    )

-- Computing the final names always ends, changes nothing but the final names, gives each server as
-- many of them as it has filtered names, and no two tools of all the servers get the same name.
pub recompute_finals-IsUnique :
    (handles : List ServerHandle)
    → (out : List ServerHandle) × (recompute_finals handles ≡ some out)
      × AreRenamed handles out
      × IsUnique (all_finals out)
unfolding recompute_finals
recompute_finals-IsUnique handles =
    let (out, e, renamed, uniq, _) = recompute_from-total [] handles in
    (out, rw (recompute_finals, e) refl, renamed, uniq)
