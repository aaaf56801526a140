-- ===== src/Engine/Mcp/Manager/Lookup.antt =====
-- app/engine/mcp/manager.py: `lookup_tool` against the final names.
use agentstrata.Engine.Mcp.Filtering.Names.{IsUnique}
use agentstrata.Engine.Mcp.Manager.{ServerHandle, lookup_tool, raw_of, zip}
use agentstrata.Engine.Mcp.Manager.Names.{all_finals, elem-append}
use agentstrata.Prelude.{List, [], arith, false, none, refl, some, true, ◌++◌, ◌∷◌, ◌≡◌}
use agentstrata.Text.{Text, elem, text_discrete}

raw_of-none :
    (final : Text) (raws finals : List Text)
    → elem final finals ≡ false
    → raw_of final (zip raws finals) ≡ none
unfolding raw_of zip elem
raw_of-none final [] finals h = refl
raw_of-none final (raw ∷ raws) [] h = refl
raw_of-none final (raw ∷ raws) (f ∷ finals) h = ground (arith, raw_of-none final raws finals)

zip-elem :
    (raws finals : List Text) (pre post : List (Text × Text)) (raw final : Text)
    → zip raws finals ≡ pre ++ (raw, final) ∷ post
    → elem final finals ≡ true
unfolding zip elem
zip-elem [] finals [] post raw final h = absurd (ground arith)
zip-elem [] finals (p ∷ pre) post raw final h = absurd (ground arith)
zip-elem (r ∷ raws) [] [] post raw final h = absurd (ground arith)
zip-elem (r ∷ raws) [] (p ∷ pre) post raw final h = absurd (ground arith)
zip-elem (r ∷ raws) (f ∷ finals) [] post raw final h = ground arith
zip-elem (r ∷ raws) (f ∷ finals) (p ∷ pre) post raw final h =
    ground (arith, zip-elem raws finals pre post raw final)

raw_of-some :
    (raws finals : List Text) (pre post : List (Text × Text)) (raw final : Text)
    → IsUnique finals
    → zip raws finals ≡ pre ++ (raw, final) ∷ post
    → raw_of final (zip raws finals) ≡ some raw
unfolding raw_of zip elem
raw_of-some [] finals [] post raw final u h = absurd (ground arith)
raw_of-some [] finals (p ∷ pre) post raw final u h = absurd (ground arith)
raw_of-some (r ∷ raws) [] [] post raw final u h = absurd (ground arith)
raw_of-some (r ∷ raws) [] (p ∷ pre) post raw final u h = absurd (ground arith)
raw_of-some (r ∷ raws) (f ∷ finals) [] post raw final u h = ground arith
raw_of-some (r ∷ raws) (f ∷ finals) (p ∷ pre) post raw final u h = elim (text_discrete f final) [
  | yes q ↦ absurd (ground (arith, zip-elem raws finals pre post raw final, u.0))
  | no q ↦ ground (arith, raw_of-some raws finals pre post raw final u.1)
]

IsUnique-left : (xs ys : List Text) → IsUnique (xs ++ ys) → IsUnique xs
unfolding elem
IsUnique-left [] ys u = tt
IsUnique-left (x ∷ xs) ys u = (ground (arith, elem-append x xs ys, u.0), IsUnique-left xs ys u.1)

IsUnique-right : (xs ys : List Text) → IsUnique (xs ++ ys) → IsUnique ys
IsUnique-right [] ys u = u
IsUnique-right (x ∷ xs) ys u = IsUnique-right xs ys u.1

unique-apart :
    (xs ys : List Text) (y : Text) → IsUnique (xs ++ ys) → elem y ys ≡ true → elem y xs ≡ false
unfolding elem
unique-apart [] ys y u h = refl
unique-apart (x ∷ xs) ys y u h = elim (text_discrete x y) [
  | yes q ↦ absurd (ground (arith, elem-append x xs ys, u.0))
  | no q ↦ ground (arith, unique-apart xs ys y u.1 h)
]

finals-elem :
    (before after : List ServerHandle) (h : ServerHandle) (final : Text)
    → elem final h.final_names ≡ true
    → elem final (all_finals (before ++ h ∷ after)) ≡ true
finals-elem [] after h final e = ground (arith, elem-append final h.final_names (all_finals after))
finals-elem (g ∷ before) after h final e = ground (
  arith,
  elem-append final g.final_names (all_finals (before ++ h ∷ after)),
  finals-elem before after h final e,
)

-- If the final names of all servers are pairwise different and the server h filtered nothing out,
-- then looking up the final name that belongs to one of its raw names gives h's name and that raw
-- name.
pub lookup_tool-final :
    (before after : List ServerHandle) (h : ServerHandle) (pre post : List (Text × Text))
    (raw final : Text)
    → IsUnique (all_finals (before ++ h ∷ after))
    → h.raw_names ≡ h.filtered_names
    → zip h.filtered_names h.final_names ≡ pre ++ (raw, final) ∷ post
    → lookup_tool final (before ++ h ∷ after) ≡ some (h.name, raw)
unfolding lookup_tool
lookup_tool-final [] after h pre post raw final u same paired =
    let uniq = IsUnique-left h.final_names (all_finals after) u in
    let found = raw_of-some h.filtered_names h.final_names pre post raw final uniq paired in
    rw (lookup_tool, same, found) refl
lookup_tool-final (g ∷ before) after h pre post raw final u same paired =
    let rest = all_finals (before ++ h ∷ after) in
    let here = zip-elem h.filtered_names h.final_names pre post raw final paired in
    let absent = unique-apart g.final_names rest final u (finals-elem before after h final here) in
    let later =
      lookup_tool-final before after h pre post raw final (IsUnique-right g.final_names rest u) same
        paired in
    rw (lookup_tool, raw_of-none final g.raw_names g.final_names absent) later
