-- ===== src/Config/Merging.antt =====
-- app/config/resolver.py: what the merge of a tier leaves under each key, and which tier wins.
use mathlib.Core.Bool.{true≢false}
use agentstrata.Config.Documents.{Resolution, child_path, dict_or_empty, pop_field, set_field}
use agentstrata.Config.Tiers.{apply_tier, apply_tiers, apply_value, resolve_tiers}
use agentstrata.Json.{Fields, Json, arr, bool, end, field, float, int, null, obj, str}
use agentstrata.Prelude.{
  All, Bool, Bool-cases, List, Option, String, [], ap, arith, eq_iff, false, if◌then◌else◌, inl,
  inr, none, refl, some, str_eq, subst, sym, true, ℕ, ◌++◌, ◌∙◌, ◌∷◌, ◌≡◌,
}
use agentstrata.Storage.Parsing.{get_field}
use agentstrata.Text.{Text}

unfoldable mutual
  unfolding set_field pop_field dict_or_empty get_field

  -- The deep merge of a document over another, without provenance.
  pub overlay : Fields → Fields → Fields
  overlay end under = under
  overlay (field key value doc) under = overlay doc (overlay_value key value under)

  pub overlay_value : String → Json → Fields → Fields
  overlay_value key (obj inner) under =
      set_field key (obj (overlay inner (dict_or_empty (get_field key under)))) under
  overlay_value key null under = pop_field key under
  overlay_value key (bool b) under = set_field key (bool b) under
  overlay_value key (int n) under = set_field key (int n) under
  overlay_value key (float f) under = set_field key (float f) under
  overlay_value key (str s) under = set_field key (str s) under
  overlay_value key (arr items) under = set_field key (arr items) under

mutual
  unfolding apply_tier overlay

  apply_tier-overlay :
      (tier : ℕ) (source path : Text) (doc : Fields) (r : Resolution)
      → (apply_tier tier source path doc r).merged ≡ overlay doc r.merged
  apply_tier-overlay tier source path end r = refl
  apply_tier-overlay tier source path (field key value doc) r =
      apply_tier-overlay tier source path doc (apply_value tier source path key value r)
      ∙ ap (overlay doc) (apply_value-overlay tier source path key value r)

  apply_value-overlay :
      (tier : ℕ) (source path : Text) (key : String) (value : Json) (r : Resolution)
      → (apply_value tier source path key value r).merged ≡ overlay_value key value r.merged
  apply_value-overlay tier source path key (obj inner) r =
      ap (λ m. set_field key (obj m) r.merged)
        (apply_tier-overlay tier source (child_path path key) inner
          (record r { merged = dict_or_empty (get_field key r.merged) }))
  apply_value-overlay tier source path key null r = refl
  apply_value-overlay tier source path key (bool b) r = refl
  apply_value-overlay tier source path key (int n) r = refl
  apply_value-overlay tier source path key (float f) r = refl
  apply_value-overlay tier source path key (str s) r = refl
  apply_value-overlay tier source path key (arr items) r = refl

-- Each key of a document stands once.
abbrev pub IsDocument : Fields → Type 0
IsDocument end = Unit
IsDocument (field k v doc) = (get_field k doc ≡ none) × IsDocument doc

same_name : (k key name : String) → str_eq k key ≡ true → str_eq k name ≡ str_eq key name
same_name k key name h = ap (λ x. str_eq x name) ((eq_iff k key).0 h)

other_name :
    (k key name : String) → str_eq k key ≡ false → str_eq key name ≡ true → str_eq k name ≡ false
other_name k key name h e = ap (str_eq k) (sym ((eq_iff key name).0 e)) ∙ h

if_nested :
    {A : Type 0} (b : Bool) (x y z : A)
    → (if b then x else y) ≡ (if b then x else if b then z else y)
if_nested true x y z = refl
if_nested false x y z = refl

get_field-set_field :
    (name key : String) (value : Json) (doc : Fields)
    → get_field name (set_field key value doc)
      ≡ (if str_eq key name then some value else get_field name doc)
unfolding get_field set_field
get_field-set_field name key value end = refl
get_field-set_field name key value (field k v doc) = elim (Bool-cases (str_eq k key)) [
  | inl e ↦
      rw (e, same_name k key name e)
        (if_nested (str_eq key name) (some value) (get_field name doc) (some v))
  | inr e ↦ elim (Bool-cases (str_eq key name)) [
    | inl q ↦
        rw (e, q, other_name k key name e q) (get_field-set_field name key value doc ∙ rw q refl)
    | inr q ↦ rw (e, get_field-set_field name key value doc, q) refl
  ]
]

get_field-pop_field :
    (name key : String) (doc : Fields)
    → get_field name (pop_field key doc) ≡ (if str_eq key name then none else get_field name doc)
unfolding get_field pop_field
get_field-pop_field name key end = ground arith
get_field-pop_field name key (field k v doc) = elim (Bool-cases (str_eq k key)) [
  | inl e ↦
      rw (e, same_name k key name e)
        (get_field-pop_field name key doc
          ∙ if_nested (str_eq key name) none (get_field name doc) (some v))
  | inr e ↦ elim (Bool-cases (str_eq key name)) [
    | inl q ↦ rw (e, q, other_name k key name e q) (get_field-pop_field name key doc ∙ rw q refl)
    | inr q ↦ rw (e, get_field-pop_field name key doc, q) refl
  ]
]

-- What a value of a document makes of what was under its key.
unfoldable pub overlaid : Option Json → Option Json → Option Json
unfolding overlay dict_or_empty
overlaid none under = under
overlaid (some null) under = none
overlaid (some (obj inner)) under = some (obj (overlay inner (dict_or_empty under)))
overlaid (some (bool b)) under = some (bool b)
overlaid (some (int n)) under = some (int n)
overlaid (some (float f)) under = some (float f)
overlaid (some (str s)) under = some (str s)
overlaid (some (arr items)) under = some (arr items)

self : {A : Type 0} (key : String) (x y : A) → (if str_eq key key then x else y) ≡ x
self key x y = rw ((eq_iff key key).1 refl) refl

-- The value under the key itself.
overlay_value_self :
    (key : String) (value : Json) (under : Fields)
    → get_field key (overlay_value key value under) ≡ overlaid (some value) (get_field key under)
unfolding overlay overlaid
overlay_value_self key (obj inner) under =
    get_field-set_field key key (obj (overlay inner (dict_or_empty (get_field key under)))) under
    ∙ self key _ _
overlay_value_self key null under = get_field-pop_field key key under ∙ self key _ _
overlay_value_self key (bool b) under = get_field-set_field key key (bool b) under ∙ self key _ _
overlay_value_self key (int n) under = get_field-set_field key key (int n) under ∙ self key _ _
overlay_value_self key (float f) under = get_field-set_field key key (float f) under ∙ self key _ _
overlay_value_self key (str s) under = get_field-set_field key key (str s) under ∙ self key _ _
overlay_value_self key (arr items) under =
    get_field-set_field key key (arr items) under ∙ self key _ _

-- The values under other keys.
overlay_value_other :
    (name key : String) (value : Json) (under : Fields)
    → str_eq key name ≡ false
    → get_field name (overlay_value key value under) ≡ get_field name under
unfolding overlay
overlay_value_other name key (obj inner) under h =
    get_field-set_field name key (obj (overlay inner (dict_or_empty (get_field key under)))) under
    ∙ rw h refl
overlay_value_other name key null under h = get_field-pop_field name key under ∙ rw h refl
overlay_value_other name key (bool b) under h =
    get_field-set_field name key (bool b) under ∙ rw h refl
overlay_value_other name key (int n) under h =
    get_field-set_field name key (int n) under ∙ rw h refl
overlay_value_other name key (float f) under h =
    get_field-set_field name key (float f) under ∙ rw h refl
overlay_value_other name key (str s) under h =
    get_field-set_field name key (str s) under ∙ rw h refl
overlay_value_other name key (arr items) under h =
    get_field-set_field name key (arr items) under ∙ rw h refl

get_field-overlay :
    (name : String) (doc under : Fields)
    → IsDocument doc
    → get_field name (overlay doc under) ≡ overlaid (get_field name doc) (get_field name under)
unfolding overlay overlaid get_field
get_field-overlay name end under h = refl
get_field-overlay name (field key value doc) under h = elim (Bool-cases (str_eq key name)) [
  | inl e ↦
      let same = (eq_iff key name).0 e in
      rw e (
        get_field-overlay name doc (overlay_value key value under) h.1
        ∙ ap (λ o. overlaid o (get_field name (overlay_value key value under)))
            (ap (λ n. get_field n doc) (sym same) ∙ h.0)
        ∙ subst
            (λ n.
              get_field n (overlay_value key value under)
              ≡ overlaid (some value) (get_field n under))
            same (overlay_value_self key value under))
  | inr e ↦ rw e (
      get_field-overlay name doc (overlay_value key value under) h.1
      ∙ ap (overlaid (get_field name doc)) (overlay_value_other name key value under e))
]

-- After a tier is applied, the value under each key is what the tier's document makes of what was
-- there, at every path of the document, also inside a map that is passed through: a missing key
-- leaves it, null removes it, a mapping is merged into the mapping that was
-- there or into an empty one, and any other value replaces it.
pub get_field-apply_tier :
    (tier : ℕ) (source path : Text) (doc : Fields) (r : Resolution) (name : String)
    → IsDocument doc
    → get_field name (apply_tier tier source path doc r).merged
      ≡ overlaid (get_field name doc) (get_field name r.merged)
get_field-apply_tier tier source path doc r name h =
    ap (get_field name) (apply_tier-overlay tier source path doc r)
    ∙ get_field-overlay name doc r.merged h

-- A tier that says nothing about a key.
abbrev pub IsSilent : String → ℕ × Fields × Text → Type 0
IsSilent name t = IsDocument t.1 × (get_field name t.1 ≡ none)

unfoldable pub is_dict : Json → Bool
is_dict (obj doc) = true
is_dict _ = false

overlaid-replaces :
    (value : Json) (under : Option Json)
    → is_dict value ≡ false
    → overlaid (some value) under ≡ overlaid (some value) none
unfolding overlaid is_dict
overlaid-replaces null under h = refl
overlaid-replaces (bool b) under h = refl
overlaid-replaces (int n) under h = refl
overlaid-replaces (float f) under h = refl
overlaid-replaces (str s) under h = refl
overlaid-replaces (arr items) under h = refl
overlaid-replaces (obj inner) under h = absurd (true≢false h)

apply_tiers-silent :
    (name : String) (later : List (ℕ × Fields × Text)) (r : Resolution)
    → All (IsSilent name) later
    → get_field name (apply_tiers later r).merged ≡ get_field name r.merged
unfolding apply_tiers overlaid
apply_tiers-silent name [] r h = refl
apply_tiers-silent name ((tier, doc, source) ∷ later) r h =
    apply_tiers-silent name later (apply_tier tier source [] doc r) h.1
    ∙ get_field-apply_tier tier source [] doc r name h.0.0
    ∙ ap (λ o. overlaid o (get_field name r.merged)) h.0.1

apply_tiers-append :
    (docs later : List (ℕ × Fields × Text)) (r : Resolution)
    → apply_tiers (docs ++ later) r ≡ apply_tiers later (apply_tiers docs r)
unfolding apply_tiers
apply_tiers-append [] later r = refl
apply_tiers-append ((tier, doc, source) ∷ docs) later r =
    apply_tiers-append docs later (apply_tier tier source [] doc r)

-- The last tier that names a top-level key with anything but a mapping decides it, whatever the
-- tiers before it say: null removes the key, and any other value is the value of the key.
pub resolve_tiers-last :
    (docs later : List (ℕ × Fields × Text)) (tier : ℕ) (source : Text) (doc : Fields)
    (name : String) (value : Json)
    → IsDocument doc
    → get_field name doc ≡ some value
    → is_dict value ≡ false
    → All (IsSilent name) later
    → get_field name (resolve_tiers (docs ++ (tier, doc, source) ∷ later)).merged
      ≡ overlaid (some value) none
unfolding resolve_tiers
resolve_tiers-last docs later tier source doc name value h e leaf silent =
    let start : Resolution = record { merged = end; provenance = [] } in
    let under = apply_tiers docs start in
    ap (λ r. get_field name r.merged) (apply_tiers-append docs ((tier, doc, source) ∷ later) start)
    ∙ apply_tiers-silent name later (apply_tier tier source [] doc under) silent
    ∙ get_field-apply_tier tier source [] doc under name h
    ∙ ap (λ o. overlaid o (get_field name under.merged)) e
    ∙ overlaid-replaces value (get_field name under.merged) leaf
