-- ===== src/Config/Documents.antt =====
-- app/config/resolver.py: what it does with Python's dictionaries, and the provenance of a leaf.
use agentstrata.Json.{Fields, Json, end, field, obj}
use agentstrata.Prelude.{Bool, Option, String, [], if◌then◌else◌, some, str_eq, ℕ, ◌++◌, ◌∷◌}
use agentstrata.Prelude.Dict.{Dict}
use agentstrata.Storage.Model.{codes}
use agentstrata.Text.{Text, decimal}

-- doc[name] = value
unfoldable pub set_field : String → Json → Fields → Fields
set_field name value end = field name value end
set_field name value (field k v doc) =
    let rest = set_field name value doc in
    if str_eq k name then field k value doc else field k v rest

-- doc.pop(name, None)
unfoldable pub pop_field : String → Fields → Fields
pop_field name end = end
pop_field name (field k v doc) =
    let rest = pop_field name doc in if str_eq k name then rest else field k v rest

-- A value's dictionary, or an empty one for any other value.
unfoldable pub dict_or_empty : Option Json → Fields
dict_or_empty (some (obj doc)) = doc
dict_or_empty _ = end

-- Provenance
pub record Provenance : Type 0 where
  pub tier : ℕ
  pub reset : Bool
  pub source : Text

-- prov, by dotted path
abbrev pub Provenances : Type 0
Provenances = Dict Text Provenance

-- Resolution, without what `resolve` is given
pub record Resolution : Type 0 where
  pub merged : Fields
  pub provenance : Provenances

-- Provenance.label
unfoldable pub label : Provenance → Text
unfolding decimal codes
label p =
    let tier_text = codes "tier " ++ decimal p.tier in
    if p.reset
    then elim p.source [
      | [] ↦ tier_text ++ codes ": reset-to-default"
      | c ∷ cs ↦ tier_text ++ codes ": " ++ (c ∷ cs) ++ codes " (reset-to-default)"
    ]
    else elim p.source [ [] ↦ tier_text | c ∷ cs ↦ tier_text ++ codes ": " ++ (c ∷ cs) ]

-- f"{path}.{key}" if path else key
unfoldable pub child_path : Text → String → Text
unfolding codes
child_path [] key = codes key
child_path (c ∷ path) key = (c ∷ path) ++ b'.' ∷ codes key
