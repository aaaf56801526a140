-- ===== src/Config/Examples.antt =====
-- app/config/resolver.py: concrete tiers.
use agentstrata.Config.Aliases.{IsAlias, bind_env-alias}
use agentstrata.Config.Cli.{binding_of, dotted}
use agentstrata.Config.Documents.{Resolution}
use agentstrata.Config.Environment.{
  alias_entries, alias_parts, alias_segment, bind_env, build_binding_index, camel_to_env_alias,
  candidates_of, canonically_bound, env_aliases, is_agent_variable, is_canonical, reserved_env,
  schema_entries, strip_key, underscored, without_underscores,
}
use agentstrata.Config.Merging.{
  IsDocument, IsSilent, get_field-apply_tier, is_dict, overlaid, resolve_tiers-last,
}
use agentstrata.Config.Scalars.{SchemaField, TextOps, leaf_kind, same_text, str_type}
use agentstrata.Config.Tiers.{apply_tier, resolve_tiers}
use agentstrata.Json.{Fields, end, field, null, obj, str}
use agentstrata.Prelude.{
  List, [], false, if◌then◌else◌, inl, keep_if, leb, none, refl, some, true, ℕ, ◌&&◌, ◌+◌, ◌-◌, ◌∷◌,
  ◌≡◌,
}
use agentstrata.Storage.Model.{codes}
use agentstrata.Storage.Parsing.{get_field}
use agentstrata.Text.{Text, elem, starts_with, text_discrete}

abbrev base : Fields
base = field "name" (str "a") (field "llm" (obj (field "provider" (str "x") end)) end)

abbrev overriding : Fields
overriding = field "llm" (obj (field "model" (str "m") end)) (field "name" null end)

overriding-IsDocument : IsDocument overriding
unfolding get_field
overriding-IsDocument = (refl, (refl, tt))

abbrev start : Resolution
start = record { merged = base; provenance = [] }

get_field-apply_tier_example :
    get_field "llm" (apply_tier 5 [] [] overriding start).merged
    ≡ overlaid (get_field "llm" overriding) (get_field "llm" start.merged)
get_field-apply_tier_example =
    get_field-apply_tier 5 [] [] overriding start "llm" overriding-IsDocument

name-null : get_field "name" overriding ≡ some null
unfolding get_field
name-null = refl

last-IsSilent : IsSilent "name" (7, end, [])
unfolding get_field
last-IsSilent = (tt, refl)

null-is_dict : is_dict null ≡ false
unfolding is_dict
null-is_dict = refl

resolve_tiers-last_example :
    get_field "name"
      (resolve_tiers ((1, base, []) ∷ (5, overriding, []) ∷ (7, end, []) ∷ [])).merged
    ≡ overlaid (some null) none
resolve_tiers-last_example =
    resolve_tiers-last ((1, base, []) ∷ []) ((7, end, []) ∷ []) 5 [] overriding "name" null
      overriding-IsDocument name-null null-is_dict (last-IsSilent, tt)

abbrev shifted : ℕ → ℕ → ℕ → Text → Text
shifted low high by [] = []
shifted low high by (c ∷ text) =
    (if leb low c && leb c high then (c + by) - 32 else c) ∷ shifted low high by text

-- Texts in ASCII; numbers are not read.
abbrev ops : TextOps
ops = record {
  strip_spaces = λ t. t;
  lower = shifted 65 90 64;
  upper = shifted 97 122 0;
  is_upper = λ c. leb 65 c && leb c 90;
  int_value = λ t. none;
  float_value = λ t. none;
  is_finite = λ s. true;
  string_of = λ t. "value";
  parse_json_value = λ t. none;
}

abbrev model_field : SchemaField
model_field = record {
  segments = "llm" ∷ "model" ∷ [];
  kind = leaf_kind;
  ann = str_type;
  bindable = true;
}

-- AGENT_LLM_MODEL and AGENT_MODEL
abbrev canonical_name : Text
canonical_name =
    b'A' ∷ b'G' ∷ b'E' ∷ b'N' ∷ b'T' ∷ b'_' ∷ b'L' ∷ b'L' ∷ b'M' ∷ b'_' ∷ b'M' ∷ b'O' ∷ b'D' ∷ b'E'
    ∷ b'L' ∷ []

abbrev alias_name : Text
alias_name = b'A' ∷ b'G' ∷ b'E' ∷ b'N' ∷ b'T' ∷ b'_' ∷ b'M' ∷ b'O' ∷ b'D' ∷ b'E' ∷ b'L' ∷ []

abbrev schema : List SchemaField
schema = model_field ∷ []

alias_name-IsAlias : IsAlias ops (build_binding_index ops schema) alias_name model_field
unfolding build_binding_index schema_entries alias_entries env_aliases strip_key without_underscores
    camel_to_env_alias alias_parts alias_segment underscored binding_of dotted same_text
    text_discrete codes candidates_of is_canonical keep_if
alias_name-IsAlias = (inl (refl, refl), refl, refl)

is_bound :
    elem
      (dotted model_field.segments)
      (canonically_bound ops (build_binding_index ops schema) ((canonical_name, []) ∷ []))
    ≡ true
unfolding build_binding_index schema_entries alias_entries env_aliases strip_key without_underscores
    camel_to_env_alias alias_parts alias_segment underscored binding_of dotted same_text
    text_discrete codes candidates_of is_canonical keep_if canonically_bound is_agent_variable
    starts_with elem reserved_env
is_bound = refl

bind_env-alias_example :
    bind_env ops schema ((alias_name, b'x' ∷ []) ∷ (canonical_name, []) ∷ [])
    ≡ bind_env ops schema ((canonical_name, []) ∷ [])
bind_env-alias_example =
    bind_env-alias ops schema [] ((canonical_name, []) ∷ []) alias_name (b'x' ∷ []) model_field
      alias_name-IsAlias is_bound
