-- ===== src/Config/Scalars.antt =====
-- app/config/resolver.py: the errors of the resolver, `parse_scalar` and `_set_path`.
use agentstrata.Config.Documents.{set_field}
use agentstrata.Json.{Fields, Json, bool, end, float, int, null, obj, str, ℤ}
use agentstrata.Prelude.{
  Bool, List, Option, String, [], any, false, if◌then◌else◌, ite, none, some, true, ℕ, ◌∷◌,
}
use agentstrata.Storage.Model.{codes}
use agentstrata.Storage.Parsing.{get_field}
use agentstrata.Text.{Text, text_discrete}

-- `ConfigError`, its subclasses, and a `TypeError` or `AttributeError` of the resolver itself.
pub data ConfigFailure : Type 0 where
  config_error usage_error ambiguous_env type_failure : ConfigFailure

pub data Checked (A : Type 0) : Type 0 where
  good : A → Checked A
  bad : ConfigFailure → Checked A

infixl 5 ◌>>=◌
abbrev pub ◌>>=◌ : {A B : Type 0} → Checked A → (A → Checked B) → Checked B
good a >>= f = f a
bad e >>= f = bad e

-- What Python does with a text: strip, lower, upper, isupper, int(value, 10), float(value) with the text
-- of the number, math.isfinite, the text as a JSON value, and `parse_json_value`.
pub record TextOps : Type 0 where
  pub strip_spaces : Text → Text
  pub lower : Text → Text
  pub upper : Text → Text
  pub is_upper : ℕ → Bool
  pub int_value : Text → Option ℤ
  pub float_value : Text → Option String
  pub is_finite : String → Bool
  pub string_of : Text → String
  pub parse_json_value : Text → Option Json

-- The type of a schema leaf; an enumeration has the values of its members.
pub data Annotation : Type 0 where
  str_type bool_type int_type float_type other_type : Annotation
  enum_type : List Text → Annotation
  optional_type : Annotation → Annotation

pub data FieldKind : Type 0 where
  model_kind list_kind passthrough_kind leaf_kind : FieldKind

-- A field of `iter_schema_fields`, with the segments of its dotted path.
pub record SchemaField : Type 0 where
  pub segments : List String
  pub kind : FieldKind
  pub ann : Annotation
  pub bindable : Bool

unfoldable pub same_text : Text → Text → Bool
unfolding text_discrete
same_text a b = ite (text_discrete a b) true false

module _ (ops : TextOps) where
  -- if value.strip().lower() == "null"
  unfoldable pub is_null : Text → Bool
  unfolding same_text codes
  is_null value = same_text (ops.lower (ops.strip_spaces value)) (codes "null")

  unfoldable pub parse_bool : Text → Checked Json
  unfolding same_text codes
  parse_bool value =
      if same_text (ops.lower value) (codes "true")
      then good (bool true)
      else if same_text (ops.lower value) (codes "false")
      then good (bool false)
      else bad config_error

  unfoldable pub parse_int : Text → Checked Json
  parse_int value = elim (ops.int_value value) [ none ↦ bad config_error | some n ↦ good (int n) ]

  unfoldable pub parse_float : Text → Checked Json
  parse_float value = elim (ops.float_value value) [
    | none ↦ bad config_error
    | some f ↦ if ops.is_finite f then good (float f) else bad config_error
  ]

  -- parse_scalar, for a value that is not null
  unfoldable pub parse_typed : Annotation → Text → Checked Json
  unfolding parse_bool parse_int parse_float same_text any
  parse_typed (enum_type members) value =
      if any (λ m. same_text m value) members
      then good (str (ops.string_of value))
      else bad config_error
  parse_typed (optional_type ann) value = parse_typed ann value
  parse_typed str_type value = good (str (ops.string_of value))
  parse_typed bool_type value = parse_bool value
  parse_typed int_type value = parse_int value
  parse_typed float_type value = parse_float value
  parse_typed other_type value = bad config_error

  unfoldable pub parse_scalar : Annotation → Text → Checked Json
  unfolding is_null parse_typed
  parse_scalar ann value = if is_null value then good null else parse_typed ann value

  unfoldable pub parse_json_field : Text → Checked Json
  parse_json_field value = elim (ops.parse_json_value value) [
    | none ↦ bad config_error
    | some parsed_value ↦ good parsed_value
  ]

  -- The value that `_set_path` stores.
  unfoldable pub parse_field : FieldKind → Annotation → Text → Checked Json
  unfolding parse_scalar parse_json_field
  parse_field leaf_kind ann value = parse_scalar ann value
  parse_field model_kind ann value = parse_json_field value
  parse_field list_kind ann value = parse_json_field value
  parse_field passthrough_kind ann value = parse_json_field value

-- node.setdefault(seg, {}), as the dictionary that the path goes on in
unfoldable pub child_of : Option Json → Checked Fields
child_of none = good end
child_of (some (obj doc)) = good doc
child_of (some _) = bad type_failure

-- The insertion of a value at the segments of a path.
unfoldable pub set_at : List String → Json → Fields → Checked Fields
unfolding set_field get_field child_of
set_at [] value doc = bad type_failure
set_at (leaf ∷ []) value doc = good (set_field leaf value doc)
set_at (seg ∷ next ∷ segments) value doc = child_of (get_field seg doc) >>= λ child.
    set_at (next ∷ segments) value child >>= λ changed. good (set_field seg (obj changed) doc)

-- for seg in segments[:-1]: node = node.setdefault(seg, {}); the last node may be no dictionary
unfoldable pub walk_to : List String → Fields → Checked Unit
unfolding get_field child_of
walk_to [] doc = good tt
walk_to (leaf ∷ []) doc = good tt
walk_to (seg ∷ leaf ∷ []) doc = good tt
walk_to (seg ∷ next ∷ third ∷ segments) doc =
    child_of (get_field seg doc) >>= λ child. walk_to (next ∷ third ∷ segments) child

-- _set_path
unfoldable pub set_path : TextOps → SchemaField → Text → Fields → Checked Fields
unfolding set_at walk_to parse_field
set_path ops f value doc = walk_to f.segments doc >>= λ _.
    parse_field ops f.kind f.ann value >>= λ parsed_value. set_at f.segments parsed_value doc
