-- ===== src/Storage/Parsing.antt =====
-- app/storage/model.py: Python's conversions of a value of json.loads, and the parsing of times.
use agentstrata.Json.{
  Fields, Items, Json, arr, bool, cons, end, field, float, int, negsuc, nil, null, obj, pos, str,
}
use agentstrata.Prelude.{
  Bool, List, Option, String, [], false, get_or, if◌then◌else◌, none, not, some, str_eq, true, ℕ,
  ◌==◌, ◌||◌, ◌∷◌, ◌≡◌,
}
use agentstrata.Prelude.Dict.{Dict}

-- The outcome of `from_json`: a record, a `ValueError`, or another exception (`KeyError`,
-- `TypeError`, `AttributeError`).
pub data Parsed {ℓ} (A : Type ℓ) : Type ℓ where
  parsed : A → Parsed A
  value_error type_error outside : Parsed A

infixl 5 ◌>>=◌
abbrev pub ◌>>=◌ {ℓ κ} : {A : Type ℓ} {B : Type κ} → Parsed A → (A → Parsed B) → Parsed B
parsed a >>= f = f a
value_error >>= f = value_error
type_error >>= f = type_error
outside >>= f = outside

-- datetime.isoformat and datetime.fromisoformat, on microseconds in UTC.
pub record IsoFormat : Type 0 where
  pub isoformat : ℕ → String
  pub fromisoformat : String → Option ℕ
  pub fromisoformat_isoformat : (t : ℕ) → fromisoformat (isoformat t) ≡ some t
  pub isoformat_not_empty : (t : ℕ) → str_eq (isoformat t) "" ≡ false

-- data.get(name)
unfoldable pub get_field : String → Fields → Option Json
get_field name end = none
get_field name (field k v doc) = if str_eq k name then some v else get_field name doc

-- data[name]
unfoldable pub required : String → Fields → Parsed Json
unfolding get_field
required name doc = elim (get_field name doc) [ none ↦ type_error | some v ↦ parsed v ]

-- A value that is kept as it is, where the record has a text.
unfoldable pub text_of : Json → Parsed String
text_of (str s) = parsed s
text_of _ = outside

-- str(value)
unfoldable pub str_of : Json → Parsed String
str_of (str s) = parsed s
str_of _ = outside

-- int(value)
unfoldable pub int_of : Json → Parsed ℕ
int_of (int (pos n)) = parsed n
int_of (int (negsuc n)) = outside
int_of (bool true) = parsed 1
int_of (bool false) = parsed 0
int_of (float f) = outside
int_of (str s) = outside
int_of null = type_error
int_of (arr items) = type_error
int_of (obj doc) = type_error

-- bool(value)
unfoldable pub bool_of : Json → Bool
bool_of null = false
bool_of (bool b) = b
bool_of (int (pos n)) = not (n == 0)
bool_of (int (negsuc n)) = true
bool_of (float f) = not (str_eq f "0.0" || str_eq f "-0.0")
bool_of (str s) = not (str_eq s "")
bool_of (arr nil) = false
bool_of (arr (cons v items)) = true
bool_of (obj end) = false
bool_of (obj (field k v doc)) = true

unfoldable pub items_of : List Json → Items
items_of [] = nil
items_of (v ∷ vs) = cons v (items_of vs)

unfoldable pub values : Items → List Json
values nil = []
values (cons v items) = v ∷ values items

-- list(value)
unfoldable pub list_of : Json → Parsed (List Json)
unfolding values
list_of (arr items) = parsed (values items)
list_of (str s) = outside
list_of (obj doc) = outside
list_of _ = type_error

-- dict(value)
unfoldable pub dict_of : Json → Parsed Fields
dict_of (obj doc) = parsed doc
dict_of (arr items) = outside
dict_of (str s) = outside
dict_of _ = type_error

unfoldable pub usage_json : Dict String ℕ → Fields
usage_json [] = end
usage_json ((k, n) ∷ usage) = field k (int (pos n)) (usage_json usage)

-- Counts that are kept as they are, where the record has natural numbers.
unfoldable pub usage_of : Fields → Parsed (Dict String ℕ)
usage_of end = parsed []
usage_of (field k (int (pos n)) doc) = usage_of doc >>= λ usage. parsed ((k, n) ∷ usage)
usage_of (field k _ doc) = outside

-- data.get("schema_version") == SCHEMA_VERSION, where Python's 1 equals 1.0 and True
unfoldable pub is_schema_version : Option Json → Bool
is_schema_version (some (int (pos n))) = n == 1
is_schema_version (some (bool b)) = b
is_schema_version (some (float f)) = str_eq f "1.0"
is_schema_version _ = false

-- _parse_iso, with `utcnow` at the time `now`; a value that is neither a text nor false is one
-- that fromisoformat raises for.
unfoldable pub parse_iso : IsoFormat → ℕ → Option ℕ → Option Json → Parsed ℕ
unfolding bool_of
parse_iso iso now default none = parsed (get_or default now)
parse_iso iso now default (some (str s)) =
    if str_eq s ""
    then parsed (get_or default now)
    else parsed (get_or (iso.fromisoformat s) (get_or default now))
parse_iso iso now default (some v) = if bool_of v then type_error else parsed (get_or default now)
