-- ===== src/Storage/Codec/Sorting.antt =====
-- json.dumps with sort_keys=True, which app/storage/model.py asks for: the keys of every object,
-- at any depth, in the order of their code points.
-- a < b, on keys
use agentstrata.Json.{
  Fields, Items, Json, arr, bool, cons, end, field, float, int, nil, null, obj, str,
}
use agentstrata.Prelude.{Bool, String, [], if◌then◌else◌, map, ℕ, ◌∷◌}
use agentstrata.Prelude.Dict.{Dict}
use agentstrata.Storage.Model.{RunRecord, SessionRecord, codes}
use agentstrata.Text.{text_lt}

unfoldable pub key_lt : String → String → Bool
unfolding codes text_lt
key_lt a b = text_lt (codes a) (codes b)

-- A field before the first one whose key is not smaller.
unfoldable pub insert_field : String → Json → Fields → Fields
unfolding key_lt
insert_field k v end = field k v end
insert_field k v (field j w doc) =
    let rest = insert_field k v doc in
    if key_lt j k then field j w rest else field k v (field j w doc)

unfoldable mutual
  unfolding insert_field

  pub sort_json : Json → Json
  sort_json (arr items) = arr (sort_items items)
  sort_json (obj doc) = obj (sort_fields doc)
  sort_json null = null
  sort_json (bool b) = bool b
  sort_json (int n) = int n
  sort_json (float f) = float f
  sort_json (str s) = str s

  pub sort_items : Items → Items
  sort_items nil = nil
  sort_items (cons v items) = cons (sort_json v) (sort_items items)

  pub sort_fields : Fields → Fields
  sort_fields end = end
  sort_fields (field k v doc) = insert_field k (sort_json v) (sort_fields doc)

-- The same on a dictionary of counts.
unfoldable pub insert_count : String → ℕ → Dict String ℕ → Dict String ℕ
unfolding key_lt
insert_count k v [] = (k, v) ∷ []
insert_count k v ((j, w) ∷ d) =
    let rest = insert_count k v d in if key_lt j k then (j, w) ∷ rest else (k, v) ∷ (j, w) ∷ d

unfoldable pub sort_usage : Dict String ℕ → Dict String ℕ
unfolding insert_count
sort_usage [] = []
sort_usage ((k, v) ∷ d) = insert_count k v (sort_usage d)

-- A record whose objects have their keys sorted. Python's `==` does not tell it from the record.
unfoldable pub sorted_session : SessionRecord → SessionRecord
unfolding sort_json sort_usage
sorted_session r = record r { events = map sort_json r.events; usage = sort_usage r.usage }

unfoldable pub sorted_run : RunRecord → RunRecord
unfolding sort_json sort_usage
sorted_run r = record r {
  input = sort_fields r.input;
  outcome = sort_fields r.outcome;
  usage = sort_usage r.usage;
}
