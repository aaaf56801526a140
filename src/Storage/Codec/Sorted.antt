-- ===== src/Storage/Codec/Sorted.antt =====
-- app/storage/model.py: a session record and the one with sorted keys.
use agentstrata.Json.{Fields, Json, cons, end, field, int, obj, pos}
use agentstrata.Prelude.{
  Bool, Bool-cases, List, Option, String, [], ap, get_or, inl, inr, length, map, none, refl, some,
  suc, sym, take, zero, ℕ, ◌++◌, ◌-◌, ◌∙◌, ◌∷◌, ◌≡◌,
}
use agentstrata.Prelude.Dict.{Dict}
use agentstrata.Storage.Codec.Counts.{add_usage-sorted}
use agentstrata.Storage.Codec.Order.{sort_json-twice}
use agentstrata.Storage.Codec.Sorting.{
  insert_count, insert_field, key_lt, sort_fields, sort_items, sort_json, sort_usage,
  sorted_session,
}
use agentstrata.Storage.Memory.Sessions.{mutated, truncated}
use agentstrata.Storage.Memory.State.{merge_usage}
use agentstrata.Storage.Model.{SessionRecord}
use agentstrata.Storage.Parsing.{items_of, parsed, usage_json, usage_of, values}

insert_field-usage_json :
    (k : String) (v : ℕ) (d : Dict String ℕ)
    → insert_field k (int (pos v)) (usage_json d) ≡ usage_json (insert_count k v d)
unfolding insert_field insert_count usage_json
insert_field-usage_json k v [] = refl
insert_field-usage_json k v ((j, w) ∷ d) = elim (Bool-cases (key_lt j k)) [
  | inl h ↦ rw h (ap (field j (int (pos w))) (insert_field-usage_json k v d))
  | inr h ↦ rw h refl
]

pub sort_fields-usage_json :
    (d : Dict String ℕ) → sort_fields (usage_json d) ≡ usage_json (sort_usage d)
unfolding sort_json sort_usage usage_json
sort_fields-usage_json [] = refl
sort_fields-usage_json ((k, v) ∷ d) =
    ap (insert_field k (int (pos v))) (sort_fields-usage_json d)
    ∙ insert_field-usage_json k v (sort_usage d)

pub values-items_of : (vs : List Json) → values (items_of vs) ≡ vs
unfolding values items_of
values-items_of [] = refl
values-items_of (v ∷ vs) = ap (◌∷◌ v) (values-items_of vs)

pub sort_items-items_of : (vs : List Json) → sort_items (items_of vs) ≡ items_of (map sort_json vs)
unfolding sort_json items_of
sort_items-items_of [] = refl
sort_items-items_of (v ∷ vs) = ap (cons (sort_json v)) (sort_items-items_of vs)

pub usage_of-usage_json : (usage : Dict String ℕ) → usage_of (usage_json usage) ≡ parsed usage
unfolding usage_of usage_json
usage_of-usage_json [] = refl
usage_of-usage_json ((k, n) ∷ usage) = rw (usage_of-usage_json usage) refl

parsed-injective : (d e : Dict String ℕ) → parsed d ≡ parsed e → d ≡ e
parsed-injective d e h = cc

fields_of : Json → Fields
fields_of (obj doc) = doc
fields_of _ = end

pub sort_usage-twice : (d : Dict String ℕ) → sort_usage (sort_usage d) ≡ sort_usage d
unfolding sort_json
sort_usage-twice d =
    let twice : sort_fields (sort_fields (usage_json d)) ≡ sort_fields (usage_json d) =
      let h = sort_json-twice (obj (usage_json d)) in cc in
    parsed-injective (sort_usage (sort_usage d)) (sort_usage d) (
      sym (usage_of-usage_json (sort_usage (sort_usage d)))
      ∙ ap usage_of (
          sym (sort_fields-usage_json (sort_usage d))
          ∙ ap sort_fields (sym (sort_fields-usage_json d))
          ∙ twice
          ∙ sort_fields-usage_json d)
      ∙ usage_of-usage_json (sort_usage d))

pub map-twice : (vs : List Json) → map sort_json (map sort_json vs) ≡ map sort_json vs
map-twice [] = refl
map-twice (v ∷ vs) = λ i. sort_json-twice v i ∷ map-twice vs i

pub sorted_session-twice :
    (r : SessionRecord) → sorted_session (sorted_session r) ≡ sorted_session r
unfolding sorted_session
sorted_session-twice r =
    λ i. record r { events = map-twice r.events i; usage = sort_usage-twice r.usage i }

map-append : (vs ws : List Json) → map sort_json (vs ++ ws) ≡ map sort_json vs ++ map sort_json ws
map-append [] ws = refl
map-append (v ∷ vs) ws = ap (◌∷◌ (sort_json v)) (map-append vs ws)

map-take : (n : ℕ) (vs : List Json) → map sort_json (take n vs) ≡ take n (map sort_json vs)
map-take zero vs = refl
map-take (suc n) [] = refl
map-take (suc n) (v ∷ vs) = ap (◌∷◌ (sort_json v)) (map-take n vs)

length-map : (vs : List Json) → length (map sort_json vs) ≡ length vs
length-map [] = refl
length-map (v ∷ vs) = ap suc (length-map vs)

merge_usage-sorted :
    (usage : Option (Dict String ℕ)) (d : Dict String ℕ)
    → sort_usage (merge_usage usage (sort_usage d)) ≡ sort_usage (merge_usage usage d)
unfolding merge_usage
merge_usage-sorted none d = sort_usage-twice d
merge_usage-sorted (some usage) d = add_usage-sorted usage (sort_usage d) d (sort_usage-twice d)

-- A mutation of the record with sorted keys differs from one of the record in their order only.
pub mutated-sorted :
    (r : SessionRecord) (events : Option (List Json)) (usage : Option (Dict String ℕ))
    (hist : Option Bool) (now : ℕ)
    → sorted_session (mutated (sorted_session r) events usage hist now)
      ≡ sorted_session (mutated r events usage hist now)
unfolding sorted_session mutated
mutated-sorted r events usage hist now =
    let new = get_or events [] in
    λ i. record (mutated r events usage hist now) {
      events =
          (map-append (map sort_json r.events) new
              ∙ ap (λ vs. vs ++ map sort_json new) (map-twice r.events)
              ∙ sym (map-append r.events new))
            i;
      usage = merge_usage-sorted usage r.usage i;
    }

pub truncated-sorted :
    (r : SessionRecord) (revision : ℕ)
    → sorted_session (truncated (sorted_session r) revision) ≡ sorted_session (truncated r revision)
unfolding sorted_session truncated
truncated-sorted r revision = λ i. record (truncated r revision) {
  events =
      (ap (λ n. map sort_json (take (n - (r.revision - revision)) (map sort_json r.events)))
            (length-map r.events)
          ∙ map-take (length r.events - (r.revision - revision)) (map sort_json r.events)
          ∙ ap (take (length r.events - (r.revision - revision))) (map-twice r.events)
          ∙ sym (map-take (length r.events - (r.revision - revision)) r.events))
        i;
  usage = sort_usage-twice r.usage i;
}
