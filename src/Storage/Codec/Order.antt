-- ===== src/Storage/Codec/Order.antt =====
-- app/storage/model.py: sorting keys twice sorts them once, and a write of a count sees no order.
use agentstrata.Json.{
  Fields, Items, Json, arr, bool, cons, end, field, float, int, nil, null, obj, str,
}
use agentstrata.Prelude.{
  Bool-cases, String, [], ap, arith, false, inl, inr, refl, true, ◌∙◌, ◌∷◌, ◌≡◌, ◌⊎◌,
}
use agentstrata.Storage.Codec.Sorting.{insert_field, key_lt, sort_fields, sort_items, sort_json}
use agentstrata.Storage.Codes.{codes-injective}
use agentstrata.Storage.Model.{codes}
use agentstrata.Text.{Text, text_lt}

text_lt-asym : (a b : Text) → text_lt a b ≡ true → text_lt b a ≡ false
unfolding text_lt
text_lt-asym a [] h = absurd cc
text_lt-asym [] (d ∷ b) h = refl
text_lt-asym (c ∷ a) (d ∷ b) h = ground (arith, text_lt-asym a b)

text_lt-between : (a b c : Text) → text_lt a c ≡ true → (text_lt a b ≡ true) ⊎ (text_lt b c ≡ true)
unfolding text_lt
text_lt-between a b [] h = absurd cc
text_lt-between a [] (z ∷ c) h = inr refl
text_lt-between [] (y ∷ b) (z ∷ c) h = inl refl
text_lt-between (x ∷ a) (y ∷ b) (z ∷ c) h = ground (arith, text_lt-between a b c)

text_lt-total : (a b : Text) → text_lt a b ≡ false → text_lt b a ≡ false → a ≡ b
unfolding text_lt
text_lt-total [] [] h k = refl
text_lt-total (c ∷ a) [] h k = absurd cc
text_lt-total [] (d ∷ b) h k = absurd cc
text_lt-total (c ∷ a) (d ∷ b) h k = ground (arith, text_lt-total a b)

pub key_lt-asym : (a b : String) → key_lt a b ≡ true → key_lt b a ≡ false
unfolding key_lt
key_lt-asym a b = text_lt-asym (codes a) (codes b)

pub key_lt-between :
    (a b c : String) → key_lt a c ≡ true → (key_lt a b ≡ true) ⊎ (key_lt b c ≡ true)
unfolding key_lt
key_lt-between a b c = text_lt-between (codes a) (codes b) (codes c)

pub key_lt-total : (a b : String) → key_lt a b ≡ false → key_lt b a ≡ false → a ≡ b
unfolding key_lt
key_lt-total a b h k = codes-injective a b (text_lt-total (codes a) (codes b) h k)

pub key_lt_irrefl : (a : String) → key_lt a a ≡ false
key_lt_irrefl a = elim (Bool-cases (key_lt a a)) [ inl h ↦ key_lt-asym a a h | inr h ↦ h ]

-- The first key of the fields, if any, is not smaller than `k`.
abbrev StartsAbove : String → Fields → Type 0
StartsAbove k end = Unit
StartsAbove k (field j w doc) = key_lt j k ≡ false

abbrev IsSorted : Fields → Type 0
IsSorted end = Unit
IsSorted (field k v doc) = StartsAbove k doc × IsSorted doc

insert_field-above :
    (k : String) (v : Json) (j : String) (doc : Fields)
    → key_lt k j ≡ false
    → StartsAbove j doc
    → StartsAbove j (insert_field k v doc)
unfolding insert_field
insert_field-above k v j end h s = h
insert_field-above k v j (field i w doc) h s = elim (Bool-cases (key_lt i k)) [
  | inl e ↦ rw e s
  | inr e ↦ rw e h
]

insert_field-IsSorted :
    (k : String) (v : Json) (doc : Fields) → IsSorted doc → IsSorted (insert_field k v doc)
unfolding insert_field
insert_field-IsSorted k v end s = (tt, tt)
insert_field-IsSorted k v (field j w doc) s = elim (Bool-cases (key_lt j k)) [
  | inl e ↦
      rw e (insert_field-above k v j doc (key_lt-asym j k e) s.0, insert_field-IsSorted k v doc s.1)
  | inr e ↦ rw e (e, s)
]

sort_fields-IsSorted : (doc : Fields) → IsSorted (sort_fields doc)
unfolding sort_fields
sort_fields-IsSorted end = tt
sort_fields-IsSorted (field k v doc) =
    insert_field-IsSorted k (sort_json v) (sort_fields doc) (sort_fields-IsSorted doc)

insert_field-first :
    (k : String) (v : Json) (doc : Fields)
    → StartsAbove k doc
    → insert_field k v doc ≡ field k v doc
unfolding insert_field
insert_field-first k v end h = refl
insert_field-first k v (field j w doc) h = rw h refl

-- Every value in the fields is sorted already.
abbrev HasSorted : Fields → Type 0
HasSorted end = Unit
HasSorted (field k v doc) = (sort_json v ≡ v) × HasSorted doc

insert_field-HasSorted :
    (k : String) (v : Json) (doc : Fields)
    → sort_json v ≡ v
    → HasSorted doc
    → HasSorted (insert_field k v doc)
unfolding insert_field
insert_field-HasSorted k v end h s = (h, tt)
insert_field-HasSorted k v (field j w doc) h s = elim (Bool-cases (key_lt j k)) [
  | inl e ↦ rw e (s.0, insert_field-HasSorted k v doc h s.1)
  | inr e ↦ rw e (h, s)
]

sorted-same : (doc : Fields) → IsSorted doc → HasSorted doc → sort_fields doc ≡ doc
unfolding sort_fields
sorted-same end s h = refl
sorted-same (field k v doc) s h =
    ap (λ w. insert_field k w (sort_fields doc)) h.0
    ∙ ap (insert_field k v) (sorted-same doc s.1 h.1)
    ∙ insert_field-first k v doc s.0

mutual
  unfolding sort_json

  pub sort_json-twice : (v : Json) → sort_json (sort_json v) ≡ sort_json v
  sort_json-twice (arr items) = ap arr (sort_items-twice items)
  sort_json-twice (obj doc) =
      ap obj (sorted-same (sort_fields doc) (sort_fields-IsSorted doc) (sort_fields-HasSorted doc))
  sort_json-twice null = refl
  sort_json-twice (bool b) = refl
  sort_json-twice (int n) = refl
  sort_json-twice (float f) = refl
  sort_json-twice (str s) = refl

  sort_items-twice : (items : Items) → sort_items (sort_items items) ≡ sort_items items
  sort_items-twice nil = refl
  sort_items-twice (cons v items) = λ i. cons (sort_json-twice v i) (sort_items-twice items i)

  sort_fields-HasSorted : (doc : Fields) → HasSorted (sort_fields doc)
  sort_fields-HasSorted end = tt
  sort_fields-HasSorted (field k v doc) =
      insert_field-HasSorted k (sort_json v) (sort_fields doc) (sort_json-twice v)
        (sort_fields-HasSorted doc)
