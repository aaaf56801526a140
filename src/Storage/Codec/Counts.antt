-- ===== src/Storage/Codec/Counts.antt =====
-- app/storage/model.py: sorting the keys of a usage keeps its counts, and commutes with adding.
-- A write to sorted counts.
use mathlib.Core.Bool.{true≢false}
use agentstrata.Prelude.{
  Bool-cases, String, String_discrete, [], ap, arith, false, get_or, if_neg, if_pos, if◌then◌else◌,
  inl, inr, ite, refl, some, subst, sym, true, ℕ, ◌+◌, ◌∙◌, ◌∷◌, ◌≡◌, ◌≢◌,
}
use agentstrata.Prelude.Dict.{Dict, get, put}
use agentstrata.Storage.Codec.Order.{key_lt-asym, key_lt-between, key_lt_irrefl, key_lt-total}
use agentstrata.Storage.Codec.Sorting.{insert_count, key_lt, sort_usage}
use agentstrata.Storage.Memory.State.{add_usage}

unfoldable put_count : String → ℕ → Dict String ℕ → Dict String ℕ
unfolding String_discrete
put_count k v [] = (k, v) ∷ []
put_count k v ((j, w) ∷ d) =
    let rest = put_count k v d in
    ite (String_discrete j k) ((j, v) ∷ d)
      (if key_lt j k then (j, w) ∷ rest else (k, v) ∷ (j, w) ∷ d)

apart_lt : (j k : String) → key_lt j k ≡ true → j ≢ k
apart_lt j k h p = true≢false (sym h ∙ ap (λ x. key_lt x k) p ∙ key_lt_irrefl k)

put_count-same :
    (j k : String) (v w : ℕ) (d : Dict String ℕ) → j ≡ k → put_count k v ((j, w) ∷ d) ≡ (j, v) ∷ d
unfolding put_count
put_count-same j k v w d p = if_pos (String_discrete j k) p _ _

put_count-before :
    (j k : String) (v w : ℕ) (d : Dict String ℕ)
    → j ≢ k
    → key_lt j k ≡ false
    → put_count k v ((j, w) ∷ d) ≡ (k, v) ∷ (j, w) ∷ d
unfolding put_count
put_count-before j k v w d n h = if_neg (String_discrete j k) n _ _ ∙ rw h refl

put_count-after :
    (j k : String) (v w : ℕ) (d : Dict String ℕ)
    → key_lt j k ≡ true
    → put_count k v ((j, w) ∷ d) ≡ (j, w) ∷ put_count k v d
unfolding put_count
put_count-after j k v w d h = if_neg (String_discrete j k) (apart_lt j k h) _ _ ∙ rw h refl

insert_count-after :
    (j k : String) (v w : ℕ) (d : Dict String ℕ)
    → key_lt j k ≡ true
    → insert_count k v ((j, w) ∷ d) ≡ (j, w) ∷ insert_count k v d
unfolding insert_count
insert_count-after j k v w d h = rw h refl

insert_count-before :
    (j k : String) (v w : ℕ) (d : Dict String ℕ)
    → key_lt j k ≡ false
    → insert_count k v ((j, w) ∷ d) ≡ (k, v) ∷ (j, w) ∷ d
unfolding insert_count
insert_count-before j k v w d h = rw h refl

-- A write to a key that was inserted replaces its count.
put_count-insert_same :
    (k : String) (v w : ℕ) (s : Dict String ℕ)
    → put_count k v (insert_count k w s) ≡ insert_count k v s
unfolding insert_count
put_count-insert_same k v w [] = put_count-same k k v w [] refl
put_count-insert_same k v w ((x, u) ∷ s) = elim (Bool-cases (key_lt x k)) [
  | inl h ↦ rw h (
      put_count-after x k v u (insert_count k w s) h
      ∙ ap (◌∷◌ (x, u)) (put_count-insert_same k v w s))
  | inr h ↦ rw h (put_count-same k k v w ((x, u) ∷ s) refl)
]

-- A write to another key and an insertion do not see each other.
put_count-insert_ne :
    (j k : String) (v w : ℕ) (s : Dict String ℕ)
    → j ≢ k
    → insert_count j w (put_count k v s) ≡ put_count k v (insert_count j w s)
unfolding insert_count put_count
put_count-insert_ne j k v w [] n = ground (arith, key_lt-asym j k, key_lt-total j k)
put_count-insert_ne j k v w ((x, u) ∷ s) n = elim (String_discrete x k) [
  | yes p ↦
      let same : key_lt x j ≡ key_lt k j = ap (λ z. key_lt z j) p in
      ground (arith, key_lt-asym j k, key_lt-total j k)
  | no p ↦ ground (
    arith,
    put_count-insert_ne j k v w s n,
    key_lt-asym j k,
    key_lt-total j k,
    key_lt-between x j k,
    key_lt-between x k j,
  )
]

sort_usage-put :
    (k : String) (v : ℕ) (d : Dict String ℕ)
    → sort_usage (put String_discrete k v d) ≡ put_count k v (sort_usage d)
unfolding sort_usage put put_count
sort_usage-put k v [] = refl
sort_usage-put k v ((j, w) ∷ d) = elim (String_discrete j k) [
  | yes p ↦
      ap sort_usage (if_pos (String_discrete j k) p _ _)
      ∙ subst
          (λ i. insert_count i v (sort_usage d) ≡ put_count k v (insert_count i w (sort_usage d)))
          (sym p) (sym (put_count-insert_same k v w (sort_usage d)))
  | no p ↦
      ap sort_usage (if_neg (String_discrete j k) p _ _)
      ∙ ap (insert_count j w) (sort_usage-put k v d)
      ∙ put_count-insert_ne j k v w (sort_usage d) p
]

get-insert_count :
    (j k : String) (v : ℕ) (d : Dict String ℕ)
    → get String_discrete k (insert_count j v d)
      ≡ ite (String_discrete j k) (some v) (get String_discrete k d)
unfolding insert_count get
get-insert_count j k v [] = refl
get-insert_count j k v ((x, u) ∷ d) = ground (arith, get-insert_count j k v d, apart_lt x j)

-- Sorting the keys changes no count.
pub get-sort_usage :
    (k : String) (d : Dict String ℕ)
    → get String_discrete k (sort_usage d) ≡ get String_discrete k d
unfolding sort_usage get
get-sort_usage k [] = refl
get-sort_usage k ((j, v) ∷ d) =
    get-insert_count j k v (sort_usage d)
    ∙ ap (ite (String_discrete j k) (some v)) (get-sort_usage k d)

pub add_usage-sorted :
    (usage d e : Dict String ℕ)
    → sort_usage d ≡ sort_usage e
    → sort_usage (add_usage usage d) ≡ sort_usage (add_usage usage e)
unfolding add_usage
add_usage-sorted [] d e h = h
add_usage-sorted ((k, v) ∷ usage) d e h =
    let same : get String_discrete k d ≡ get String_discrete k e =
      sym (get-sort_usage k d) ∙ ap (get String_discrete k) h ∙ get-sort_usage k e in
    let n : ℕ = get_or (get String_discrete k d) 0 + v in
    let m : ℕ = get_or (get String_discrete k e) 0 + v in
    add_usage-sorted usage (put String_discrete k n d) (put String_discrete k m e) (
      sort_usage-put k n d
      ∙ (λ i. put_count k (get_or (same i) 0 + v) (h i))
      ∙ sym (sort_usage-put k m e))
