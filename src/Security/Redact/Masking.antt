-- ===== src/Security/Redact/Masking.antt =====
-- app/security/redact.py: what a masked value still shows.
use agentstrata.Json.{
  Fields, Items, Json, arr, bool, cons, end, field, float, int, nil, null, obj, str,
}
use agentstrata.Prelude.{
  Bool, String, ap, arith, false, if◌then◌else◌, inl, inr, refl, true, ◌≡◌, ◌⊎◌,
}
use agentstrata.Security.Redact.{is_sensitive_key, mask_fields, mask_items, mask_value}
use agentstrata.Text.{Text}

module _ (lower : Text → Text) where
  -- Two values that differ only under sensitive keys.
  abbrev mutual
    pub Agree : Json → Json → Type 0
    Agree (arr xs) (arr ys) = AgreeItems xs ys
    Agree (obj fs) (obj gs) = AgreeFields fs gs
    Agree v w = v ≡ w

    pub AgreeItems : Items → Items → Type 0
    AgreeItems nil nil = Unit
    AgreeItems (cons v xs) (cons w ys) = Agree v w × AgreeItems xs ys
    AgreeItems _ _ = ⊥

    pub AgreeFields : Fields → Fields → Type 0
    AgreeFields end end = Unit
    AgreeFields (field k v fs) (field j w gs) =
        (k ≡ j) × ((is_sensitive_key lower k ≡ true) ⊎ Agree v w) × AgreeFields fs gs
    AgreeFields _ _ = ⊥

module _ (lower : Text → Text) (mask : String) where
  mutual
    unfolding mask_value mask_items mask_fields

    same_value : (v w : Json) → Agree lower v w → mask_value lower mask v ≡ mask_value lower mask w
    same_value (arr xs) (arr ys) h = ap arr (same_items xs ys h)
    same_value (obj fs) (obj gs) h = ap obj (same_fields fs gs h)
    same_value v w h = ap (mask_value lower mask) h

    same_items :
        (xs ys : Items)
        → AgreeItems lower xs ys
        → mask_items lower mask xs ≡ mask_items lower mask ys
    same_items nil nil h = refl
    same_items (cons v xs) (cons w ys) h =
        let p = same_value v w h.0 in let q = same_items xs ys h.1 in cc
    same_items _ _ h = absurd h

    same_fields :
        (fs gs : Fields)
        → AgreeFields lower fs gs
        → mask_fields lower mask fs ≡ mask_fields lower mask gs
    same_fields end end h = refl
    same_fields (field k v fs) (field j w gs) h =
        let q = same_fields fs gs h.2 in
        elim h.1 [
          | inl secret ↦ ground arith
          | inr same ↦ let p = same_value v w same in ground arith
        ]
    same_fields _ _ h = absurd h

  -- The value that a field gets, masked again, for a key that is sensitive or not.
  entry_again :
      (sensitive : Bool) (v : Json)
      → mask_value lower mask (mask_value lower mask v) ≡ mask_value lower mask v
      → (if sensitive
          then str mask
          else mask_value lower mask (if sensitive then str mask else mask_value lower mask v))
        ≡ (if sensitive then str mask else mask_value lower mask v)
  entry_again true v p = refl
  entry_again false v p = p

  mutual
    unfolding mask_value mask_items mask_fields

    again_value :
        (v : Json) → mask_value lower mask (mask_value lower mask v) ≡ mask_value lower mask v
    again_value null = refl
    again_value (bool b) = refl
    again_value (int n) = refl
    again_value (float f) = refl
    again_value (str s) = refl
    again_value (arr xs) = ap arr (again_items xs)
    again_value (obj fs) = ap obj (again_fields fs)

    again_items :
        (xs : Items) → mask_items lower mask (mask_items lower mask xs) ≡ mask_items lower mask xs
    again_items nil = refl
    again_items (cons v xs) = let p = again_value v in let q = again_items xs in cc

    again_fields :
        (fs : Fields)
        → mask_fields lower mask (mask_fields lower mask fs) ≡ mask_fields lower mask fs
    again_fields end = refl
    again_fields (field k v fs) =
        let p = again_value v in
        let e = entry_again (is_sensitive_key lower k) v p in let q = again_fields fs in cc

  -- Masking keeps no trace of what stands under a sensitive key, at any depth: two values that
  -- differ only there are masked to the same value, and masking what is masked changes nothing.
  pub mask_value-hides :
      (v w : Json)
      → Agree lower v w
      → (mask_value lower mask v ≡ mask_value lower mask w)
        × (mask_value lower mask (mask_value lower mask v) ≡ mask_value lower mask v)
  mask_value-hides v w h = (same_value v w h, again_value v)
