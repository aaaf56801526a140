-- ===== src/Watcher/Components.antt =====
-- app/watcher/reload.py: the entries of the component dictionary under the manager's operations.
use mathlib.Core.Bool.{true≢false}
use agentstrata.Json.{Fields}
use agentstrata.Prelude.{
  Option, Option-cases, String, String_discrete, [], ap, eq_iff, false, if_neg, if_pos,
  if◌then◌else◌, inl, inr, ite, none, refl, some, str_eq, sym, true, ℕ, ◌∙◌, ◌∷◌, ◌≡◌, ◌≢◌,
}
use agentstrata.Prelude.Dict.{Dict, contains, get, get-put_ne, get-put_self, put}
use agentstrata.Watcher.Reload.{
  Part, ReloadManager, Services, adjust, adjusted, carry_over, config_part, generation_part,
  hash_part, object_part, stamp,
}

pub apart : (s t : String) → str_eq s t ≡ false → s ≢ t
apart s t h p = true≢false (sym ((eq_iff s t).1 p) ∙ h)

none_ne : {A : Type 0} {v : A} → none ≡ some v → ⊥
none_ne h = cc

module _ {X : Type 0} where
  adjusted-get_ne :
      (s : Services X) (key j : String) (f : X → X) (o : Option (Part X)) (d : Dict String (Part X))
      → key ≢ j
      → get String_discrete j (adjusted s key f o d) ≡ get String_discrete j d
  unfolding adjusted
  adjusted-get_ne s key j f none d h = refl
  adjusted-get_ne s key j f (some (generation_part n)) d h = refl
  adjusted-get_ne s key j f (some (hash_part t)) d h = refl
  adjusted-get_ne s key j f (some (config_part c)) d h = refl
  adjusted-get_ne s key j f (some (object_part x)) d h =
      get-put_ne String_discrete key j (object_part (f x)) d h

  pub adjust-get_ne :
      (s : Services X) (key j : String) (f : X → X) (d : Dict String (Part X))
      → key ≢ j
      → get String_discrete j (adjust s key f d) ≡ get String_discrete j d
  unfolding adjust
  adjust-get_ne s key j f d h = adjusted-get_ne s key j f (get String_discrete key d) d h

  -- An entry whose key is there already is skipped, another one is added.
  carry_over-skip :
      (s : Services X) (old new : Dict String (Part X)) (key : String) (v w : Part X)
      → get String_discrete key new ≡ some w
      → carry_over s ((key, v) ∷ old) new ≡ carry_over s old new
  unfolding carry_over contains
  carry_over-skip s old new key v w h = λ i.
      if elim (h i) [ none ↦ false | some _ ↦ true ]
      then carry_over s old new
      else carry_over s old (put String_discrete key v new)

  carry_over-add :
      (s : Services X) (old new : Dict String (Part X)) (key : String) (v : Part X)
      → get String_discrete key new ≡ none
      → carry_over s ((key, v) ∷ old) new ≡ carry_over s old (put String_discrete key v new)
  unfolding carry_over contains
  carry_over-add s old new key v h = λ i.
      if elim (h i) [ none ↦ false | some _ ↦ true ]
      then carry_over s old new
      else carry_over s old (put String_discrete key v new)

  pub carry_over-kept :
      (s : Services X) (old new : Dict String (Part X)) (j : String) (v : Part X)
      → get String_discrete j new ≡ some v
      → get String_discrete j (carry_over s old new) ≡ some v
  unfolding carry_over
  carry_over-kept s [] new j v h = h
  carry_over-kept s ((key, w) ∷ old) new j v h = elim (Option-cases (get String_discrete key new)) [
    | inl e ↦
        ap (get String_discrete j) (carry_over-add s old new key w e)
        ∙ carry_over-kept s old (put String_discrete key w new) j v (
            get-put_ne String_discrete key j w new
              (λ p. none_ne (sym e ∙ ap (λ k. get String_discrete k new) p ∙ h))
            ∙ h)
    | inr (u, e) ↦
        ap (get String_discrete j) (carry_over-skip s old new key w u e)
        ∙ carry_over-kept s old new j v h
  ]

  get-nil : (j : String) → get {V = Part X} String_discrete j [] ≡ none
  unfolding get
  get-nil j = refl

  get-cons :
      (key j : String) (value : Part X) (d : Dict String (Part X))
      → get String_discrete j ((key, value) ∷ d)
        ≡ ite (String_discrete key j) (some value) (get String_discrete j d)
  unfolding get
  get-cons key j value d = refl

  pub carry_over-old :
      (s : Services X) (old new : Dict String (Part X)) (j : String)
      → get String_discrete j new ≡ none
      → get String_discrete j (carry_over s old new) ≡ get String_discrete j old
  unfolding carry_over
  carry_over-old s [] new j h = h ∙ sym (get-nil j)
  carry_over-old s ((key, w) ∷ old) new j h = elim (String_discrete key j) [
    | yes p ↦
        ap (get String_discrete j)
          (carry_over-add s old new key w (ap (λ k. get String_discrete k new) p ∙ h))
        ∙ carry_over-kept s old (put String_discrete key w new) j w (
            ap (λ k. get String_discrete k (put String_discrete key w new)) (sym p)
            ∙ get-put_self String_discrete key w new)
        ∙ sym (get-cons key j w old ∙ if_pos (String_discrete key j) p _ _)
    | no p ↦
        elim (Option-cases (get String_discrete key new)) [
          | inl e ↦
              ap (get String_discrete j) (carry_over-add s old new key w e)
              ∙ carry_over-old s old (put String_discrete key w new) j
                  (get-put_ne String_discrete key j w new p ∙ h)
          | inr (u, e) ↦
              ap (get String_discrete j) (carry_over-skip s old new key w u e)
              ∙ carry_over-old s old new j h
        ]
        ∙ sym (get-cons key j w old ∙ if_neg (String_discrete key j) p _ _)
  ]

  -- The components carry the number and the hash of the manager's own generation.
  abbrev pub IsConsistent : Services X → ReloadManager X → Type 0
  IsConsistent s m =
      (get String_discrete "generation" m.components ≡ some (generation_part m.generation))
      × (get String_discrete "config_hash" m.components ≡ some (hash_part (s.config_hash m.config)))

  pub stamp-get :
      (s : Services X) (config : Fields) (n : ℕ) (d : Dict String (Part X))
      → (get String_discrete "generation" (stamp s config n d) ≡ some (generation_part n))
        × (get String_discrete "config_hash" (stamp s config n d)
            ≡ some (hash_part (s.config_hash config)))
  unfolding stamp
  stamp-get s config n d = (
    get-put_ne String_discrete "config" "generation" (config_part config) _
          (apart "config" "generation" refl)
        ∙ get-put_ne String_discrete "config_hash" "generation" (hash_part (s.config_hash config)) _
            (apart "config_hash" "generation" refl)
        ∙ get-put_self String_discrete "generation" (generation_part n) d,
    get-put_ne String_discrete "config" "config_hash" (config_part config) _
          (apart "config" "config_hash" refl)
        ∙ get-put_self String_discrete "config_hash" (hash_part (s.config_hash config)) _,
  )

  -- What a method call on the object of an entry makes of the entry.
  unfoldable pub with_object : (X → X) → Option (Part X) → Option (Part X)
  with_object f (some (object_part x)) = some (object_part (f x))
  with_object f o = o

  adjusted-get_self :
      (s : Services X) (key : String) (f : X → X) (o : Option (Part X)) (d : Dict String (Part X))
      → get String_discrete key d ≡ o
      → get String_discrete key (adjusted s key f o d) ≡ with_object f o
  unfolding adjusted with_object
  adjusted-get_self s key f none d h = h
  adjusted-get_self s key f (some (generation_part n)) d h = h
  adjusted-get_self s key f (some (hash_part t)) d h = h
  adjusted-get_self s key f (some (config_part c)) d h = h
  adjusted-get_self s key f (some (object_part x)) d h =
      get-put_self String_discrete key (object_part (f x)) d

  pub adjust-get_self :
      (s : Services X) (key : String) (f : X → X) (d : Dict String (Part X))
      → get String_discrete key (adjust s key f d) ≡ with_object f (get String_discrete key d)
  unfolding adjust
  adjust-get_self s key f d = adjusted-get_self s key f (get String_discrete key d) d refl

  -- The three entries that a new generation sets leave the others.
  pub stamp-get_ne :
      (s : Services X) (config : Fields) (n : ℕ) (d : Dict String (Part X)) (j : String)
      → "config" ≢ j
      → "config_hash" ≢ j
      → "generation" ≢ j
      → get String_discrete j (stamp s config n d) ≡ get String_discrete j d
  unfolding stamp
  stamp-get_ne s config n d j h k l =
      get-put_ne String_discrete "config" j (config_part config) _ h
      ∙ get-put_ne String_discrete "config_hash" j (hash_part (s.config_hash config)) _ k
      ∙ get-put_ne String_discrete "generation" j (generation_part n) d l
