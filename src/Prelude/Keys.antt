-- ===== src/Prelude/Keys.antt =====
-- Dictionaries that hold each key once, as Python's do.
use mathlib.Core.Path.{◌≡◌, refl}
use mathlib.Core.Bool.{Bool}
use mathlib.Core.Option.{Option, none, some}
use mathlib.Core.List.{[], ◌∷◌, map}
use native.Mathlib.Omega.{arith}
use agentstrata.Prelude.Tests.{if◌then◌else◌}
use agentstrata.Prelude.Lists.{keep_if}
use agentstrata.Prelude.Dict.{Dict, get, put, pop, get-put, get-pop}

-- What is left of a looked-up value under a test.
abbrev pub kept {ℓ} : {V : Type ℓ} → (V → Bool) → Option V → Option V
kept p none = none
kept p (some v) = if p v then some v else none

module _ {ℓ} {K V : Type ℓ} (dec : Discrete K) where
  -- Each key stands once.
  abbrev pub IsDict : Dict K V → Type ℓ
  IsDict [] = Unit
  IsDict ((k, v) ∷ d) = (get dec k d ≡ none) × IsDict d

  pub put-IsDict : (k : K) (v : V) (d : Dict K V) → IsDict d → IsDict (put dec k v d)
  unfolding get put
  put-IsDict k v [] h = (refl, tt)
  put-IsDict k v ((j, w) ∷ d) h = elim (dec j k) [
    | yes p ↦ ground (arith, h.0, h.1)
    | no p ↦ ground (arith, get-put dec k j v d, put-IsDict k v d h.1, h.0)
  ]

  pub pop-IsDict : (k : K) (d : Dict K V) → IsDict d → IsDict (pop dec k d)
  unfolding get pop
  pop-IsDict k [] h = tt
  pop-IsDict k ((j, w) ∷ d) h = elim (dec j k) [
    | yes p ↦ ground (arith, pop-IsDict k d h.1)
    | no p ↦ ground (arith, get-pop dec k j d, pop-IsDict k d h.1, h.0)
  ]

  get-keep_if-none :
      (p : K × V → Bool) (k : K) (d : Dict K V)
      → get dec k d ≡ none
      → get dec k (keep_if p d) ≡ none
  unfolding get keep_if
  get-keep_if-none p k [] h = refl
  get-keep_if-none p k ((j, w) ∷ d) h = ground (arith, get-keep_if-none p k d)

  pub keep_if-IsDict : (p : K × V → Bool) (d : Dict K V) → IsDict d → IsDict (keep_if p d)
  unfolding keep_if
  keep_if-IsDict p [] h = tt
  keep_if-IsDict p ((k, v) ∷ d) h =
      ground (arith, get-keep_if-none p k d h.0, keep_if-IsDict p d h.1)

  -- With each key once, a lookup in the entries that pass a test is the test on what was there.
  pub get-keep_if_value :
      (p : K × V → Bool) (k : K) (d : Dict K V)
      → IsDict d
      → get dec k (keep_if p d) ≡ kept (λ v. p (k, v)) (get dec k d)
  unfolding get keep_if
  get-keep_if_value p k [] h = refl
  get-keep_if_value p k ((j, w) ∷ d) h =
      ground (arith, get-keep_if_value p k d h.1, get-keep_if-none p j d h.0, h.0)

  pub get-map_value :
      (f : K → V → V) (k : K) (d : Dict K V)
      → get dec k (map (λ e. (e.0, f e.0 e.1)) d)
        ≡ elim (get dec k d) [ none ↦ none | some v ↦ some (f k v) ]
  unfolding get
  get-map_value f k [] = refl
  get-map_value f k ((j, w) ∷ d) = ground (arith, get-map_value f k d)

  pub map-IsDict :
      (f : K → V → V) (d : Dict K V) → IsDict d → IsDict (map (λ e. (e.0, f e.0 e.1)) d)
  map-IsDict f [] h = tt
  map-IsDict f ((k, v) ∷ d) h = ground (arith, get-map_value f k d, map-IsDict f d h.1, h.0)
