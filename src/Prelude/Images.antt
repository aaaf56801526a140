-- ===== src/Prelude/Images.antt =====
-- Two dictionaries, one under the images of the other's keys.
use mathlib.Core.Path.{◌≡◌, ap}
use mathlib.Core.Logic.{if_neg, if_pos}
use mathlib.Core.Option.{Option, none, some}
use agentstrata.Prelude.Dict.{Dict, get, get-pop, get-put, pop, put}

module _ {ℓ} {K L V W : Type ℓ} (k_dec : Discrete K) (l_dec : Discrete L) (image : K → L) where
  -- If `v` and `w` correspond, they still do once both are stored.
  pub put_image :
      (F : Option V → Option W) (k j : K) (v : V) (w : W) (d : Dict L W) (e : Dict K V)
      → (image k ≡ image j → k ≡ j)
      → some w ≡ F (some v)
      → get l_dec (image j) d ≡ F (get k_dec j e)
      → get l_dec (image j) (put l_dec (image k) w d) ≡ F (get k_dec j (put k_dec k v e))
  put_image F k j v w d e inj h rest = elim (k_dec k j) [
    | yes p ↦
        rw
          (
            get-put l_dec (image k) (image j) w d,
            get-put k_dec k j v e,
            if_pos (l_dec (image k) (image j)) (ap image p),
            if_pos (k_dec k j) p,
          )
          h
    | no p ↦
        rw
          (
            get-put l_dec (image k) (image j) w d,
            get-put k_dec k j v e,
            if_neg (l_dec (image k) (image j)) (λ q. p (inj q)),
            if_neg (k_dec k j) p,
          )
          rest
  ]

  -- And after the deletion of both.
  pub pop_image :
      (F : Option V → Option W) (k j : K) (d : Dict L W) (e : Dict K V)
      → (image k ≡ image j → k ≡ j)
      → none ≡ F none
      → get l_dec (image j) d ≡ F (get k_dec j e)
      → get l_dec (image j) (pop l_dec (image k) d) ≡ F (get k_dec j (pop k_dec k e))
  pop_image F k j d e inj h rest = elim (k_dec k j) [
    | yes p ↦
        rw
          (
            get-pop l_dec (image k) (image j) d,
            get-pop k_dec k j e,
            if_pos (l_dec (image k) (image j)) (ap image p),
            if_pos (k_dec k j) p,
          )
          h
    | no p ↦
        rw
          (
            get-pop l_dec (image k) (image j) d,
            get-pop k_dec k j e,
            if_neg (l_dec (image k) (image j)) (λ q. p (inj q)),
            if_neg (k_dec k j) p,
          )
          rest
  ]
