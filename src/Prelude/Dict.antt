-- ===== src/Prelude/Dict.antt =====
-- Python's `dict`: an association list in insertion order. A write to a present key keeps its
-- place, a write to a new key goes to the end.
use Prim.Native.Nat.{◌+◌, ◌≤◌, ◌<◌}
use mathlib.Core.Path.{◌≡◌, refl}
use mathlib.Core.Logic.{ite, ◌≢◌}
use mathlib.Core.Bool.{Bool, true, false}
use mathlib.Core.Option.{Option, none, some}
use mathlib.Core.List.{List, [], ◌∷◌}
use native.Mathlib.Omega.{arith}
use agentstrata.Prelude.Tests.{if◌then◌else◌}
use agentstrata.Prelude.Lists.{keep_if, count_if}

abbrev pub Dict {ℓ} : Type ℓ → Type ℓ → Type ℓ
Dict K V = List (K × V)

module _ {ℓ} {K V : Type ℓ} (dec : Discrete K) where
  -- d.get(k)
  unfoldable pub get : K → Dict K V → Option V
  get k [] = none
  get k ((j, v) ∷ d) = ite (dec j k) (some v) (get k d)

  -- d[k] = v
  unfoldable pub put : K → V → Dict K V → Dict K V
  put k v [] = (k, v) ∷ []
  put k v ((j, w) ∷ d) = ite (dec j k) ((j, v) ∷ d) ((j, w) ∷ put k v d)

  -- d.pop(k, None)
  unfoldable pub pop : K → Dict K V → Dict K V
  pop k [] = []
  pop k ((j, w) ∷ d) = let rest = pop k d in ite (dec j k) rest ((j, w) ∷ rest)

  pub get-put :
      (k j : K) (v : V) (d : Dict K V) → get j (put k v d) ≡ ite (dec k j) (some v) (get j d)
  unfolding get put
  get-put k j v [] = refl
  get-put k j v ((i, w) ∷ d) = ground (arith, get-put k j v d)

  pub get-pop : (k j : K) (d : Dict K V) → get j (pop k d) ≡ ite (dec k j) none (get j d)
  unfolding get pop
  get-pop k j [] = ground arith
  get-pop k j ((i, w) ∷ d) = ground (arith, get-pop k j d)

  -- k in d
  unfoldable pub contains : K → Dict K V → Bool
  contains k d = elim (get k d) [ none ↦ false | some v ↦ true ]

  -- Entries dropped by a test on keys alone: a lookup sees the test on its own key.
  pub get-keep_if :
      (p : K → Bool) (j : K) (d : Dict K V)
      → get j (keep_if (λ e. p e.0) d) ≡ (if p j then get j d else none)
  unfolding get keep_if
  get-keep_if p j [] = ground arith
  get-keep_if p j ((i, w) ∷ d) = ground (arith, get-keep_if p j d)

  -- The entries whose key passes a test: a write adds at most one, and none if the key is there.
  pub count_if-put :
      (p : K → Bool) (k : K) (v : V) (d : Dict K V)
      → count_if (λ e. p e.0) (put k v d)
        ≡ (if contains k d then 0 else if p k then 1 else 0) + count_if (λ e. p e.0) d
  unfolding get put contains count_if
  count_if-put p k v [] = ground arith
  count_if-put p k v ((i, w) ∷ d) = ground (arith, count_if-put p k v d)

  pub count_if-pop-le :
      (p : K → Bool) (k : K) (d : Dict K V)
      → count_if (λ e. p e.0) (pop k d) ≤ count_if (λ e. p e.0) d
  unfolding pop count_if
  count_if-pop-le p k [] = omega arith
  count_if-pop-le p k ((i, w) ∷ d) = ground (arith, count_if-pop-le p k d)

  -- A deletion of a key that is there and passes the test drops at least one entry.
  pub count_if-pop-lt :
      (p : K → Bool) (k : K) (d : Dict K V)
      → contains k d ≡ true
      → p k ≡ true
      → count_if (λ e. p e.0) (pop k d) < count_if (λ e. p e.0) d
  unfolding get pop contains count_if
  count_if-pop-lt p k [] h q = cc
  count_if-pop-lt p k ((i, w) ∷ d) h q =
      ground (arith, count_if-pop-lt p k d, count_if-pop-le p k d)

  -- A write or a deletion at another key is not seen.
  pub get-put_ne : (k j : K) (v : V) (d : Dict K V) → k ≢ j → get j (put k v d) ≡ get j d
  get-put_ne k j v d h = ground (arith, get-put k j v d)

  pub get-pop_ne : (k j : K) (d : Dict K V) → k ≢ j → get j (pop k d) ≡ get j d
  get-pop_ne k j d h = ground (arith, get-pop k j d)

  pub get-put_self : (k : K) (v : V) (d : Dict K V) → get k (put k v d) ≡ some v
  get-put_self k v d = ground (arith, get-put k k v d)
