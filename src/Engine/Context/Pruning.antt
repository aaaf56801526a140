-- ===== src/Engine/Context/Pruning.antt =====
-- app/engine/context.py: what is kept is the longest recent part that fits.
use agentstrata.Engine.Context.{
  Message, context_length_exceeded, drop_oldest, drop_oldest_tokens, msg_bytes, prune_history,
  pruned, sum_sizes, trim_to_context_window,
}
use agentstrata.Prelude.{
  Bool-cases, List, [], ap, arith, dec_lt, false, inl, inr, length, ltb, max, refl, true, ℕ, ◌++◌,
  ◌+◌, ◌-◌, ◌<◌, ◌||◌, ◌∷◌, ◌≡◌, ◌≤◌, ◌⊎◌,
}

-- `kept` are the most recent of `all`; they fit; and with one more message they would not.
pub record IsLongestSuffix {ℓ} {M : Type ℓ} (Fits : List M → Type 0) (all kept : List M)
    : Type ℓ where
  pub dropped : List M
  pub splits : all ≡ dropped ++ kept
  pub fits : Fits kept
  pub longest : (older : List M) (m : M) → dropped ≡ older ++ m ∷ [] → ¬ Fits (m ∷ kept)

-- Both bounds of `prune_history`, with the pending message counted in.
pub record FitsHistory (max_messages max_bytes pending : ℕ) (kept : List Message) : Type 0 where
  pub messages : length kept + 1 ≤ max_messages
  pub bytes : sum_sizes msg_bytes kept + pending ≤ max_bytes

snoc-cons {ℓ} :
    {M : Type ℓ} (x : M) (xs older : List M) (m : M)
    → x ∷ xs ≡ older ++ m ∷ []
    → ((older ≡ []) × (xs ≡ []) × (m ≡ x)) ⊎ ((older' : List M) × (xs ≡ older' ++ m ∷ []))
snoc-cons x xs [] m h = inl (refl, ground arith, ground arith)
snoc-cons x xs (y ∷ older) m h = inr (older, ground arith)

not-nil-snoc {ℓ} : {M : Type ℓ} (older : List M) (m : M) → [] ≡ older ++ m ∷ [] → ⊥
not-nil-snoc [] m e = cc
not-nil-snoc (x ∷ older) m e = cc

module _ {ℓ} {M : Type ℓ} (Fits : List M → Type 0) where
  -- Nothing is dropped if everything fits.
  keep_all : (all : List M) → Fits all → IsLongestSuffix Fits all all
  keep_all all h = record {
    dropped = [];
    splits = refl;
    fits = h;
    longest = λ older m e _. not-nil-snoc older m e;
  }

  -- One more message in front, with which everything no longer fits, is dropped too.
  drop_first :
      (x : M) (all kept : List M)
      → IsLongestSuffix Fits all kept
      → ¬ Fits (x ∷ all)
      → IsLongestSuffix Fits (x ∷ all) kept
  drop_first x all kept h over = record {
    dropped = x ∷ h.dropped;
    splits = ap (◌∷◌ x) h.splits;
    fits = h.fits;
    longest = λ older m e f. elim (snoc-cons x h.dropped older m e) [
      | inl (first, nothing, same) ↦ over (rw (← same, h.splits, nothing) f)
      | inr (older', more) ↦ h.longest older' m more f
    ];
  }

over_bounds :
    (mm mb pending : ℕ) (kept : List Message)
    → (ltb mm (length kept + 1) || ltb mb (sum_sizes msg_bytes kept + pending)) ≡ true
    → ¬ FitsHistory mm mb pending kept
over_bounds mm mb pending kept h f = ground (arith, f.messages, f.bytes)

in_bounds :
    (mm mb pending : ℕ) (kept : List Message)
    → (ltb mm (length kept + 1) || ltb mb (sum_sizes msg_bytes kept + pending)) ≡ false
    → FitsHistory mm mb pending kept
in_bounds mm mb pending kept h = record { messages = ground arith; bytes = ground arith }

drop_oldest-IsLongestSuffix :
    (mm mb pending : ℕ) (all : List Message)
    → pending ≤ mb
    → 1 ≤ mm
    → IsLongestSuffix
        (FitsHistory mm mb pending)
        all
        (drop_oldest mm mb (sum_sizes msg_bytes all + pending) all)
unfolding drop_oldest sum_sizes
drop_oldest-IsLongestSuffix mm mb pending [] h g =
    keep_all (FitsHistory mm mb pending) [] (omega arith)
drop_oldest-IsLongestSuffix mm mb pending (x ∷ all) h g =
    let size = sum_sizes msg_bytes (x ∷ all) + pending in
    let step : size - msg_bytes x ≡ sum_sizes msg_bytes all + pending = omega arith in
    let ih = drop_oldest-IsLongestSuffix mm mb pending all h g in
    elim (Bool-cases (ltb mm (length (x ∷ all) + 1) || ltb mb size)) [
      | inl over ↦
          rw (over, step)
            (drop_first (FitsHistory mm mb pending) x all _ ih
              (over_bounds mm mb pending (x ∷ all) over))
      | inr fit ↦
          rw fit
            (keep_all (FitsHistory mm mb pending) (x ∷ all) (in_bounds mm mb pending (x ∷ all) fit))
    ]

-- With a bound of at least one message, `prune_history` raises exactly if the pending message
-- alone is too large. Otherwise it keeps the longest recent part of the history that, with the
-- pending message, is within both bounds.
pub prune_history-cases :
    (persisted : List Message) (pending_user : Message) (max_messages max_bytes : ℕ)
    → 1 ≤ max_messages
    → ((max_bytes < msg_bytes pending_user)
        × (prune_history persisted pending_user max_messages max_bytes ≡ context_length_exceeded))
      ⊎ ((kept : List Message) × (msg_bytes pending_user ≤ max_bytes)
          × (prune_history persisted pending_user max_messages max_bytes ≡ pruned kept)
          × IsLongestSuffix
              (FitsHistory max_messages max_bytes (msg_bytes pending_user))
              persisted
              kept)
unfolding prune_history
prune_history-cases persisted pending_user mm mb g =
    let pending = msg_bytes pending_user in
    elim (dec_lt mb pending) [
      | yes over ↦ inl (over, ground arith)
      | no fits ↦ inr (
        drop_oldest mm mb (sum_sizes msg_bytes persisted + pending) persisted,
        omega arith,
        ground arith,
        drop_oldest-IsLongestSuffix mm mb pending persisted (omega arith) g,
      )
    ]

-- The bound of `trim_to_context_window`, with the pending message counted in.
abbrev pub FitsWindow {ℓ} : {M : Type ℓ} → (M → ℕ) → ℕ → List M → Type 0
FitsWindow estimate room kept = sum_sizes estimate kept ≤ room

module _ {ℓ} {M : Type ℓ} (estimate : M → ℕ) where
  drop_oldest_tokens-IsLongestSuffix :
      (budget pending : ℕ) (all : List M)
      → pending ≤ budget
      → IsLongestSuffix
          (FitsWindow estimate (budget - pending))
          all
          (drop_oldest_tokens estimate budget (sum_sizes estimate all + pending) all)
  unfolding drop_oldest_tokens sum_sizes
  drop_oldest_tokens-IsLongestSuffix budget pending [] h =
      keep_all (FitsWindow estimate (budget - pending)) [] (omega arith)
  drop_oldest_tokens-IsLongestSuffix budget pending (x ∷ all) h =
      let size = sum_sizes estimate (x ∷ all) + pending in
      let step : size - estimate x ≡ sum_sizes estimate all + pending = omega arith in
      let ih = drop_oldest_tokens-IsLongestSuffix budget pending all h in
      elim (Bool-cases (ltb budget size)) [
        | inl over ↦
            rw (over, step)
              (drop_first (FitsWindow estimate (budget - pending)) x all _ ih (λ f. ground arith))
        | inr fit ↦
            rw fit (keep_all (FitsWindow estimate (budget - pending)) (x ∷ all) (ground arith))
      ]

  -- With a known context window, `trim_to_context_window` raises if the reserved output, of at least
  -- one token, leaves no room in the window or the pending message does not fit beside it.
  -- Otherwise it keeps the longest recent part of the history that fits beside both.
  pub trim_to_context_window-cases :
      (history : List M) (pending_user : M) (window reserved : ℕ)
      → 0 < window
      → (((window ≤ max reserved 1) ⊎ (window < estimate pending_user + max reserved 1))
          × (trim_to_context_window history pending_user window reserved estimate
              ≡ context_length_exceeded))
        ⊎ ((kept : List M) × (max reserved 1 < window)
            × (estimate pending_user + max reserved 1 ≤ window)
            × (trim_to_context_window history pending_user window reserved estimate ≡ pruned kept)
            × IsLongestSuffix
                (FitsWindow estimate (window - max reserved 1 - estimate pending_user))
                history
                kept)
  unfolding trim_to_context_window
  trim_to_context_window-cases history pending_user window reserved g =
      let reserve = max reserved 1 in
      let pending = estimate pending_user in
      elim (dec_lt reserve window) [
        | no full ↦ inl (inl (omega arith), ground arith)
        | yes room ↦ elim (dec_lt window (pending + reserve)) [
          | yes over ↦ inl (inr (omega arith), ground arith)
          | no fits ↦ inr (
            drop_oldest_tokens estimate (window - reserve) (sum_sizes estimate history + pending)
                history,
            room,
            omega arith,
            ground arith,
            drop_oldest_tokens-IsLongestSuffix (window - reserve) pending history (omega arith),
          )
        ]
      ]
