-- ===== src/Lifecycle/Grace.antt =====
-- app/lifecycle.py: the wait for the runs, and what it cancels.
-- A run that is pending finishes later.
use agentstrata.Lifecycle.{
  Run, after_snapshot, all_completed, cancelled, drain_from, drain_wait, is_pending, pending,
}
use agentstrata.Prelude.{
  Bool, Bool-cases, List, Option, [], arith, false, inl, inr, keep_if, leb, refl, some, suc, true,
  zero, ℕ, ◌+◌, ◌-◌, ◌∷◌, ◌≡◌, ◌≤◌, ◌⊎◌,
}

later : (now : ℕ) (run : Run) → is_pending now run ≡ true → suc now ≤ run.finished
unfolding is_pending
later now run h = ground arith

all_completed-later :
    (now : ℕ) (runs : List Run)
    → (pending now runs ≡ []) ⊎ (suc now ≤ all_completed (pending now runs))
unfolding pending keep_if all_completed
all_completed-later now [] = inl refl
all_completed-later now (run ∷ runs) = elim (Bool-cases (is_pending now run)) [
  | inl h ↦ let l = later now run h in inr (rw h (omega arith))
  | inr h ↦ elim (all_completed-later now runs) [ inl e ↦ inl (rw h e) | inr l ↦ inr (rw h l) ]
]

-- The wait ends from `now` on, at the deadline or when no run is left to cancel.
abbrev Ends : ℕ → ℕ → List Run → Option ℕ → Type 0
Ends now deadline runs o =
    (t : ℕ) × (o ≡ some t) × (now ≤ t) × (t ≤ deadline) × ((t ≡ deadline) ⊎ (cancelled t runs ≡ []))

after_snapshot-Ends :
    (first : Bool) (now grace deadline : ℕ) (runs found : List Run) (rest : Option ℕ)
    → cancelled now runs ≡ found
    → now ≤ deadline
    → (first ≡ false) ⊎ (now + grace ≡ deadline)
    → (found ≡ []) ⊎ (suc now ≤ all_completed found)
    → (suc now ≤ all_completed found → all_completed found ≤ deadline → Ends now deadline runs rest)
    → Ends now deadline runs (after_snapshot first now grace deadline found rest)
unfolding after_snapshot
after_snapshot-Ends true now grace deadline runs [] rest e n (inl f) l more = absurd cc
after_snapshot-Ends true now grace deadline runs [] rest e n (inr g) l more =
    (now + grace, refl, omega arith, omega arith, inl g)
after_snapshot-Ends false now grace deadline runs [] rest e n f l more =
    (now, refl, omega arith, n, inr e)
after_snapshot-Ends first now grace deadline runs (run ∷ found) rest e n f l more =
    let pending_run : suc now ≤ all_completed (run ∷ found) = elim l [
      | inl empty ↦ absurd cc
      | inr below ↦ below
    ] in
    elim (Bool-cases (leb deadline now)) [
      | inl over ↦ rw over (now, refl, omega arith, n, inl (ground arith))
      | inr left ↦ elim (Bool-cases (leb (all_completed (run ∷ found)) deadline)) [
        | inl soon ↦ rw (left, soon) (more pending_run (ground arith))
        | inr late ↦ rw (left, late) (deadline, refl, n, omega arith, inl refl)
      ]
    ]

drain_wait-Ends :
    (fuel : ℕ) (first : Bool) (now grace deadline : ℕ) (runs : List Run)
    → suc (deadline - now) ≤ fuel
    → now ≤ deadline
    → (first ≡ false) ⊎ (now + grace ≡ deadline)
    → Ends now deadline runs (drain_wait fuel first now grace deadline runs)
unfolding drain_wait cancelled
drain_wait-Ends zero first now grace deadline runs f n s = absurd (omega arith)
drain_wait-Ends (suc fuel) first now grace deadline runs f n s =
    after_snapshot-Ends first now grace deadline runs (pending now runs) _ refl n s
      (all_completed-later now runs)
      (λ l soon.
        let (t, e, after_now, d, r) =
          drain_wait-Ends fuel false (all_completed (pending now runs)) grace deadline runs
            (omega arith) soon (inl refl) in
        (t, e, omega arith, d, r))

-- The wait of a drain always ends, at the latest when the grace is over, and a run is cancelled
-- only then: where the wait ends earlier, no run is left to cancel.
pub drain_from-grace :
    (start grace : ℕ) (runs : List Run)
    → (t : ℕ) × (drain_from start grace runs ≡ some t)
      × (start ≤ t)
      × (t ≤ start + grace)
      × ((t ≡ start + grace) ⊎ (cancelled t runs ≡ []))
unfolding drain_from
drain_from-grace start grace runs =
    drain_wait-Ends (grace + 1) true start grace (start + grace) runs (omega arith) (omega arith)
      (inr refl)
