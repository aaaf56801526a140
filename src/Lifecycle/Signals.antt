-- ===== src/Lifecycle/Signals.antt =====
-- app/lifecycle.py: the order of signals and drains.
-- A manager that `Happens` reaches from a new one.
use agentstrata.Lifecycle.{
  Closing, Happens, ShutdownManager, drain_after_grace, drained, new_shutdown, request_shutdown,
  signal,
}
use agentstrata.Prelude.{
  Bool, Bool-cases, arith, false, inl, inr, leb, none, refl, some, true, ℕ, ◌+◌, ◌≡◌, ◌≤◌, ◌⊎◌,
}

pub data Reaches (c : Closing) (has_server : Bool) : ShutdownManager → Type 0 where
  at_start : Reaches c has_server new_shutdown
  next :
      (s t : ShutdownManager)
      → Reaches c has_server s
      → Happens c has_server s t
      → Reaches c has_server t

-- 1 where it holds.
abbrev pub one_if : Bool → ℕ
one_if true = 1
one_if false = 0

-- The first signal drains and starts the drain task, only its end closes the components, and the
-- second signal ends the process.
abbrev pub IsOrderly : ShutdownManager → Type 0
IsOrderly s =
    (s.draining ≡ leb 1 s.signals)
    × (s.drain_tasks + one_if s.closed ≡ one_if s.draining)
    × (((s.exited ≡ none) × (s.signals ≤ 1)) ⊎ ((s.exited ≡ some 1) × (s.signals ≡ 2)))

request_shutdown-IsOrderly :
    (s : ShutdownManager) → s.exited ≡ none → IsOrderly s → IsOrderly (request_shutdown s)
unfolding request_shutdown
request_shutdown-IsOrderly s alive (d, tasks, inr (e, two)) = absurd cc
request_shutdown-IsOrderly s alive (d, tasks, inl (e, few)) =
    elim (Bool-cases (leb 2 (s.signals + 1))) [
      | inl second ↦ rw second (ground arith, tasks, inr (refl, ground arith))
      | inr first ↦ elim (Bool-cases s.draining) [
        | inl on ↦ absurd (ground arith)
        | inr off ↦ rw (first, off) (ground arith, ground arith, inl (e, ground arith))
      ]
    ]

one_if-le : (b : Bool) → one_if b ≤ 1
one_if-le true = omega arith
one_if-le false = omega arith

drain_after_grace-IsOrderly :
    (c : Closing) (has_server : Bool) (s : ShutdownManager)
    → 1 ≤ s.drain_tasks
    → IsOrderly s
    → IsOrderly (drain_after_grace c has_server s)
unfolding drain_after_grace
drain_after_grace-IsOrderly c has_server s tasks (d, count, ends) =
    let le = one_if-le s.draining in (d, omega arith, ends)

-- In every manager that signals and ends of drains reach from a new one: it drains exactly if a
-- signal has come; then there is one drain task, until it has closed the components, and never
-- a second one; and the process either lives after one signal at most, or has exited with code
-- 1 at the second signal.
pub Reaches-IsOrderly :
    (c : Closing) (has_server : Bool) (s : ShutdownManager) → Reaches c has_server s → IsOrderly s
unfolding new_shutdown
Reaches-IsOrderly c has_server s at_start = (refl, refl, inl (refl, omega arith))
Reaches-IsOrderly c has_server s (next s0 s1 r (signal s2 alive)) =
    request_shutdown-IsOrderly s2 alive (Reaches-IsOrderly c has_server s2 r)
Reaches-IsOrderly c has_server s (next s0 s1 r (drained s2 alive tasks)) =
    drain_after_grace-IsOrderly c has_server s2 tasks (Reaches-IsOrderly c has_server s2 r)
