-- ===== src/Lifecycle/Examples.antt =====
-- app/lifecycle.py: tests, and the theorems at concrete values.
-- One run that ends in time, and one that is admitted while the first is waited for.
use agentstrata.Lifecycle.{
  Closing, Run, ShutdownManager, after_snapshot, all_completed, cancelled, close_components,
  close_safe, drain_after_grace, drain_from, drain_wait, drained, exit_code, is_pending,
  new_shutdown, pending, request_shutdown, signal, storage_label,
}
use agentstrata.Lifecycle.Grace.{drain_from-grace}
use agentstrata.Lifecycle.Signals.{IsOrderly, Reaches, Reaches-IsOrderly, at_start, next}
use agentstrata.Prelude.{
  List, [], arith, false, keep_if, none, refl, some, true, ℕ, ◌∷◌, ◌≡◌, ◌≤◌, ◌⊎◌,
}

abbrev early : List Run
early = record { admitted = 2; finished = 13 } ∷ record { admitted = 12; finished = 15 } ∷ []

test_early : drain_from 10 30 early ≡ some 15
unfolding drain_from drain_wait after_snapshot pending is_pending all_completed keep_if
test_early = refl

test_no_runs : drain_from 10 30 [] ≡ some 40
unfolding drain_from drain_wait after_snapshot pending keep_if
test_no_runs = refl

abbrev endless : List Run
endless = record { admitted = 2; finished = 90 } ∷ early

test_endless : cancelled 40 endless ≡ record { admitted = 2; finished = 90 } ∷ []
unfolding cancelled pending is_pending keep_if
test_endless = refl

drain_from-grace_example :
    (t : ℕ) × (drain_from 10 30 endless ≡ some t)
    × (10 ≤ t)
    × (t ≤ 40)
    × ((t ≡ 40) ⊎ (cancelled t endless ≡ []))
drain_from-grace_example = drain_from-grace 10 30 endless

-- The storage does not close.
abbrev full_disk : Closing
full_disk = record { watcher = none; mcp = some true; storage = some false; otel = some true }

test_close : close_components full_disk ≡ (false, storage_label ∷ [])
unfolding close_components close_safe
test_close = refl

abbrev drained_once : ShutdownManager
drained_once = drain_after_grace full_disk true (request_shutdown new_shutdown)

test_exit_code : exit_code drained_once ≡ 1
unfolding exit_code drain_after_grace close_components close_safe
test_exit_code = refl

signalled : Reaches full_disk true (request_shutdown new_shutdown)
unfolding new_shutdown
signalled = next new_shutdown (request_shutdown new_shutdown) at_start (signal new_shutdown refl)

Reaches-IsOrderly_example : IsOrderly drained_once
unfolding new_shutdown request_shutdown
Reaches-IsOrderly_example = Reaches-IsOrderly full_disk true drained_once (
    next (request_shutdown new_shutdown) drained_once signalled
      (drained (request_shutdown new_shutdown) refl (omega arith)))
