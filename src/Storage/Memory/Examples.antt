-- ===== src/Storage/Memory/Examples.antt =====
-- app/storage/memory.py: tests of the backend on small inputs, and the theorems at concrete
-- states.
use agentstrata.Json.{end, field, str}
use agentstrata.Prelude.{
  String, [], arith, false, inr, map, none, refl, some, true, ◌++◌, ◌+◌, ◌<◌, ◌∷◌, ◌≡◌, ◌≢◌, ◌≤◌,
  ◌⊎◌,
}
use agentstrata.Storage.Contract.{
  capacity_error, ok, raise, revision_conflict, seconds, session_busy, session_not_found,
}
use agentstrata.Storage.Memory.Admission.{Adds, IsStuck, IsVictim, Replaces, create_run-admits}
use agentstrata.Storage.Memory.Approvals.{decide_approval, get_approval}
use agentstrata.Storage.Memory.Bounds.{reachable-IsBounded}
use agentstrata.Storage.Memory.Capacity.{IsBounded, run_count}
use agentstrata.Storage.Memory.Commands.{
  acquire_fence_cmd, apply, call, delete_session_cmd, expired, release_fence_cmd, steps,
}
use agentstrata.Storage.Memory.Decisions.{decide_approval-first}
use agentstrata.Storage.Memory.Deletion.{delete_session-cases}
use agentstrata.Storage.Memory.Exclusion.{acquire_fence-exclusive}
use agentstrata.Storage.Memory.Fences.{acquire_fence, current_fence}
use agentstrata.Storage.Memory.Fencing.{acquire_fence-lt, counter}
use agentstrata.Storage.Memory.Fixtures.{
  alice, alice-ne-bob, approved, asked, bob, ended, ended-IsBounded, ended-IsWellFormed, ended_run,
  first_fence, hello, next_run, not_pending, open_alice, opened, opened-IsWellFormed, operations,
  owners, ran, second_fence, settings, start_run, written,
}
use agentstrata.Storage.Memory.Idempotency.{get_idempotency}
use agentstrata.Storage.Memory.Isolation.{apply-Unaffected, steps-Unaffected}
use agentstrata.Storage.Memory.Isolation.View.{Unaffected}
use agentstrata.Storage.Memory.LostUpdate.{mutate_session-once}
use agentstrata.Storage.Memory.Retention.{sweep-run, sweep-session}
use agentstrata.Storage.Memory.Revisions.{mutate_session-cases}
use agentstrata.Storage.Memory.Runs.{create_run, get_run, new_run}
use agentstrata.Storage.Memory.Sessions.{
  delete_session, get_session, has_live_run, mutate_session, new_session,
}
use agentstrata.Storage.Memory.State.{init}
use agentstrata.Storage.Memory.Sweep.{sweep}
use agentstrata.Storage.Model.{RunRecord, SessionRecord, terminal}

test_open : get_session alice opened ≡ some (new_session alice [] 0)
unfolding operations
test_open = refl

test_capacity : (create_run (alice, "r2") end 3 ran).0 ≡ raise capacity_error
unfolding operations
test_capacity = refl

test_evict : get_run (alice, "r1") (create_run (alice, "r2") end 3 ended).1 ≡ none
unfolding operations
test_evict = refl

apply-Unaffected_example : Unaffected bob opened (apply (delete_session_cmd alice) opened)
apply-Unaffected_example = apply-Unaffected (delete_session_cmd alice) bob opened alice-ne-bob

steps-Unaffected_example :
    Unaffected bob opened
      (steps (map call (delete_session_cmd alice ∷ acquire_fence_cmd alice "t1" 10 3 ∷ [])) opened)
steps-Unaffected_example =
    steps-Unaffected (delete_session_cmd alice ∷ acquire_fence_cmd alice "t1" 10 3 ∷ []) bob opened
      (owners, (owners, tt))

acquire_fence-lt_example : first_fence.fencing_number < second_fence.fencing_number
unfolding operations
acquire_fence-lt_example =
    acquire_fence-lt alice "t1" "t2" 10 10 0 20 opened first_fence second_fence
      (call (release_fence_cmd alice "t1") ∷ []) ((λ d. d), tt) refl refl

acquire_fence-exclusive_example :
    acquire_fence alice "t2" 10 7 (
      steps
        (call (acquire_fence_cmd alice "t2" 10 3) ∷ [])
        (acquire_fence alice "t1" 10 0 opened).1)
    ≡ (
      ok none,
      steps
          (call (acquire_fence_cmd alice "t2" 10 3) ∷ [])
          (acquire_fence alice "t1" 10 0 opened).1,
    )
unfolding operations
acquire_fence-exclusive_example =
    acquire_fence-exclusive alice "t1" "t2" 10 10 0 7 opened first_fence
      (call (acquire_fence_cmd alice "t2" 10 3) ∷ []) refl (inr (omega arith), tt) (omega arith)

decide_approval-first_example :
    (approved.status ≡ "approved")
    × (get_approval alice
          (steps (expired 9000000 ∷ []) (decide_approval alice "approved" none 5 asked).1)
        ≡ some approved)
    × (decide_approval alice "denied" none 6
          (steps (expired 9000000 ∷ []) (decide_approval alice "approved" none 5 asked).1)
        ≡ (ok none, steps (expired 9000000 ∷ []) (decide_approval alice "approved" none 5 asked).1))
unfolding operations
decide_approval-first_example =
    decide_approval-first alice "approved" "denied" none none 5 6 asked approved
      (expired 9000000 ∷ []) refl not_pending ((λ d. d), tt)

mutate_session-cases_example :
    ((get_session alice opened ≡ none)
      × (mutate_session alice 1 (some hello) none none 4 opened
          ≡ (raise session_not_found, opened)))
    ⊎ ((r : SessionRecord) × (get_session alice opened ≡ some r)
        × (r.revision ≢ 1)
        × (mutate_session alice 1 (some hello) none none 4 opened
            ≡ (raise revision_conflict, opened)))
    ⊎ ((r : SessionRecord) × (s : SessionRecord) × (get_session alice opened ≡ some r)
        × (r.revision ≡ 1)
        × ((mutate_session alice 1 (some hello) none none 4 opened).0 ≡ ok s)
        × (get_session alice (mutate_session alice 1 (some hello) none none 4 opened).1 ≡ some s)
        × (s.events ≡ r.events ++ hello)
        × (s.revision ≡ 1 + 1)
        × (s.updated_at ≡ 4))
mutate_session-cases_example = mutate_session-cases alice 1 hello none none 4 opened

mutate_session-once_example :
    mutate_session alice 1 none none none 5
      (steps (expired 5 ∷ []) (mutate_session alice 1 (some hello) none none 4 opened).1)
    ≡ (
      raise revision_conflict,
      steps (expired 5 ∷ []) (mutate_session alice 1 (some hello) none none 4 opened).1,
    )
unfolding operations
mutate_session-once_example =
    mutate_session-once alice 1 (some hello) none none none none none 4 5 opened written
      (expired 5 ∷ []) refl ((λ d. d), tt)

delete_session-cases_example :
    ((get_session alice ended ≡ none) × (delete_session alice ended ≡ (ok false, ended)))
    ⊎ ((has_live_run alice ended ≡ true)
        × (delete_session alice ended ≡ (raise session_busy, ended)))
    ⊎ ((has_live_run alice ended ≡ false)
        × ((delete_session alice ended).0 ≡ ok true)
        × (get_session alice (delete_session alice ended).1 ≡ none)
        × ((id : String) → get_run (alice, id) (delete_session alice ended).1 ≡ none)
        × ((id : String) → get_idempotency (alice, id) (delete_session alice ended).1 ≡ none)
        × (current_fence alice (delete_session alice ended).1 ≡ none)
        × (counter alice (delete_session alice ended).1 ≡ 0))
delete_session-cases_example = delete_session-cases alice ended

reachable-IsBounded_example : IsBounded (steps (open_alice ∷ start_run ∷ []) (init settings))
reachable-IsBounded_example = reachable-IsBounded settings (open_alice ∷ start_run ∷ [])

create_run-admits_example :
    (IsStuck next_run.0 ended × (create_run next_run end 3 ended ≡ (raise capacity_error, ended)))
    ⊎ ((run_count next_run.0 ended.runs < ended.settings.max_runs_per_session)
        × ((create_run next_run end 3 ended).0 ≡ ok (new_run next_run end 3))
        × Adds next_run (new_run next_run end 3) ended (create_run next_run end 3 ended).1)
    ⊎ ((t : RunRecord) × IsVictim next_run.0 ended t
        × ((create_run next_run end 3 ended).0 ≡ ok (new_run next_run end 3))
        × Replaces next_run
            (next_run.0, t.key.1)
            (new_run next_run end 3)
            ended
            (create_run next_run end 3 ended).1)
unfolding operations
create_run-admits_example =
    create_run-admits next_run end 3 ended (new_session alice [] 0) ended-IsWellFormed
      ended-IsBounded refl refl

sweep-session_example :
    ((0 < opened.settings.session_ttl_seconds)
      × ((new_session alice [] 0).updated_at + seconds opened.settings.session_ttl_seconds
          < 20000000)
      × (current_fence alice opened ≡ none)
      × (has_live_run alice opened ≡ false)
      × (get_session alice (sweep 20000000 opened).1 ≡ none))
    ⊎ (((opened.settings.session_ttl_seconds ≡ 0)
          ⊎ (20000000
              ≤ (new_session alice [] 0).updated_at + seconds opened.settings.session_ttl_seconds)
          ⊎ (current_fence alice opened ≢ none)
          ⊎ (has_live_run alice opened ≡ true))
        × (get_session alice (sweep 20000000 opened).1 ≡ some (new_session alice [] 0)))
unfolding operations
sweep-session_example =
    sweep-session 20000000 alice opened (new_session alice [] 0) opened-IsWellFormed refl

sweep-run_example :
    ((ended_run.updated_at + seconds ended.settings.run_ttl_seconds < 20000000)
      × (terminal ended_run ≡ true)
      × (get_run (alice, "r1") (sweep 20000000 ended).1 ≡ none))
    ⊎ ((ended_run.updated_at + seconds ended.settings.run_ttl_seconds < 20000000)
        × (terminal ended_run ≡ false)
        × (get_run (alice, "r1") (sweep 20000000 ended).1
            ≡ some (record ended_run {
              status = "failed";
              outcome = field "error_code" (str "run_interrupted") end;
              updated_at = 20000000;
            })))
    ⊎ ((20000000 ≤ ended_run.updated_at + seconds ended.settings.run_ttl_seconds)
        × (get_run (alice, "r1") (sweep 20000000 ended).1 ≡ some ended_run))
unfolding operations
sweep-run_example = sweep-run 20000000 (alice, "r1") ended ended_run ended-IsWellFormed refl
