-- ===== src/Storage/Memory/Bounds.antt =====
-- app/storage/memory.py: every reachable backend keeps the bounds on runs and records.
use agentstrata.Json.{Fields}
use agentstrata.Prelude.{
  List, Option, Option-cases, String, [], arith, count_if, get_or, inl, inr, refl, ℕ, ◌∷◌,
}
use agentstrata.Prelude.Dict.{get, put}
use agentstrata.Storage.Contract.{StorageSettings}
use agentstrata.Storage.Memory.Approvals.{create_approval, decide_approval, expire_approvals}
use agentstrata.Storage.Memory.Capacity.{
  IsBounded, create_idempotency-IsBounded, delete_session-IsBounded, expire_idempotency-IsBounded,
  finish_idempotency-IsBounded, same-IsBounded, store_run-IsBounded, sweep-IsBounded,
  update_run-IsBounded,
}
use agentstrata.Storage.Memory.Commands.{
  Command, Event, acquire_fence_cmd, admit_run_cmd, after, apply, call, create_approval_cmd,
  create_idempotency_cmd, create_run_cmd, create_session_cmd, decide_approval_cmd,
  delete_session_cmd, expire_idempotency_cmd, expired, finish_idempotency_cmd, mutate_session_cmd,
  release_fence_cmd, renew_fence_cmd, shut, step, steps, swept, truncate_cmd, update_run_cmd,
}
use agentstrata.Storage.Memory.Fences.{acquire_fence, release_fence, renew_fence}
use agentstrata.Storage.Memory.Runs.{admit_into, admit_locked, admit_run, create_run, store_run}
use agentstrata.Storage.Memory.Sessions.{
  create_session, insert_session, mutate_session, new_session, truncate_session_events,
}
use agentstrata.Storage.Memory.State.{MemoryBackend, close, init}
use agentstrata.Storage.Model.{RunKey, SessionRecord, key_discrete, run_key_discrete}

create_run-IsBounded :
    (rkey : RunKey) (input : Fields) (now : ℕ) (b : MemoryBackend)
    → IsBounded b
    → IsBounded (after (create_run rkey input now b))
unfolding create_run
create_run-IsBounded rkey input now b h = elim (Option-cases (get key_discrete rkey.0 b.sessions)) [
  | inl e ↦ rw (e, create_run, after) h
  | inr (s, e) ↦ elim (Option-cases (get run_key_discrete rkey b.runs)) [
    | inl f ↦ rw (e, f, create_run, after) (store_run-IsBounded rkey input now b h)
    | inr (r, f) ↦ rw (e, f, create_run, after) h
  ]
]

admit_into-IsBounded :
    (rkey : RunKey) (input : Fields) (now : ℕ) (s : SessionRecord) (b : MemoryBackend)
    → IsBounded b
    → IsBounded (after (admit_into rkey input now s b))
unfolding admit_into
admit_into-IsBounded rkey input now s b h = elim (Option-cases (get run_key_discrete rkey b.runs)) [
  | inl f ↦
      let stored = store_run-IsBounded rkey input now b h in
      same-IsBounded (after (store_run rkey input now b)) (after (admit_into rkey input now s b))
        (ground arith) (ground arith) (ground arith) stored
  | inr (r, f) ↦ rw (f, admit_into, after) h
]

admit_locked-IsBounded :
    (rkey : RunKey) (input : Fields) (now : ℕ) (b : MemoryBackend)
    → IsBounded b
    → IsBounded (after (admit_locked rkey input now b))
unfolding admit_locked
admit_locked-IsBounded rkey input now b h =
    elim (Option-cases (get key_discrete rkey.0 b.sessions)) [
      | inl e ↦
          let s = new_session rkey.0 [] now in
          let c = record b { sessions = put key_discrete rkey.0 s b.sessions } in
          rw (e, admit_locked, after)
            (admit_into-IsBounded rkey input now s c (same-IsBounded b c refl refl refl h))
      | inr (s, e) ↦ rw (e, admit_locked, after) (admit_into-IsBounded rkey input now s b h)
    ]

admit_run-IsBounded :
    (a p : String) (s : Option String) (fresh i : String) (input : Fields) (now : ℕ)
    (b : MemoryBackend)
    → IsBounded b
    → IsBounded (after (admit_run a p s fresh i input now b))
unfolding admit_run
admit_run-IsBounded a p s fresh i input now b h =
    ground (arith, h, admit_locked-IsBounded ((a, p, get_or s fresh), i) input now b)

apply-IsBounded : (c : Command) (b : MemoryBackend) → IsBounded b → IsBounded (apply c b)
unfolding apply
apply-IsBounded (create_session_cmd a p s fresh events now) b h =
    unfold create_session insert_session in
    same-IsBounded b _ (ground arith) (ground arith) (ground arith) h
apply-IsBounded (mutate_session_cmd k rev events usage hist now) b h =
    unfold mutate_session in same-IsBounded b _ (ground arith) (ground arith) (ground arith) h
apply-IsBounded (truncate_cmd k rev) b h =
    unfold truncate_session_events in
    same-IsBounded b _ (ground arith) (ground arith) (ground arith) h
apply-IsBounded (delete_session_cmd k) b h = delete_session-IsBounded k b h
apply-IsBounded (create_run_cmd k input now) b h = create_run-IsBounded k input now b h
apply-IsBounded (admit_run_cmd a p s fresh i input now) b h =
    admit_run-IsBounded a p s fresh i input now b h
apply-IsBounded (update_run_cmd k status n outcome usage now) b h =
    update_run-IsBounded k status n outcome usage now b h
apply-IsBounded (create_idempotency_cmd k ttl now) b h = create_idempotency-IsBounded k ttl now b h
apply-IsBounded (finish_idempotency_cmd k status outcome) b h =
    finish_idempotency-IsBounded k status outcome b h
apply-IsBounded (expire_idempotency_cmd k) b h = expire_idempotency-IsBounded k b h
apply-IsBounded (acquire_fence_cmd k token ttl now) b h =
    unfold acquire_fence in same-IsBounded b _ (ground arith) (ground arith) (ground arith) h
apply-IsBounded (renew_fence_cmd k token ttl now) b h =
    unfold renew_fence in same-IsBounded b _ (ground arith) (ground arith) (ground arith) h
apply-IsBounded (release_fence_cmd k token) b h =
    unfold release_fence in same-IsBounded b _ (ground arith) (ground arith) (ground arith) h
apply-IsBounded (create_approval_cmd k req now) b h =
    unfold create_approval in same-IsBounded b _ refl refl refl h
apply-IsBounded (decide_approval_cmd k decision reason now) b h =
    unfold decide_approval in same-IsBounded b _ (ground arith) (ground arith) (ground arith) h

step-IsBounded : (e : Event) (b : MemoryBackend) → IsBounded b → IsBounded (step e b)
unfolding step
step-IsBounded (call c) b h = apply-IsBounded c b h
step-IsBounded (swept now) b h = sweep-IsBounded now b h
step-IsBounded (expired now) b h = unfold expire_approvals in same-IsBounded b _ refl refl refl h
step-IsBounded shut b h = unfold close in same-IsBounded b _ refl refl refl h

steps-IsBounded : (es : List Event) (b : MemoryBackend) → IsBounded b → IsBounded (steps es b)
unfolding steps
steps-IsBounded [] b h = h
steps-IsBounded (e ∷ es) b h = steps-IsBounded es (step e b) (step-IsBounded e b h)

-- Whatever happens to a fresh backend, no session ever has more runs than `max_runs_per_session`
-- nor more idempotency records than `max_idempotency_records_per_session`.
pub reachable-IsBounded :
    (settings : StorageSettings) (es : List Event) → IsBounded (steps es (init settings))
unfolding init count_if
reachable-IsBounded settings es =
    steps-IsBounded es (init settings)
      (record { runs = λ key. omega arith; idempotency = λ key. omega arith })
