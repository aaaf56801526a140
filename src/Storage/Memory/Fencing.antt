-- ===== src/Storage/Memory/Fencing.antt =====
-- app/storage/memory.py: the fence of a session has one holder at a time, and its numbers grow.
use agentstrata.Json.{Fields}
use agentstrata.Prelude.{All, List, String, [], arith, get_or, some, ℕ, ◌+◌, ◌<◌, ◌∷◌, ◌≡◌, ◌≤◌}
use agentstrata.Prelude.Dict.{get, get-pop_ne, get-put, get-put_self}
use agentstrata.Storage.Contract.{ok}
use agentstrata.Storage.Memory.Approvals.{create_approval, decide_approval, expire_approvals}
use agentstrata.Storage.Memory.Commands.{
  Command, Event, acquire_fence_cmd, admit_run_cmd, after, apply, call, create_approval_cmd,
  create_idempotency_cmd, create_run_cmd, create_session_cmd, decide_approval_cmd,
  delete_session_cmd, expire_idempotency_cmd, expired, finish_idempotency_cmd, mutate_session_cmd,
  release_fence_cmd, renew_fence_cmd, shut, step, steps, swept, truncate_cmd, update_run_cmd,
}
use agentstrata.Storage.Memory.Fences.{acquire_fence, release_fence, renew_fence}
use agentstrata.Storage.Memory.Idempotency.{
  create_idempotency, expire_idempotency, finish_idempotency,
}
use agentstrata.Storage.Memory.Runs.{
  admit_into, admit_locked, admit_run, create_run, enforce_run_capacity, store_run, update_run,
}
use agentstrata.Storage.Memory.Sessions.{
  create_session, delete_session, insert_session, mutate_session, truncate_session_events,
}
use agentstrata.Storage.Memory.State.{MemoryBackend, close}
use agentstrata.Storage.Memory.Sweep.{sweep}
use agentstrata.Storage.Model.{Fence, RunKey, SessionKey, SessionRecord, key_discrete}

-- The last fencing number that was drawn for a session.
unfoldable pub counter : SessionKey → MemoryBackend → ℕ
unfolding key_discrete
counter key b = get_or (get key_discrete key b.fence_counters) 0

-- The event removes the session.
abbrev pub Deletes : SessionKey → Event → Type 0
Deletes key (call (delete_session_cmd k)) = k ≡ key
Deletes key _ = ⊥

counter-store_run :
    (key : SessionKey) (rkey : RunKey) (input : Fields) (now : ℕ) (b : MemoryBackend)
    → counter key (after (store_run rkey input now b)) ≡ counter key b
unfolding counter store_run enforce_run_capacity
counter-store_run key rkey input now b = ground arith

counter-admit_into :
    (key : SessionKey) (rkey : RunKey) (input : Fields) (now : ℕ) (r : SessionRecord)
    (b : MemoryBackend)
    → counter key (after (admit_into rkey input now r b)) ≡ counter key b
unfolding counter admit_into store_run enforce_run_capacity
counter-admit_into key rkey input now r b = ground arith

counter-apply-le :
    (c : Command) (key : SessionKey) (b : MemoryBackend)
    → ¬ Deletes key (call c)
    → counter key b ≤ counter key (apply c b)
unfolding counter apply
counter-apply-le (create_session_cmd a p s fresh events now) key b h =
    unfold create_session insert_session in ground arith
counter-apply-le (mutate_session_cmd k rev events usage hist now) key b h =
    unfold mutate_session in ground arith
counter-apply-le (truncate_cmd k rev) key b h = unfold truncate_session_events in ground arith
counter-apply-le (delete_session_cmd k) key b h =
    unfold delete_session in ground (arith, get-pop_ne key_discrete k key b.fence_counters h)
counter-apply-le (create_run_cmd k input now) key b h =
    unfold create_run store_run enforce_run_capacity in ground arith
counter-apply-le (admit_run_cmd a p s fresh i input now) key b h =
    unfold admit_run admit_locked admit_into store_run enforce_run_capacity in ground arith
counter-apply-le (update_run_cmd k status n outcome usage now) key b h =
    unfold update_run in ground arith
counter-apply-le (create_idempotency_cmd k ttl now) key b h =
    unfold create_idempotency in ground arith
counter-apply-le (finish_idempotency_cmd k status outcome) key b h =
    unfold finish_idempotency in ground arith
counter-apply-le (expire_idempotency_cmd k) key b h = unfold expire_idempotency in ground arith
counter-apply-le (acquire_fence_cmd k token ttl now) key b h =
    unfold acquire_fence in
    let number = get_or (get key_discrete k b.fence_counters) 0 + 1 in
    ground (arith, get-put key_discrete k key number b.fence_counters)
counter-apply-le (renew_fence_cmd k token ttl now) key b h = unfold renew_fence in ground arith
counter-apply-le (release_fence_cmd k token) key b h = unfold release_fence in ground arith
counter-apply-le (create_approval_cmd k req now) key b h = unfold create_approval in ground arith
counter-apply-le (decide_approval_cmd k decision reason now) key b h =
    unfold decide_approval in ground arith

counter-step-le :
    (e : Event) (key : SessionKey) (b : MemoryBackend)
    → ¬ Deletes key e
    → counter key b ≤ counter key (step e b)
unfolding step
counter-step-le (call c) key b h = counter-apply-le c key b h
counter-step-le (swept now) key b h = unfold sweep counter in omega arith
counter-step-le (expired now) key b h = unfold expire_approvals counter in omega arith
counter-step-le shut key b h = unfold close counter in omega arith

counter-steps-le :
    (es : List Event) (key : SessionKey) (b : MemoryBackend)
    → All (λ e. ¬ Deletes key e) es
    → counter key b ≤ counter key (steps es b)
unfolding steps
counter-steps-le [] key b h = omega arith
counter-steps-le (e ∷ es) key b h =
    omega (arith, counter-step-le e key b h.0, counter-steps-le es key (step e b) h.1)

-- A fence that is granted has the next number, which becomes the last one drawn.
acquired :
    (key : SessionKey) (token : String) (ttl now : ℕ) (b : MemoryBackend) (f : Fence)
    → (acquire_fence key token ttl now b).0 ≡ ok (some f)
    → (f.fencing_number ≡ counter key b + 1)
      × (counter key (acquire_fence key token ttl now b).1 ≡ f.fencing_number)
unfolding acquire_fence counter
acquired key token ttl now b f h =
    let number = get_or (get key_discrete key b.fence_counters) 0 + 1 in
    ground (arith, get-put_self key_discrete key number b.fence_counters)

-- Whatever happens in between, save a deletion of the session, a fence that is granted later
-- has a larger number.
pub acquire_fence-lt :
    (key : SessionKey) (token token' : String) (ttl ttl' now now' : ℕ) (b : MemoryBackend)
    (f f' : Fence) (es : List Event)
    → All (λ e. ¬ Deletes key e) es
    → (acquire_fence key token ttl now b).0 ≡ ok (some f)
    → (acquire_fence key token' ttl' now' (steps es (acquire_fence key token ttl now b).1)).0
      ≡ ok (some f')
    → f.fencing_number < f'.fencing_number
acquire_fence-lt key token token' ttl ttl' now now' b f f' es kept h h' =
    let c = (acquire_fence key token ttl now b).1 in
    omega (
      arith,
      acquired key token ttl now b f h,
      acquired key token' ttl' now' (steps es c) f' h',
      counter-steps-le es key c kept,
    )
