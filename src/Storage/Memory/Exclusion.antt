-- ===== src/Storage/Memory/Exclusion.antt =====
-- app/storage/memory.py: a granted fence keeps others out until it expires or its holder acts.
use agentstrata.Prelude.{
  All, List, Option-cases, String, [], arith, eq_iff, get_or, inl, inr, none, some, ℕ, ◌+◌, ◌<◌,
  ◌∷◌, ◌≡◌, ◌≢◌, ◌⊎◌,
}
use agentstrata.Prelude.Dict.{get, get-pop, get-pop_ne, get-put, get-put_self}
use agentstrata.Storage.Contract.{ok}
use agentstrata.Storage.Memory.Approvals.{create_approval, decide_approval, expire_approvals}
use agentstrata.Storage.Memory.Commands.{
  Command, Event, acquire_fence_cmd, admit_run_cmd, after, apply, call, create_approval_cmd,
  create_idempotency_cmd, create_run_cmd, create_session_cmd, decide_approval_cmd,
  delete_session_cmd, expire_idempotency_cmd, expired, finish_idempotency_cmd, mutate_session_cmd,
  release_fence_cmd, renew_fence_cmd, shut, step, steps, swept, truncate_cmd, update_run_cmd,
}
use agentstrata.Storage.Memory.Fences.{acquire_fence, current_fence, release_fence, renew_fence}
use agentstrata.Storage.Memory.Idempotency.{
  create_idempotency, expire_idempotency, finish_idempotency,
}
use agentstrata.Storage.Memory.Runs.{
  admit_into, admit_locked, admit_run, create_run, enforce_run_capacity, store_run, update_run,
}
use agentstrata.Storage.Memory.Sessions.{
  create_session, delete_session, insert_session, mutate_session, truncate_session_events,
}
use agentstrata.Storage.Memory.State.{MemoryBackend, close}
use agentstrata.Storage.Memory.Sweep.{sweep}
use agentstrata.Storage.Model.{Fence, SessionKey, key_discrete}

-- The event neither removes the session, nor releases or renews its fence with the holder's
-- token, nor asks for the fence at or after the deadline.
abbrev pub Spares : SessionKey → String → ℕ → Event → Type 0
Spares key token deadline (call (delete_session_cmd k)) = k ≢ key
Spares key token deadline (call (acquire_fence_cmd k t ttl now)) = (k ≢ key) ⊎ (now < deadline)
Spares key token deadline (call (renew_fence_cmd k t ttl now)) = (k ≢ key) ⊎ (t ≢ token)
Spares key token deadline (call (release_fence_cmd k t)) = (k ≢ key) ⊎ (t ≢ token)
Spares key token deadline _ = Unit

module _ (key : SessionKey) (f : Fence) (deadline : ℕ) (lease : f.expires_at ≡ some deadline) where
  module _ (b : MemoryBackend) (here : current_fence key b ≡ some f) where
    acquire-held :
        (k : SessionKey) (t : String) (ttl now : ℕ)
        → (k ≢ key) ⊎ (now < deadline)
        → current_fence key (after (acquire_fence k t ttl now b)) ≡ some f
    unfolding current_fence acquire_fence
    acquire-held k t ttl now h =
        let number = get_or (get key_discrete k b.fence_counters) 0 + 1 in
        let fence : Fence = record {
          token = t;
          fencing_number = number;
          expires_at = some (now + ttl);
        } in
        ground (arith, get-put key_discrete k key fence b.fences)

    renew-held :
        (k : SessionKey) (t : String) (ttl now : ℕ)
        → (k ≢ key) ⊎ (t ≢ f.token)
        → current_fence key (after (renew_fence k t ttl now b)) ≡ some f
    unfolding current_fence renew_fence
    renew-held k t ttl now h = elim (Option-cases (get key_discrete k b.fences)) [
      | inl e ↦ ground arith
      | inr (g, e) ↦
          let g' = record g { expires_at = some (now + ttl) } in
          ground (arith, get-put key_discrete k key g' b.fences, eq_iff g.token t)
    ]

    release-held :
        (k : SessionKey) (t : String)
        → (k ≢ key) ⊎ (t ≢ f.token)
        → current_fence key (after (release_fence k t b)) ≡ some f
    unfolding current_fence release_fence
    release-held k t h = elim (Option-cases (get key_discrete k b.fences)) [
      | inl e ↦ ground arith
      | inr (g, e) ↦ ground (arith, get-pop key_discrete k key b.fences, eq_iff g.token t)
    ]

    apply-held :
        (c : Command)
        → Spares key f.token deadline (call c)
        → current_fence key (apply c b) ≡ some f
    unfolding apply current_fence
    apply-held (create_session_cmd a p s fresh events now) h =
        unfold create_session insert_session in ground arith
    apply-held (mutate_session_cmd k rev events usage hist now) h =
        unfold mutate_session in ground arith
    apply-held (truncate_cmd k rev) h = unfold truncate_session_events in ground arith
    apply-held (delete_session_cmd k) h =
        unfold delete_session in ground (arith, get-pop_ne key_discrete k key b.fences h)
    apply-held (create_run_cmd k input now) h =
        unfold create_run store_run enforce_run_capacity in ground arith
    apply-held (admit_run_cmd a p s fresh i input now) h =
        unfold admit_run admit_locked admit_into store_run enforce_run_capacity in ground arith
    apply-held (update_run_cmd k status n outcome usage now) h = unfold update_run in ground arith
    apply-held (create_idempotency_cmd k ttl now) h = unfold create_idempotency in ground arith
    apply-held (finish_idempotency_cmd k status outcome) h =
        unfold finish_idempotency in ground arith
    apply-held (expire_idempotency_cmd k) h = unfold expire_idempotency in ground arith
    apply-held (acquire_fence_cmd k token ttl now) h = acquire-held k token ttl now h
    apply-held (renew_fence_cmd k token ttl now) h = renew-held k token ttl now h
    apply-held (release_fence_cmd k token) h = release-held k token h
    apply-held (create_approval_cmd k req now) h = unfold create_approval in ground arith
    apply-held (decide_approval_cmd k decision reason now) h =
        unfold decide_approval in ground arith

    step-held : (e : Event) → Spares key f.token deadline e → current_fence key (step e b) ≡ some f
    unfolding step current_fence
    step-held (call c) h = apply-held c h
    step-held (swept now) h = unfold sweep in here
    step-held (expired now) h = unfold expire_approvals in here
    step-held shut h = unfold close in here

  steps-held :
      (es : List Event) (b : MemoryBackend)
      → current_fence key b ≡ some f
      → All (Spares key f.token deadline) es
      → current_fence key (steps es b) ≡ some f
  unfolding steps
  steps-held [] b here h = here
  steps-held (e ∷ es) b here h = steps-held es (step e b) (step-held b here e h.0) h.1

granted :
    (key : SessionKey) (token : String) (ttl now : ℕ) (b : MemoryBackend) (f : Fence)
    → (acquire_fence key token ttl now b).0 ≡ ok (some f)
    → (f.token ≡ token)
      × (f.expires_at ≡ some (now + ttl))
      × (current_fence key (acquire_fence key token ttl now b).1 ≡ some f)
unfolding acquire_fence current_fence
granted key token ttl now b f h =
    let number = get_or (get key_discrete key b.fence_counters) 0 + 1 in
    let fence : Fence = record {
      token = token;
      fencing_number = number;
      expires_at = some (now + ttl);
    } in
    ground (arith, get-put_self key_discrete key fence b.fences)

refused :
    (key : SessionKey) (token : String) (ttl now deadline : ℕ) (b : MemoryBackend) (f : Fence)
    → current_fence key b ≡ some f
    → f.expires_at ≡ some deadline
    → now < deadline
    → acquire_fence key token ttl now b ≡ (ok none, b)
unfolding acquire_fence current_fence
refused key token ttl now deadline b f here lease early = ground arith

-- Once a fence is granted, a request for it at a time before it expires is refused and changes
-- nothing, whatever happens in between, if nothing in between deletes the session, releases or
-- renews the fence with the holder's token, or asks for the fence at or after its expiry.
pub acquire_fence-exclusive :
    (key : SessionKey) (token token' : String) (ttl ttl' now now' : ℕ) (b : MemoryBackend)
    (f : Fence) (es : List Event)
    → (acquire_fence key token ttl now b).0 ≡ ok (some f)
    → All (Spares key token (now + ttl)) es
    → now' < now + ttl
    → acquire_fence key token' ttl' now' (steps es (acquire_fence key token ttl now b).1)
      ≡ (ok none, steps es (acquire_fence key token ttl now b).1)
acquire_fence-exclusive key token token' ttl ttl' now now' b f es h spared early =
    let (token_kept, lease, here) = granted key token ttl now b f h in
    let c = (acquire_fence key token ttl now b).1 in
    refused key token' ttl' now' (now + ttl) (steps es c) f
      (steps-held key f (now + ttl) lease es c here (rw token_kept spared)) lease early
