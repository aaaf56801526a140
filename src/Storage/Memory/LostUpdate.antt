-- ===== src/Storage/Memory/LostUpdate.antt =====
-- app/storage/memory.py: two writers that read the same revision cannot both write.
use agentstrata.Json.{Fields, Json}
use agentstrata.Prelude.{
  All, Bool, Bool-cases, List, Option, Option-cases, String, [], arith, get_or, inl, inr, length,
  length-append, refl, some, take, ℕ, ◌++◌, ◌+◌, ◌-◌, ◌∷◌, ◌≡◌,
}
use agentstrata.Prelude.Dict.{Dict, get, get-pop_ne, get-put, get-put_ne, get-put_self, put}
use agentstrata.Storage.Contract.{ok, raise, revision_conflict}
use agentstrata.Storage.Memory.Approvals.{create_approval, decide_approval, expire_approvals}
use agentstrata.Storage.Memory.Commands.{
  Command, Event, acquire_fence_cmd, admit_run_cmd, after, apply, call, create_approval_cmd,
  create_idempotency_cmd, create_run_cmd, create_session_cmd, decide_approval_cmd,
  delete_session_cmd, expire_idempotency_cmd, expired, finish_idempotency_cmd, mutate_session_cmd,
  release_fence_cmd, renew_fence_cmd, shut, step, steps, swept, truncate_cmd, update_run_cmd,
}
use agentstrata.Storage.Memory.Fences.{acquire_fence, release_fence, renew_fence}
use agentstrata.Storage.Memory.Idempotency.{
  create_idempotency, expire_idempotency, finish_idempotency,
}
use agentstrata.Storage.Memory.Revisions.{
  AtLeast, Rewinds, applied_mutation, insert_session-AtLeast, mutate_session-AtLeast,
}
use agentstrata.Storage.Memory.Runs.{
  admit_into, admit_locked, admit_run, create_run, enforce_run_capacity, store_run, update_run,
}
use agentstrata.Storage.Memory.Sessions.{
  create_session, delete_session, get_session, mutate_session, mutated, new_session,
  truncate_session_events, truncated,
}
use agentstrata.Storage.Memory.State.{MemoryBackend, close}
use agentstrata.Storage.Model.{RunKey, SessionKey, SessionRecord, key_discrete, validate_session_id}

module _ (key : SessionKey) (rev : ℕ) where
  admit_locked-AtLeast :
      (rkey : RunKey) (input : Fields) (now : ℕ) (b : MemoryBackend)
      → AtLeast key rev b
      → AtLeast key rev (after (admit_locked rkey input now b))
  unfolding get_session admit_locked admit_into store_run enforce_run_capacity
  admit_locked-AtLeast rkey input now b (r, here, le) = (
    r,
    ground (arith, get-put key_discrete rkey.0 key (new_session rkey.0 [] now) b.sessions),
    le,
  )

  apply-AtLeast :
      (c : Command) (b : MemoryBackend)
      → ¬ Rewinds key (call c)
      → AtLeast key rev b
      → AtLeast key rev (apply c b)
  unfolding apply get_session
  apply-AtLeast (create_session_cmd a p s fresh events now) b h (r, here, le) =
      let (r', here', le') =
        insert_session-AtLeast key rev (a, p, get_or s fresh) (get_or events []) now b
          (r, here, le) in
      elim (Bool-cases b.closed) [
        | inl gone ↦ (r, unfold create_session in ground arith, le)
        | inr up ↦ elim (Bool-cases (validate_session_id (get_or s fresh))) [
          | inl valid ↦ (r', unfold create_session in ground arith, le')
          | inr bad ↦ (r, unfold create_session in ground arith, le)
        ]
      ]
  apply-AtLeast (mutate_session_cmd k expected events usage hist now) b h at =
      mutate_session-AtLeast key rev k expected events usage hist now b at
  apply-AtLeast (truncate_cmd k n) b h (r, here, le) =
      elim (Option-cases (get key_discrete k b.sessions)) [
        | inl e ↦ (r, unfold truncate_session_events in ground arith, le)
        | inr (s, e) ↦ (
          r,
          unfold truncate_session_events in
              ground (arith, get-put_ne key_discrete k key (truncated s n) b.sessions h),
          le,
        )
      ]
  apply-AtLeast (delete_session_cmd k) b h (r, here, le) =
      (r, unfold delete_session in ground (arith, get-pop_ne key_discrete k key b.sessions h), le)
  apply-AtLeast (create_run_cmd k input now) b h (r, here, le) =
      (r, unfold create_run store_run enforce_run_capacity in ground arith, le)
  apply-AtLeast (admit_run_cmd a p s fresh i input now) b h at =
      let (r, here, le) = at in
      let (r', here', le') = admit_locked-AtLeast ((a, p, get_or s fresh), i) input now b at in
      elim (Bool-cases b.closed) [
        | inl gone ↦ (r, unfold admit_run in ground arith, le)
        | inr up ↦ elim (Bool-cases (validate_session_id (get_or s fresh))) [
          | inl valid ↦ (r', unfold admit_run in ground arith, le')
          | inr bad ↦ (r, unfold admit_run in ground arith, le)
        ]
      ]
  apply-AtLeast (update_run_cmd k status n outcome usage now) b h (r, here, le) =
      (r, unfold update_run in ground arith, le)
  apply-AtLeast (create_idempotency_cmd k ttl now) b h (r, here, le) =
      (r, unfold create_idempotency in ground arith, le)
  apply-AtLeast (finish_idempotency_cmd k status outcome) b h (r, here, le) =
      (r, unfold finish_idempotency in ground arith, le)
  apply-AtLeast (expire_idempotency_cmd k) b h (r, here, le) =
      (r, unfold expire_idempotency in ground arith, le)
  apply-AtLeast (acquire_fence_cmd k token ttl now) b h (r, here, le) =
      (r, unfold acquire_fence in ground arith, le)
  apply-AtLeast (renew_fence_cmd k token ttl now) b h (r, here, le) =
      (r, unfold renew_fence in ground arith, le)
  apply-AtLeast (release_fence_cmd k token) b h (r, here, le) =
      (r, unfold release_fence in ground arith, le)
  apply-AtLeast (create_approval_cmd k req now) b h (r, here, le) =
      (r, unfold create_approval in ground arith, le)
  apply-AtLeast (decide_approval_cmd k decision reason now) b h (r, here, le) =
      (r, unfold decide_approval in ground arith, le)

  steps-AtLeast :
      (es : List Event) (b : MemoryBackend)
      → AtLeast key rev b
      → All (λ e. ¬ Rewinds key e) es
      → AtLeast key rev (steps es b)
  unfolding steps step get_session
  steps-AtLeast [] b at h = at
  steps-AtLeast (call c ∷ es) b at h = steps-AtLeast es (apply c b) (apply-AtLeast c b h.0 at) h.1
  steps-AtLeast (swept now ∷ es) b at h = absurd (h.0 tt)
  steps-AtLeast (expired now ∷ es) b at h =
      steps-AtLeast es (after (expire_approvals now b)) (unfold expire_approvals in at) h.1
  steps-AtLeast (shut ∷ es) b at h = steps-AtLeast es (after (close b)) (unfold close in at) h.1

stale_mutation :
    (key : SessionKey) (rev : ℕ) (events : Option (List Json)) (usage : Option (Dict String ℕ))
    (hist : Option Bool) (now : ℕ) (b : MemoryBackend)
    → AtLeast key (rev + 1) b
    → mutate_session key rev events usage hist now b ≡ (raise revision_conflict, b)
unfolding mutate_session get_session
stale_mutation key rev events usage hist now b (r, here, le) = ground arith

-- No lost update: once a mutation of a session has been applied, another one that expects the
-- same revision raises a conflict and changes nothing, whatever calls come in between, as long
-- as none of them truncates or deletes the session and no sweep runs.
pub mutate_session-once :
    (key : SessionKey) (rev : ℕ) (events events' : Option (List Json))
    (usage usage' : Option (Dict String ℕ)) (hist hist' : Option Bool) (now now' : ℕ)
    (b : MemoryBackend) (s : SessionRecord) (es : List Event)
    → (mutate_session key rev events usage hist now b).0 ≡ ok s
    → All (λ e. ¬ Rewinds key e) es
    → mutate_session key rev events' usage' hist' now'
        (steps es (mutate_session key rev events usage hist now b).1)
      ≡ (raise revision_conflict, steps es (mutate_session key rev events usage hist now b).1)
mutate_session-once key rev events events' usage usage' hist hist' now now' b s es h calm =
    let c = (mutate_session key rev events usage hist now b).1 in
    stale_mutation key rev events' usage' hist' now' (steps es c)
      (steps-AtLeast key (rev + 1) es c (applied_mutation key rev events usage hist now b s h) calm)

-- On a stored session, a truncation right after one mutation restores the revision. Of the stored
-- events and those that the mutation appended, it drops the last one only.
pub truncate-mutate :
    (key : SessionKey) (events : List Json) (usage : Option (Dict String ℕ)) (hist : Option Bool)
    (now : ℕ) (b : MemoryBackend) (r : SessionRecord)
    → get_session key b ≡ some r
    → (s : SessionRecord) × (get_session key
          (truncate_session_events key r.revision
            (mutate_session key r.revision (some events) usage hist now b).1).1
        ≡ some s)
      × (s.revision ≡ r.revision)
      × (s.events ≡ take (length r.events + length events - 1) (r.events ++ events))
unfolding get_session truncate_session_events mutate_session mutated truncated
truncate-mutate key events usage hist now b r here =
    let s = mutated r (some events) usage hist now in
    let t = truncated s r.revision in
    let d = put key_discrete key s b.sessions in
    (
      t,
      ground (arith, get-put_self key_discrete key s b.sessions, get-put_self key_discrete key t d),
      refl,
      ground (arith, length-append r.events events),
    )
