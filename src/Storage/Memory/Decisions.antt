-- ===== src/Storage/Memory/Decisions.antt =====
-- app/storage/memory.py: an approval is decided at most once.
use mathlib.Core.Option
use agentstrata.Prelude.{
  All, List, Option, Option-cases, String, [], arith, eq_iff, false, inl, inr, map, none, refl,
  some, ℕ, ◌+◌, ◌∷◌, ◌≡◌, ◌≢◌, ◌≤◌, ◌⊎◌,
}
use agentstrata.Prelude.Dict.{Dict, get, get-put, get-put_ne, get-put_self}
use agentstrata.Storage.Contract.{ok}
use agentstrata.Storage.Memory.Approvals.{
  create_approval, decidable, decide_approval, expire_approvals, expire_one, get_approval,
  new_approval,
}
use agentstrata.Storage.Memory.Commands.{
  Command, Event, acquire_fence_cmd, admit_run_cmd, after, apply, call, create_approval_cmd,
  create_idempotency_cmd, create_run_cmd, create_session_cmd, decide_approval_cmd,
  delete_session_cmd, expire_idempotency_cmd, expired, finish_idempotency_cmd, mutate_session_cmd,
  release_fence_cmd, renew_fence_cmd, shut, step, steps, swept, truncate_cmd, update_run_cmd,
}
use agentstrata.Storage.Memory.Fences.{acquire_fence, release_fence, renew_fence}
use agentstrata.Storage.Memory.Idempotency.{
  create_idempotency, expire_idempotency, finish_idempotency,
}
use agentstrata.Storage.Memory.Runs.{
  admit_into, admit_locked, admit_run, create_run, enforce_run_capacity, store_run, update_run,
}
use agentstrata.Storage.Memory.Sessions.{
  create_session, delete_session, insert_session, mutate_session, truncate_session_events,
}
use agentstrata.Storage.Memory.State.{MemoryBackend, close}
use agentstrata.Storage.Memory.Sweep.{sweep}
use agentstrata.Storage.Model.{ApprovalRecord, SessionKey, key_discrete, pending}

-- The event creates an approval under this key anew.
abbrev pub Recreates : SessionKey → Event → Type 0
Recreates key (call (create_approval_cmd k req now)) = k ≡ key
Recreates key _ = ⊥

get-expired :
    (key : SessionKey) (now : ℕ) (d : Dict SessionKey ApprovalRecord)
    → get key_discrete key (map (λ (e : SessionKey × ApprovalRecord). (e.0, expire_one now e.1)) d)
      ≡ Option.map (expire_one now) (get key_discrete key d)
unfolding get
get-expired key now [] = refl
get-expired key now ((k, r) ∷ d) = ground (arith, get-expired key now d)

module _ (key : SessionKey) (r : ApprovalRecord) (settled : pending r ≡ false) where
  module _ (b : MemoryBackend) (here : get_approval key b ≡ some r) where
    decide-settled :
        (k : SessionKey) (decision : String) (reason : Option String) (now : ℕ)
        → get_approval key (after (decide_approval k decision reason now b)) ≡ some r
    unfolding get_approval decide_approval
    decide-settled k decision reason now = elim (Option-cases (get key_discrete k b.approvals)) [
      | inl e ↦ ground arith
      | inr (s, e) ↦
          let s' = record s {
            status = decision;
            reason = reason;
            decided_at = some now;
            revision = s.revision + 1;
          } in
          ground (arith, get-put key_discrete k key s' b.approvals)
    ]

    apply-settled : (c : Command) → ¬ Recreates key (call c) → get_approval key (apply c b) ≡ some r
    unfolding apply get_approval
    apply-settled (create_session_cmd a p s fresh events now) h =
        unfold create_session insert_session in ground arith
    apply-settled (mutate_session_cmd k rev events usage hist now) h =
        unfold mutate_session in ground arith
    apply-settled (truncate_cmd k rev) h = unfold truncate_session_events in ground arith
    apply-settled (delete_session_cmd k) h = unfold delete_session in ground arith
    apply-settled (create_run_cmd k input now) h =
        unfold create_run store_run enforce_run_capacity in ground arith
    apply-settled (admit_run_cmd a p s fresh i input now) h =
        unfold admit_run admit_locked admit_into store_run enforce_run_capacity in ground arith
    apply-settled (update_run_cmd k status n outcome usage now) h =
        unfold update_run in ground arith
    apply-settled (create_idempotency_cmd k ttl now) h = unfold create_idempotency in ground arith
    apply-settled (finish_idempotency_cmd k status outcome) h =
        unfold finish_idempotency in ground arith
    apply-settled (expire_idempotency_cmd k) h = unfold expire_idempotency in ground arith
    apply-settled (acquire_fence_cmd k token ttl now) h = unfold acquire_fence in ground arith
    apply-settled (renew_fence_cmd k token ttl now) h = unfold renew_fence in ground arith
    apply-settled (release_fence_cmd k token) h = unfold release_fence in ground arith
    apply-settled (create_approval_cmd k req now) h =
        unfold create_approval in
        ground (arith, get-put_ne key_discrete k key (new_approval k req now) b.approvals h)
    apply-settled (decide_approval_cmd k decision reason now) h =
        decide-settled k decision reason now

    expire-settled : (now : ℕ) → get_approval key (after (expire_approvals now b)) ≡ some r
    unfolding get_approval expire_approvals
    expire-settled now = ground (arith, get-expired key now b.approvals)

    step-settled : (e : Event) → ¬ Recreates key e → get_approval key (step e b) ≡ some r
    unfolding step get_approval
    step-settled (call c) h = apply-settled c h
    step-settled (swept now) h = unfold sweep in here
    step-settled (expired now) h = expire-settled now
    step-settled shut h = unfold close in here

  steps-settled :
      (es : List Event) (b : MemoryBackend)
      → get_approval key b ≡ some r
      → All (λ e. ¬ Recreates key e) es
      → get_approval key (steps es b) ≡ some r
  unfolding steps
  steps-settled [] b here h = here
  steps-settled (e ∷ es) b here h = steps-settled es (step e b) (step-settled b here e h.0) h.1

  refuse_settled :
      (decision : String) (reason : Option String) (now : ℕ) (b : MemoryBackend)
      → get_approval key b ≡ some r
      → decide_approval key decision reason now b ≡ (ok none, b)
  unfolding get_approval decide_approval
  refuse_settled decision reason now b here = ground arith

decided_record :
    (key : SessionKey) (decision : String) (reason : Option String) (now : ℕ) (b : MemoryBackend)
    (r : ApprovalRecord)
    → (decide_approval key decision reason now b).0 ≡ ok (some r)
    → (r.status ≡ decision)
      × (get_approval key (decide_approval key decision reason now b).1 ≡ some r)
unfolding decide_approval get_approval
decided_record key decision reason now b r h =
    elim (Option-cases (get key_discrete key b.approvals)) [
      | inl e ↦ ground arith
      | inr (s, e) ↦
          let s' = record s {
            status = decision;
            reason = reason;
            decided_at = some now;
            revision = s.revision + 1;
          } in
          ground (arith, get-put_self key_discrete key s' b.approvals)
    ]

-- The first decision wins: after a decision other than `pending` that was applied, whatever else
-- happens to the backend save that the approval is created anew, a deletion of its session
-- included, the approval stays as that decision left it, and every other decision is refused and
-- changes nothing.
pub decide_approval-first :
    (key : SessionKey) (decision decision' : String) (reason reason' : Option String) (now now' : ℕ)
    (b : MemoryBackend) (r : ApprovalRecord) (es : List Event)
    → (decide_approval key decision reason now b).0 ≡ ok (some r)
    → decision ≢ "pending"
    → All (λ e. ¬ Recreates key e) es
    → (r.status ≡ decision)
      × (get_approval key (steps es (decide_approval key decision reason now b).1) ≡ some r)
      × (decide_approval key decision' reason' now'
            (steps es (decide_approval key decision reason now b).1)
          ≡ (ok none, steps es (decide_approval key decision reason now b).1))
unfolding pending
decide_approval-first key decision decision' reason reason' now now' b r es h ne kept =
    let c = (decide_approval key decision reason now b).1 in
    let (status, here) = decided_record key decision reason now b r h in
    let settled : pending r ≡ false = ground (arith, eq_iff r.status "pending") in
    let there = steps-settled key r settled es c here kept in
    (status, there, refuse_settled key r settled decision' reason' now' (steps es c) there)

-- A decision on a stored approval is applied if the approval is pending and has not expired or is
-- being timed out: then the stored record has that status, the next revision, the reason and the
-- time. Otherwise it is refused, and changes nothing.
pub decide_approval-when :
    (key : SessionKey) (decision : String) (reason : Option String) (now : ℕ) (b : MemoryBackend)
    (r : ApprovalRecord)
    → get_approval key b ≡ some r
    → ((r.status ≡ "pending")
        × ((now ≤ r.expires_at) ⊎ (decision ≡ "timed_out"))
        × (get_approval key (decide_approval key decision reason now b).1
            ≡ some (record r {
              status = decision;
              reason = reason;
              decided_at = some now;
              revision = r.revision + 1;
            })))
      ⊎ ((¬ ((r.status ≡ "pending") × ((now ≤ r.expires_at) ⊎ (decision ≡ "timed_out"))))
          × (decide_approval key decision reason now b ≡ (ok none, b)))
unfolding get_approval decide_approval decidable pending
decide_approval-when key decision reason now b r here =
    let s = record r {
      status = decision;
      reason = reason;
      decided_at = some now;
      revision = r.revision + 1;
    } in
    ground (
      arith,
      get-put_self key_discrete key s b.approvals,
      eq_iff r.status "pending",
      eq_iff decision "timed_out",
    )
