-- ===== src/Storage/Memory/Commands.antt =====
-- app/storage/memory.py: the methods that a request may call, as data, and the background work.
use agentstrata.Json.{Fields, Json}
use agentstrata.Prelude.{Bool, List, Option, String, [], get_or, ℕ, ◌∷◌}
use agentstrata.Prelude.Dict.{Dict}
use agentstrata.Storage.Contract.{Result}
use agentstrata.Storage.Memory.Approvals.{
  ApprovalRequest, create_approval, decide_approval, expire_approvals,
}
use agentstrata.Storage.Memory.Fences.{acquire_fence, release_fence, renew_fence}
use agentstrata.Storage.Memory.Idempotency.{
  create_idempotency, expire_idempotency, finish_idempotency,
}
use agentstrata.Storage.Memory.Runs.{admit_run, create_run, update_run}
use agentstrata.Storage.Memory.Sessions.{
  create_session, delete_session, mutate_session, truncate_session_events,
}
use agentstrata.Storage.Memory.State.{MemoryBackend, close}
use agentstrata.Storage.Memory.Sweep.{sweep}
use agentstrata.Storage.Model.{RunKey, SessionKey}

-- The state that an action leaves, its result dropped.
abbrev pub after {ℓ} : {A : Type ℓ} → Result A × MemoryBackend → MemoryBackend
after r = r.1

-- One call of a method on behalf of an owner. A fresh id and the time are inputs.
pub data Command : Type 0 where
  create_session_cmd : String → String → Option String → String → Option (List Json) → ℕ → Command
  mutate_session_cmd :
      SessionKey → ℕ → Option (List Json) → Option (Dict String ℕ) → Option Bool → ℕ → Command
  truncate_cmd : SessionKey → ℕ → Command
  delete_session_cmd : SessionKey → Command
  create_run_cmd : RunKey → Fields → ℕ → Command
  admit_run_cmd : String → String → Option String → String → String → Fields → ℕ → Command
  update_run_cmd :
      RunKey → Option String → Option ℕ → Option Fields → Option (Dict String ℕ) → ℕ → Command
  create_idempotency_cmd : RunKey → ℕ → ℕ → Command
  finish_idempotency_cmd : RunKey → String → Fields → Command
  expire_idempotency_cmd : RunKey → Command
  acquire_fence_cmd : SessionKey → String → ℕ → ℕ → Command
  renew_fence_cmd : SessionKey → String → ℕ → ℕ → Command
  release_fence_cmd : SessionKey → String → Command
  create_approval_cmd : SessionKey → ApprovalRequest → ℕ → Command
  decide_approval_cmd : SessionKey → String → Option String → ℕ → Command

-- The state after a call, whether it returned or raised.
unfoldable pub apply : Command → MemoryBackend → MemoryBackend
apply (create_session_cmd a p s fresh events now) b =
    after (create_session a p s fresh events now b)
apply (mutate_session_cmd k rev events usage hist now) b =
    after (mutate_session k rev events usage hist now b)
apply (truncate_cmd k rev) b = after (truncate_session_events k rev b)
apply (delete_session_cmd k) b = after (delete_session k b)
apply (create_run_cmd k input now) b = after (create_run k input now b)
apply (admit_run_cmd a p s fresh r input now) b = after (admit_run a p s fresh r input now b)
apply (update_run_cmd k status n outcome usage now) b =
    after (update_run k status n outcome usage now b)
apply (create_idempotency_cmd k ttl now) b = after (create_idempotency k ttl now b)
apply (finish_idempotency_cmd k status outcome) b = after (finish_idempotency k status outcome b)
apply (expire_idempotency_cmd k) b = after (expire_idempotency k b)
apply (acquire_fence_cmd k token ttl now) b = after (acquire_fence k token ttl now b)
apply (renew_fence_cmd k token ttl now) b = after (renew_fence k token ttl now b)
apply (release_fence_cmd k token) b = after (release_fence k token b)
apply (create_approval_cmd k req now) b = after (create_approval k req now b)
apply (decide_approval_cmd k decision reason now) b =
    after (decide_approval k decision reason now b)

-- The session, or the approval, that a call names.
abbrev pub target : Command → SessionKey
target (create_session_cmd a p s fresh events now) = (a, p, get_or s fresh)
target (mutate_session_cmd k rev events usage hist now) = k
target (truncate_cmd k rev) = k
target (delete_session_cmd k) = k
target (create_run_cmd k input now) = k.0
target (admit_run_cmd a p s fresh r input now) = (a, p, get_or s fresh)
target (update_run_cmd k status n outcome usage now) = k.0
target (create_idempotency_cmd k ttl now) = k.0
target (finish_idempotency_cmd k status outcome) = k.0
target (expire_idempotency_cmd k) = k.0
target (acquire_fence_cmd k token ttl now) = k
target (renew_fence_cmd k token ttl now) = k
target (release_fence_cmd k token) = k
target (create_approval_cmd k req now) = k
target (decide_approval_cmd k decision reason now) = k

-- What happens to a backend: a call, or the background work.
pub data Event : Type 0 where
  call : Command → Event
  swept : ℕ → Event
  expired : ℕ → Event
  shut : Event

unfoldable pub step : Event → MemoryBackend → MemoryBackend
unfolding apply
step (call c) b = apply c b
step (swept now) b = after (sweep now b)
step (expired now) b = after (expire_approvals now b)
step shut b = after (close b)

-- A sequence of events, the first one first.
unfoldable pub steps : List Event → MemoryBackend → MemoryBackend
unfolding step
steps [] b = b
steps (e ∷ events) b = steps events (step e b)
