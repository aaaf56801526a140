-- ===== src/Storage/Memory/Isolation/View.antt =====
-- app/storage/memory.py: what can be read of one session and of one approval.
use agentstrata.Prelude.{String, arith, ◌∙◌, ◌≡◌}
use agentstrata.Prelude.Dict.{get}
use agentstrata.Storage.Memory.Approvals.{get_approval}
use agentstrata.Storage.Memory.Fences.{current_fence}
use agentstrata.Storage.Memory.Idempotency.{get_idempotency}
use agentstrata.Storage.Memory.Runs.{get_run}
use agentstrata.Storage.Memory.Sessions.{get_session}
use agentstrata.Storage.Memory.State.{MemoryBackend}
use agentstrata.Storage.Model.{SessionKey, key_discrete}

-- What can be read of one session key, and of the approval of that key, is the same.
pub record Unaffected (key : SessionKey) (b c : MemoryBackend) : Type 0 where
  pub session : get_session key c ≡ get_session key b
  pub run : (id : String) → get_run (key, id) c ≡ get_run (key, id) b
  pub idempotency : (id : String) → get_idempotency (key, id) c ≡ get_idempotency (key, id) b
  pub fence : current_fence key c ≡ current_fence key b
  pub counter : get key_discrete key c.fence_counters ≡ get key_discrete key b.fence_counters
  pub approval : get_approval key c ≡ get_approval key b

pub Unaffected-refl : (key : SessionKey) (b : MemoryBackend) → Unaffected key b b
Unaffected-refl key b = ground arith

pub Unaffected-trans :
    {key : SessionKey} {b c d : MemoryBackend}
    → Unaffected key b c
    → Unaffected key c d
    → Unaffected key b d
Unaffected-trans p q = record {
  session = q.session ∙ p.session;
  run = λ id. q.run id ∙ p.run id;
  idempotency = λ id. q.idempotency id ∙ p.idempotency id;
  fence = q.fence ∙ p.fence;
  counter = q.counter ∙ p.counter;
  approval = q.approval ∙ p.approval;
}

unfoldable pub readers : Unit {0}
unfolding get_session get_run get_idempotency current_fence get_approval
readers = tt
