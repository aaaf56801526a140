-- ===== src/Storage/Memory/State.antt =====
-- app/storage/memory.py: the state of `MemoryBackend`, and what its methods share.
use agentstrata.Prelude.{
  Bool, Option, String, String_discrete, [], false, get_or, ite, none, not, some, true, ℕ, ◌+◌, ◌∷◌,
}
use agentstrata.Prelude.Dict.{Dict, get, put}
use agentstrata.Storage.Contract.{Result, StorageSettings, ok}
use agentstrata.Storage.Model.{
  ApprovalRecord, Fence, IdempotencyRecord, RunKey, RunRecord, SessionKey, SessionRecord,
  key_discrete,
}

pub record MemoryBackend : Type 0 where
  pub settings : StorageSettings
  pub sessions : Dict SessionKey SessionRecord
  pub runs : Dict RunKey RunRecord
  pub idempotency : Dict RunKey IdempotencyRecord
  pub approvals : Dict SessionKey ApprovalRecord
  pub fences : Dict SessionKey Fence
  pub fence_counters : Dict SessionKey ℕ
  pub closed : Bool

-- A method returns a value or raises, and leaves a state either way.
abbrev pub Action : Type 0 → Type 0
Action A = MemoryBackend → Result A × MemoryBackend

-- __init__
unfoldable pub init : StorageSettings → MemoryBackend
init settings = record {
  settings = settings;
  sessions = [];
  runs = [];
  idempotency = [];
  approvals = [];
  fences = [];
  fence_counters = [];
  closed = false;
}

unfoldable pub close : Action Unit
close b = (ok tt, record b { closed = true })

unfoldable pub health : MemoryBackend → Bool
health b = not b.closed

-- k[:3] == key
unfoldable pub in_session : SessionKey → RunKey → Bool
unfolding key_discrete
in_session key k = ite (key_discrete k.0 key) true false

-- for k, v in usage.items(): record.usage[k] = record.usage.get(k, 0) + v
unfoldable pub add_usage : Dict String ℕ → Dict String ℕ → Dict String ℕ
unfolding String_discrete
add_usage [] total = total
add_usage ((k, v) ∷ usage) total =
    add_usage usage (put String_discrete k (get_or (get String_discrete k total) 0 + v) total)

-- The same for an argument that may be `None`.
unfoldable pub merge_usage : Option (Dict String ℕ) → Dict String ℕ → Dict String ℕ
unfolding add_usage
merge_usage none total = total
merge_usage (some usage) total = add_usage usage total
