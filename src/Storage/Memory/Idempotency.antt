-- ===== src/Storage/Memory/Idempotency.antt =====
-- app/storage/memory.py: the idempotency methods.
use agentstrata.Json.{Fields, end}
use agentstrata.Prelude.{
  Bool, Option, String, false, if◌then◌else◌, keep_if, leb, length, none, some, true, ℕ, ◌+◌,
}
use agentstrata.Prelude.Dict.{Dict, contains, get, pop, put}
use agentstrata.Storage.Contract.{capacity_error, ok, raise, seconds}
use agentstrata.Storage.Memory.State.{Action, MemoryBackend, in_session}
use agentstrata.Storage.Model.{IdempotencyRecord, RunKey, SessionKey, run_key_discrete}

unfoldable pub new_idempotency : RunKey → ℕ → ℕ → IdempotencyRecord
new_idempotency ikey ttl_seconds now = record {
  key_tuple = ikey;
  status = "in_progress";
  outcome = end;
  created_at = now;
  expires_at = some (now + seconds ttl_seconds);
}

-- The number of a session's idempotency records.
unfoldable pub session_keys : SessionKey → Dict RunKey IdempotencyRecord → ℕ
unfolding in_session keep_if
session_keys skey d = length (keep_if (λ (e : RunKey × IdempotencyRecord). in_session skey e.0) d)

unfoldable pub create_idempotency : RunKey → ℕ → ℕ → Action IdempotencyRecord
unfolding new_idempotency session_keys run_key_discrete
create_idempotency ikey ttl_seconds now b = elim (get run_key_discrete ikey b.idempotency) [
  | some existing ↦ (ok existing, b)
  | none ↦
      let r = new_idempotency ikey ttl_seconds now in
      if leb b.settings.max_idempotency_records_per_session (session_keys ikey.0 b.idempotency)
      then (raise capacity_error, b)
      else (ok r, record b { idempotency = put run_key_discrete ikey r b.idempotency })
]

unfoldable pub get_idempotency : RunKey → MemoryBackend → Option IdempotencyRecord
unfolding run_key_discrete
get_idempotency ikey b = get run_key_discrete ikey b.idempotency

unfoldable pub finish_idempotency : RunKey → String → Fields → Action (Option IdempotencyRecord)
unfolding run_key_discrete
finish_idempotency ikey status outcome b = elim (get run_key_discrete ikey b.idempotency) [
  | none ↦ (ok none, b)
  | some r ↦
      let r' = record r { status = status; outcome = outcome } in
      (ok (some r'), record b { idempotency = put run_key_discrete ikey r' b.idempotency })
]

unfoldable pub expire_idempotency : RunKey → Action Bool
unfolding run_key_discrete contains
expire_idempotency ikey b =
    if contains run_key_discrete ikey b.idempotency
    then (ok true, record b { idempotency = pop run_key_discrete ikey b.idempotency })
    else (ok false, b)
