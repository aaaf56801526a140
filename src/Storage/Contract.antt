-- ===== src/Storage/Contract.antt =====
-- app/storage/contract.py: the settings, the errors and the outcome of an operation.
use agentstrata.Prelude.{ℕ, ◌*◌}

pub record StorageSettings : Type 0 where
  pub session_ttl_seconds : ℕ
  pub run_ttl_seconds : ℕ
  pub idempotency_ttl_seconds : ℕ
  pub max_sessions : ℕ
  pub max_runs_per_session : ℕ
  pub max_idempotency_records_per_session : ℕ

-- The exception classes below `StorageError`.
pub data StorageError : Type 0 where
  capacity_error revision_conflict session_busy session_not_found : StorageError
  invalid_session_id backend_unavailable : StorageError

pub data Result {ℓ} (A : Type ℓ) : Type ℓ where
  ok : A → Result A
  raise : StorageError → Result A

-- Times are in microseconds, settings in seconds.
abbrev pub seconds : ℕ → ℕ
seconds n = n * 1000000
