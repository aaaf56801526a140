-- ===== src/Storage/File/Idempotency.antt =====
-- app/storage/file_backend.py: the idempotency methods.
use agentstrata.Json.{Fields}
use agentstrata.Prelude.{
  Bool, Option, String, false, if◌then◌else◌, leb, length, none, some, true, ℕ,
}
use agentstrata.Prelude.Dict.{contains}
use agentstrata.Storage.Codec.{idempotency_from_json, idempotency_to_json}
use agentstrata.Storage.Contract.{capacity_error}
use agentstrata.Storage.File.Names.{idem_file}
use agentstrata.Storage.File.Scans.{idem_prefix}
use agentstrata.Storage.File.State.{
  Directory, Host, Io, FilePath, done, glob_names, path_discrete, pure, read_record, refuse,
  session_dir, unlink, write, ◌>>=◌,
}
use agentstrata.Storage.Memory.Idempotency.{new_idempotency}
use agentstrata.Storage.Model.{IdempotencyRecord, RunKey}

module _ (host : Host) (now : ℕ) where
  unfoldable pub read_idempotency : FilePath → Io (Option IdempotencyRecord)
  unfolding read_record idempotency_from_json
  read_idempotency path = read_record path (idempotency_from_json host.iso now)

  unfoldable pub write_idempotency : FilePath → IdempotencyRecord → Io Unit
  unfolding write idempotency_to_json
  write_idempotency path r = write path (idempotency_to_json host.iso r)

  -- directory / f"{session_id}.idem-{key}.json"
  unfoldable pub idempotency_path : RunKey → Io FilePath
  unfolding session_dir idem_file
  idempotency_path ikey = session_dir host ikey.0.0 ikey.0.1 >>= λ directory.
      pure (directory, idem_file ikey.0.2 ikey.1)

  -- _enforce_idempotency_capacity
  unfoldable pub enforce_idempotency_capacity : Directory → String → Io Unit
  unfolding glob_names idem_prefix
  enforce_idempotency_capacity directory session_id b =
      let count = length (glob_names host directory (idem_prefix session_id) b) in
      if leb b.settings.max_idempotency_records_per_session count
      then (refuse capacity_error, b)
      else (done tt, b)

  unfoldable pub create_idempotency : RunKey → ℕ → Io IdempotencyRecord
  unfolding idempotency_path read_idempotency write_idempotency enforce_idempotency_capacity
      new_idempotency
  create_idempotency ikey ttl_seconds = do
    path ← idempotency_path ikey
    existing ← read_idempotency path
    let created = new_idempotency ikey ttl_seconds now
    elim existing [
      | some r ↦ pure r
      | none ↦ (do
        _ ← enforce_idempotency_capacity path.0 ikey.0.2
        _ ← write_idempotency path created
        pure created)
    ]

  unfoldable pub get_idempotency : RunKey → Io (Option IdempotencyRecord)
  unfolding idempotency_path read_idempotency
  get_idempotency ikey = idempotency_path ikey >>= λ path. read_idempotency path

  unfoldable pub finish_idempotency : RunKey → String → Fields → Io (Option IdempotencyRecord)
  unfolding idempotency_path read_idempotency write_idempotency
  finish_idempotency ikey status outcome = do
    path ← idempotency_path ikey
    found ← read_idempotency path
    elim found [
      | none ↦ pure none
      | some r ↦
          let r' = record r { status = status; outcome = outcome } in
          write_idempotency path r' >>= λ _. pure (some r')
    ]

  unfoldable pub expire_idempotency : RunKey → Io Bool
  unfolding idempotency_path unlink contains path_discrete
  expire_idempotency ikey = idempotency_path ikey >>= λ path b.
      (if contains path_discrete path b.files
        then (unlink path >>= λ _. pure true) b
        else (done false, b))
