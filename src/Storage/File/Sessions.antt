-- ===== src/Storage/File/Sessions.antt =====
-- app/storage/file_backend.py: the session methods. The id that `new_session_id` draws and the
-- time are arguments; the time is also the one that `from_json` asks `utcnow` for.
use agentstrata.Json.{Json}
use agentstrata.Prelude.{
  Bool, List, Option, String, [], get_or, if◌then◌else◌, leb, none, some, ℕ, ◌==◌,
}
use agentstrata.Prelude.Dict.{Dict}
use agentstrata.Storage.Codec.{session_from_json, session_to_json}
use agentstrata.Storage.Contract.{invalid_session_id, revision_conflict, session_not_found}
use agentstrata.Storage.File.Names.{session_file}
use agentstrata.Storage.File.State.{
  Host, Io, FilePath, pure, read_record, require_ready, session_dir, session_path, throw, write,
  ◌>>=◌,
}
use agentstrata.Storage.Memory.Sessions.{mutated, new_session, truncated}
use agentstrata.Storage.Model.{SessionKey, SessionRecord, validate_session_id}

module _ (host : Host) (now : ℕ) where
  unfoldable pub read_session : FilePath → Io (Option SessionRecord)
  unfolding read_record session_from_json
  read_session path = read_record path (session_from_json host.iso now)

  unfoldable pub write_session : FilePath → SessionRecord → Io Unit
  unfolding write session_to_json
  write_session path r = write path (session_to_json host.iso r)

  unfoldable pub create_session :
      String → String → Option String → String → Option (List Json) → Io SessionRecord
  unfolding require_ready session_dir read_session write_session session_file new_session
  create_session agent_name principal_id session_id fresh_id initial_events =
      let sid = get_or session_id fresh_id in
      do
        _ ← require_ready
        _ ← (if validate_session_id sid then pure tt else throw invalid_session_id)
        directory ← session_dir host agent_name principal_id
        existing ← read_session (directory, session_file sid)
        let created = new_session (agent_name, principal_id, sid) (get_or initial_events []) now
        elim existing [
          | some r ↦ pure r
          | none ↦ write_session (directory, session_file sid) created >>= λ _. pure created
        ]

  unfoldable pub get_session : SessionKey → Io (Option SessionRecord)
  unfolding require_ready session_path read_session
  get_session key = require_ready >>= λ _. session_path host key >>= λ path. read_session path

  unfoldable pub mutate_session :
      SessionKey → ℕ → Option (List Json) → Option (Dict String ℕ) → Option Bool → Io SessionRecord
  unfolding require_ready session_path read_session write_session mutated
  mutate_session key expected_revision events usage history_truncated = do
    _ ← require_ready
    path ← session_path host key
    found ← read_session path
    elim found [
      | none ↦ throw session_not_found
      | some r ↦
          let r' = mutated r events usage history_truncated now in
          if r.revision == expected_revision
          then (write_session path r' >>= λ _. pure r')
          else throw revision_conflict
    ]

  unfoldable pub truncate_session_events : SessionKey → ℕ → Io Unit
  unfolding session_path read_session write_session truncated
  truncate_session_events key keep_revision = do
    path ← session_path host key
    found ← read_session path
    elim found [
      | none ↦ pure tt
      | some r ↦
          if leb r.revision keep_revision
          then pure tt
          else write_session path (truncated r keep_revision)
    ]
