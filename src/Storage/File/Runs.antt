-- ===== src/Storage/File/Runs.antt =====
-- app/storage/file_backend.py: the run methods, and the bound on the runs of a session.
use agentstrata.Json.{Fields, Json}
use agentstrata.Prelude.{
  List, Option, String, [], get_or, if◌then◌else◌, keep_if, leb, length, none, not, some, str_eq, ℕ,
  ◌++◌, ◌∷◌,
}
use agentstrata.Prelude.Dict.{Dict}
use agentstrata.Storage.Codec.{run_from_json, run_to_json}
use agentstrata.Storage.Contract.{capacity_error, invalid_session_id, session_not_found}
use agentstrata.Storage.File.Names.{run_file, session_file}
use agentstrata.Storage.File.Sessions.{read_session, write_session}
use agentstrata.Storage.File.State.{
  Directory, Host, Io, FilePath, glob_names, pure, read_record, require_ready, session_dir, throw,
  unlink, write, ◌>>=◌,
}
use agentstrata.Storage.Memory.Eviction.{terminals}
use agentstrata.Storage.Memory.Runs.{new_run, sort_by_age, updated}
use agentstrata.Storage.Memory.Sessions.{new_session}
use agentstrata.Storage.Model.{
  RunKey, RunRecord, SessionKey, SessionRecord, codes, terminal, validate_session_id,
}
use agentstrata.Storage.Parsing.{Parsed}
use agentstrata.Text.{Text}

-- The loop that reads each path and keeps the records that are there.
unfoldable pub read_all : {A : Type 0} → (Json → Parsed A) → Directory → List Text → Io (List A)
unfolding read_record
read_all parser directory [] = pure []
read_all parser directory (name ∷ names) = do
  found ← read_record (directory, name) parser
  rest ← read_all parser directory names
  pure (elim found [ none ↦ rest | some r ↦ r ∷ rest ])

-- The glob that the names of a session's runs match.
unfoldable pub run_prefix : String → Text
unfolding codes
run_prefix session_id = codes session_id ++ codes ".run-"

-- while len(runs) >= cap and terminal: …; the runs that are left
unfoldable pub evict :
    Directory → String → ℕ → List RunRecord → List RunRecord → Io (List RunRecord)
unfolding run_file unlink keep_if
evict directory session_id cap [] runs = pure runs
evict directory session_id cap (oldest ∷ terminals) runs =
    let others = keep_if (λ (r : RunRecord). not (str_eq r.key.1 oldest.key.1)) runs in
    let rest = unlink (directory, run_file session_id oldest.key.1) >>= λ _.
    evict directory session_id cap terminals others in
    if leb cap (length runs) then rest else pure runs

-- if session is None: raise
unfoldable pub require_session : Option SessionRecord → Io Unit
require_session none = throw session_not_found
require_session (some r) = pure tt

module _ (host : Host) (now : ℕ) where
  unfoldable pub read_run : FilePath → Io (Option RunRecord)
  unfolding read_record run_from_json
  read_run path = read_record path (run_from_json host.iso now)

  unfoldable pub write_run : FilePath → RunRecord → Io Unit
  unfolding write run_to_json
  write_run path r = write path (run_to_json host.iso r)

  -- The records that `list_runs`, `_enforce_run_capacity` and the sweep read.
  unfoldable pub runs_in : Directory → String → Io (List RunRecord)
  unfolding read_all glob_names run_prefix run_from_json
  runs_in directory session_id b =
      read_all (run_from_json host.iso now) directory
        (glob_names host directory (run_prefix session_id) b) b

  -- _enforce_run_capacity
  unfoldable pub enforce_run_capacity : Directory → String → Io Unit
  unfolding runs_in evict sort_by_age terminal keep_if
  enforce_run_capacity directory session_id b =
      let cap = b.settings.max_runs_per_session in
      (do
        runs ← runs_in directory session_id
        left ← evict directory session_id cap (sort_by_age (keep_if terminal runs)) runs
        if leb cap (length left) then throw capacity_error else pure tt)
        b

  unfoldable pub create_run : RunKey → Fields → Io RunRecord
  unfolding require_ready session_dir run_file session_file read_run write_run read_session
      require_session enforce_run_capacity new_run
  create_run key run_input = do
    _ ← require_ready
    directory ← session_dir host key.0.0 key.0.1
    existing ← read_run (directory, run_file key.0.2 key.1)
    let created = new_run key run_input now
    elim existing [
      | some r ↦ pure r
      | none ↦ (do
        session ← read_session host now (directory, session_file key.0.2)
        _ ← require_session session
        _ ← enforce_run_capacity directory key.0.2
        _ ← write_run (directory, run_file key.0.2 key.1) created
        pure created)
    ]

  -- The part of `admit_run` that ensures the session; what it returns is the session.
  unfoldable pub ensure_session : Directory → SessionKey → Io SessionRecord
  unfolding session_file read_session write_session new_session
  ensure_session directory key = do
    session ← read_session host now (directory, session_file key.2)
    let created = new_session key [] now
    elim session [
      | some r ↦ pure r
      | none ↦ write_session host now (directory, session_file key.2) created >>= λ _. pure created
    ]

  unfoldable pub admit_run :
      String → String → Option String → String → String → Fields → Io (String × ℕ)
  unfolding require_ready session_dir run_file read_run write_run ensure_session
      enforce_run_capacity new_run
  admit_run agent_name principal_id session_id fresh_id run_id run_input =
      let sid = get_or session_id fresh_id in
      do
        _ ← require_ready
        _ ← (if validate_session_id sid then pure tt else throw invalid_session_id)
        directory ← session_dir host agent_name principal_id
        session ← ensure_session directory (agent_name, principal_id, sid)
        run ← read_run (directory, run_file sid run_id)
        let created = new_run ((agent_name, principal_id, sid), run_id) run_input now
        elim run [
          | some _ ↦ pure (sid, session.revision)
          | none ↦ (do
            _ ← enforce_run_capacity directory sid
            _ ← write_run (directory, run_file sid run_id) created
            pure (sid, session.revision))
        ]

  unfoldable pub get_run : RunKey → Io (Option RunRecord)
  unfolding session_dir run_file read_run
  get_run key =
      session_dir host key.0.0 key.0.1 >>= λ directory. read_run (directory, run_file key.0.2 key.1)

  unfoldable pub update_run :
      RunKey
      → Option String
      → Option ℕ
      → Option Fields
      → Option (Dict String ℕ)
      → Io (Option RunRecord)
  unfolding session_dir run_file read_run write_run updated
  update_run key status iteration_count outcome usage = do
    directory ← session_dir host key.0.0 key.0.1
    found ← read_run (directory, run_file key.0.2 key.1)
    elim found [
      | none ↦ pure none
      | some r ↦
          let r' = updated r status iteration_count outcome usage now in
          write_run (directory, run_file key.0.2 key.1) r' >>= λ _. pure (some r')
    ]

  unfoldable pub list_runs : SessionKey → Io (List RunRecord)
  unfolding session_dir runs_in
  list_runs key = session_dir host key.0 key.1 >>= λ directory. runs_in directory key.2
