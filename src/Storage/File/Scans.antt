-- ===== src/Storage/File/Scans.antt =====
-- app/storage/file_backend.py: the methods that go through a directory: the deletion of a
-- session, the list of sessions, and the search for a run.
use agentstrata.Json.{Json}
use agentstrata.Prelude.{
  Bool, List, Option, String, [], any, false, if◌then◌else◌, keep_if, none, not, some, str_eq, true,
  ℕ, ◌++◌, ◌||◌, ◌∷◌,
}
use agentstrata.Storage.Codec.{run_from_json, session_from_json}
use agentstrata.Storage.Contract.{session_busy}
use agentstrata.Storage.File.Runs.{list_runs, read_all, run_prefix}
use agentstrata.Storage.File.Sessions.{read_session}
use agentstrata.Storage.File.State.{
  Directory, Host, Io, glob_names, pure, read_record, require_ready, session_dir, session_path,
  throw, unlink, ◌>>=◌,
}
use agentstrata.Storage.Model.{RunRecord, SessionKey, SessionRecord, codes, terminal}
use agentstrata.Storage.Parsing.{Parsed}
use agentstrata.Text.{Text, occurs}

-- for path in paths: path.unlink(missing_ok=True)
unfoldable pub unlink_all : Directory → List Text → Io Unit
unfolding unlink
unlink_all directory [] = pure tt
unlink_all directory (name ∷ names) = unlink (directory, name) >>= λ _. unlink_all directory names

-- for idem_path in directory.glob(f"{session_id}.idem-*.json")
unfoldable pub idem_prefix : String → Text
unfolding codes
idem_prefix session_id = codes session_id ++ codes ".idem-"

-- ".run-" in path.name or ".idem-" in path.name
unfoldable pub names_other : Text → Bool
unfolding occurs codes
names_other name = occurs (codes ".run-") name || occurs (codes ".idem-") name

-- The loop of `find_run`.
unfoldable pub find_in :
    (Json → Parsed RunRecord) → Directory → String → List Text → Io (Option RunRecord)
unfolding read_record
find_in parser directory run_id [] = pure none
find_in parser directory run_id (name ∷ names) = do
  found ← read_record (directory, name) parser
  let rest = find_in parser directory run_id names
  elim found [ none ↦ rest | some r ↦ if str_eq r.key.1 run_id then pure (some r) else rest ]

module _ (host : Host) (now : ℕ) where
  unfoldable pub unlink_glob : Directory → Text → Io Unit
  unfolding unlink_all glob_names
  unlink_glob directory prefix b = unlink_all directory (glob_names host directory prefix b) b

  unfoldable pub delete_session : SessionKey → Io Bool
  unfolding require_ready session_path read_session list_runs terminal any unlink unlink_glob
      run_prefix idem_prefix
  delete_session key = do
    _ ← require_ready
    path ← session_path host key
    found ← read_session host now path
    elim found [
      | none ↦ pure false
      | some _ ↦ (do
        runs ← list_runs host now key
        _ ← (if any (λ r. not (terminal r)) runs then throw session_busy else pure tt)
        _ ← unlink path
        _ ← unlink_glob path.0 (run_prefix key.2)
        _ ← unlink_glob path.0 (idem_prefix key.2)
        pure true)
    ]

  unfoldable pub list_sessions : String → String → Io (List SessionRecord)
  unfolding session_dir read_all glob_names keep_if names_other session_from_json
  list_sessions agent_name principal_id =
      session_dir host agent_name principal_id >>= λ directory b.
      read_all (session_from_json host.iso now) directory
        (keep_if (λ name. not (names_other name)) (glob_names host directory [] b)) b

  unfoldable pub find_run : String → String → String → Io (Option RunRecord)
  unfolding session_dir find_in glob_names codes run_from_json
  find_run agent_name principal_id run_id =
      session_dir host agent_name principal_id >>= λ directory b.
      find_in (run_from_json host.iso now) directory run_id
        (glob_names host directory (codes "run-") b) b
