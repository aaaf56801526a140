-- ===== src/Storage/File/Approvals.antt =====
-- app/storage/file_backend.py: the approval methods.
use agentstrata.Json.{Json}
use agentstrata.Prelude.{
  Bool, List, Option, String, [], false, if◌then◌else◌, ite, keep_if, none, some, str_eq, true, ℕ,
  ◌++◌, ◌+◌, ◌∷◌,
}
use agentstrata.Prelude.Dict.{Dict}
use agentstrata.Storage.Codec.Approvals.{approval_from_json, approval_to_json}
use agentstrata.Storage.File.Names.{approval_file}
use agentstrata.Storage.File.Runs.{read_all}
use agentstrata.Storage.File.State.{
  Directory, Host, Io, FilePath, directory_discrete, glob_names, pure, read_record, require_ready,
  session_dir, write, ◌>>=◌,
}
use agentstrata.Storage.Memory.Approvals.{
  ApprovalRequest, decidable, new_approval, overdue, sort_by_creation, timed_out,
}
use agentstrata.Storage.Model.{ApprovalRecord, SessionKey, codes}
use agentstrata.Text.{Text}

-- The directories of an agent, or of all agents, that hold a file, each once, in the order of
-- their first files; the host's order of directories is not modelled.
unfoldable pub directories : (Directory → Bool) → Dict FilePath (Option Json) → List Directory
unfolding keep_if directory_discrete
directories p [] = []
directories p ((path, doc) ∷ files) =
    let rest = directories p files in
    if p path.0
    then path.0 ∷ keep_if (λ d. ite (directory_discrete d path.0) false true) rest
    else rest

module _ (host : Host) (now : ℕ) where
  unfoldable pub read_approval : FilePath → Io (Option ApprovalRecord)
  unfolding read_record approval_from_json
  read_approval path = read_record path (approval_from_json host.iso now)

  unfoldable pub write_approval : FilePath → ApprovalRecord → Io Unit
  unfolding write approval_to_json
  write_approval path r = write path (approval_to_json host.iso r)

  -- _approval_path
  unfoldable pub approval_path : SessionKey → Io FilePath
  unfolding session_dir approval_file
  approval_path key =
      session_dir host key.0 key.1 >>= λ directory. pure (directory, approval_file key.2)

  unfoldable pub create_approval : SessionKey → ApprovalRequest → Io ApprovalRecord
  unfolding require_ready approval_path write_approval new_approval
  create_approval key req =
      let r = new_approval key req now in
      do _ ← require_ready; path ← approval_path key; _ ← write_approval path r; pure r

  unfoldable pub get_approval : SessionKey → Io (Option ApprovalRecord)
  unfolding approval_path read_approval
  get_approval key = approval_path key >>= λ path. read_approval path

  -- The approvals of one directory.
  unfoldable pub approvals_in : Directory → Io (List ApprovalRecord)
  unfolding read_all glob_names codes approval_from_json
  approvals_in directory b =
      read_all (approval_from_json host.iso now) directory
        (glob_names host directory (codes "approval-") b) b

  unfoldable pub list_approvals : SessionKey → Io (List ApprovalRecord)
  unfolding session_dir approvals_in sort_by_creation keep_if
  list_approvals key = do
    directory ← session_dir host key.0 key.1
    records ← approvals_in directory
    pure (sort_by_creation (keep_if (λ r. str_eq r.session_id key.2) records))

  -- root.glob("*/approval-*.json")
  unfoldable pub approvals_under : List Directory → Io (List ApprovalRecord)
  unfolding approvals_in
  approvals_under [] = pure []
  approvals_under (directory ∷ rest) = do
    here ← approvals_in directory
    others ← approvals_under rest
    pure (here ++ others)

  unfoldable pub list_all_approvals : String → Io (List ApprovalRecord)
  unfolding approvals_under directories sort_by_creation
  list_all_approvals agent_name b =
      (approvals_under (directories (λ d. str_eq d.0 agent_name) b.files) >>= λ records.
      pure (sort_by_creation records))
        b

  unfoldable pub decide_approval : SessionKey → String → Option String → Io (Option ApprovalRecord)
  unfolding approval_path read_approval write_approval decidable
  decide_approval key decision reason = do
    path ← approval_path key
    found ← read_approval path
    elim found [
      | none ↦ pure none
      | some r ↦
          let r' = record r {
            status = decision;
            reason = reason;
            decided_at = some now;
            revision = r.revision + 1;
          } in
          if decidable r decision now
          then (write_approval path r' >>= λ _. pure (some r'))
          else pure none
    ]

  -- The loop of `_expire`.
  unfoldable pub expire_names : Directory → List Text → Io (List ApprovalRecord)
  unfolding read_approval write_approval overdue timed_out
  expire_names directory [] = pure []
  expire_names directory (name ∷ names) = do
    found ← read_approval (directory, name)
    let rest = expire_names directory names
    elim found [
      | none ↦ rest
      | some r ↦
          if overdue now r
          then (do
            _ ← write_approval (directory, name) (timed_out now r)
            out ← rest
            pure (timed_out now r ∷ out))
          else rest
    ]

  unfoldable pub expire_under : List Directory → Io (List ApprovalRecord)
  unfolding expire_names glob_names codes
  expire_under [] = pure []
  expire_under (directory ∷ rest) = do
    here ← λ b. expire_names directory (glob_names host directory (codes "approval-") b) b
    others ← expire_under rest
    pure (here ++ others)

  unfoldable pub expire_approvals : Io (List ApprovalRecord)
  unfolding expire_under directories
  expire_approvals b = expire_under (directories (λ d. true) b.files) b
