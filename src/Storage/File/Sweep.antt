-- ===== src/Storage/File/Sweep.antt =====
-- app/storage/file_backend.py: retention.
use agentstrata.Json.{end, field, str}
use agentstrata.Prelude.{
  Bool, List, [], any, if◌then◌else◌, leb, length, map, none, not, some, take, true, ℕ, ◌&&◌, ◌+◌,
  ◌-◌, ◌==◌, ◌||◌, ◌∷◌,
}
use agentstrata.Prelude.Dict.{contains}
use agentstrata.Storage.File.Approvals.{directories}
use agentstrata.Storage.File.Idempotency.{read_idempotency}
use agentstrata.Storage.File.Runs.{read_run, runs_in, write_run}
use agentstrata.Storage.File.Sessions.{read_session}
use agentstrata.Storage.File.State.{Directory, Host, Io, FilePath, glob_names, pure, unlink, ◌>>=◌}
use agentstrata.Storage.Memory.Sweep.{SweepStats, interrupted, older_than}
use agentstrata.Storage.Model.{codes, key_discrete, terminal}
use agentstrata.Text.{Text, ends_with, occurs}

-- path.stem, of a name that ends in ".json"
unfoldable pub stem : Text → Text
stem name = take (length name - 5) name

-- name.endswith(".run") or ".run-" in name
unfoldable pub names_run : Text → Bool
unfolding ends_with occurs codes
names_run name = ends_with name (codes ".run") || occurs (codes ".run-") name

-- name.endswith(".idem") or ".idem-" in name
unfoldable pub names_idem : Text → Bool
unfolding ends_with occurs codes
names_idem name = ends_with name (codes ".idem") || occurs (codes ".idem-") name

unfoldable pub add_stats : SweepStats → SweepStats → SweepStats
add_stats a b = record {
  sessions = a.sessions + b.sessions;
  runs = a.runs + b.runs;
  idempotency = a.idempotency + b.idempotency;
  interrupted = a.interrupted + b.interrupted;
}

module _ (host : Host) (now : ℕ) where
  -- _maybe_delete_session
  unfoldable pub maybe_delete_session : FilePath → Io ℕ
  unfolding read_session contains key_discrete older_than runs_in terminal any unlink
  maybe_delete_session path = do
    found ← read_session host now path
    elim found [
      | none ↦ pure 0
      | some r ↦ λ b.
          let ttl = b.settings.session_ttl_seconds in
          (if contains key_discrete (path.0.0, path.0.1, r.key.2) b.fences
              then pure 0
              else if not (ttl == 0) && older_than ttl r.updated_at now
              then (do
                runs ← runs_in host now path.0 r.key.2
                (if any (λ run. not (terminal run)) runs
                    then pure 0
                    else unlink path >>= λ _. pure 1))
              else pure 0)
            b
    ]

  -- _maybe_delete_run
  unfoldable pub maybe_delete_run : FilePath → Io ℕ
  unfolding read_run older_than terminal unlink
  maybe_delete_run path = do
    found ← read_run host now path
    elim found [
      | none ↦ pure 0
      | some r ↦ λ b.
          (if terminal r && older_than b.settings.run_ttl_seconds r.updated_at now
              then (unlink path >>= λ _. pure 1)
              else pure 0)
            b
    ]

  -- _maybe_reconcile_run
  unfoldable pub maybe_reconcile_run : FilePath → Io ℕ
  unfolding read_run write_run older_than terminal
  maybe_reconcile_run path = do
    found ← read_run host now path
    elim found [
      | none ↦ pure 0
      | some r ↦ λ b.
          let r' = record r {
            status = "failed";
            outcome = field "error_code" (str "run_interrupted") end;
            updated_at = now;
          } in
          (if not (terminal r) && older_than b.settings.run_ttl_seconds r.updated_at now
              then (write_run host now path r' >>= λ _. pure 1)
              else pure 0)
            b
    ]

  -- _maybe_delete_idem
  unfoldable pub maybe_delete_idem : FilePath → Io ℕ
  unfolding read_idempotency unlink
  maybe_delete_idem path = do
    found ← read_idempotency host now path
    elim found [
      | none ↦ pure 0
      | some r ↦ elim r.expires_at [
        | none ↦ pure 0
        | some t ↦ if leb t now then (unlink path >>= λ _. pure 1) else pure 0
      ]
    ]

  -- One path of the loop of `sweep`.
  unfoldable pub sweep_path : FilePath → Io SweepStats
  unfolding names_run names_idem stem maybe_delete_run maybe_reconcile_run maybe_delete_idem
      maybe_delete_session
  sweep_path path =
      if names_run (stem path.1)
      then (do
        runs ← maybe_delete_run path
        interrupted ← maybe_reconcile_run path
        pure (record { sessions = 0; runs = runs; idempotency = 0; interrupted = interrupted }))
      else if names_idem (stem path.1)
      then (do
        idempotency ← maybe_delete_idem path
        pure (record { sessions = 0; runs = 0; idempotency = idempotency; interrupted = 0 }))
      else (do
        sessions ← maybe_delete_session path
        pure (record { sessions = sessions; runs = 0; idempotency = 0; interrupted = 0 }))

  unfoldable pub sweep_paths : SweepStats → List FilePath → Io SweepStats
  unfolding sweep_path add_stats
  sweep_paths stats [] = pure stats
  sweep_paths stats (path ∷ paths) =
      sweep_path path >>= λ more. sweep_paths (add_stats stats more) paths

  -- for path in list(principal_dir.glob("*.json"))
  unfoldable pub sweep_directories : SweepStats → List Directory → Io SweepStats
  unfolding sweep_paths glob_names
  sweep_directories stats [] = pure stats
  sweep_directories stats (directory ∷ rest) = do
    here ←
        λ b. sweep_paths stats (map (λ name. (directory, name)) (glob_names host directory [] b)) b
    sweep_directories here rest

  unfoldable pub sweep : Io SweepStats
  unfolding sweep_directories directories
  sweep b =
      sweep_directories (record { sessions = 0; runs = 0; idempotency = 0; interrupted = 0 })
        (directories (λ d. true) b.files) b
