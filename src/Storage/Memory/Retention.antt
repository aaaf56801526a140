-- ===== src/Storage/Memory/Retention.antt =====
-- app/storage/memory.py: what a sweep removes, and what it leaves.
use agentstrata.Json.{end, field, str}
use agentstrata.Prelude.{
  Bool, String, [], any, arith, false, if◌then◌else◌, keep_if, none, not, some, true, ℕ, ◌&&◌, ◌+◌,
  ◌<◌, ◌∷◌, ◌≡◌, ◌≢◌, ◌≤◌, ◌⊎◌,
}
use agentstrata.Prelude.Dict.{Dict, contains, get}
use agentstrata.Prelude.Keys.{get-keep_if_value, get-map_value}
use agentstrata.Storage.Contract.{seconds}
use agentstrata.Storage.Memory.Fences.{current_fence}
use agentstrata.Storage.Memory.Runs.{get_run}
use agentstrata.Storage.Memory.Sessions.{get_session, has_live_run}
use agentstrata.Storage.Memory.State.{MemoryBackend, in_session}
use agentstrata.Storage.Memory.Sweep.{
  interrupt, interrupted, is_stale, older_than, session_expired, sweep, sweeps_run, sweeps_session,
}
use agentstrata.Storage.Memory.WellFormed.{IsWellFormed}
use agentstrata.Storage.Model.{
  RunKey, RunRecord, SessionKey, SessionRecord, key_discrete, run_key_discrete, terminal,
}

-- In a well-formed backend, a sweep removes a stored session if age expiry is on, the session has
-- been idle for longer than the limit, nobody has a fence on it and none of its runs is live.
-- Otherwise it leaves the session as it is, and one of these four conditions fails.
pub sweep-session :
    (now : ℕ) (key : SessionKey) (b : MemoryBackend) (r : SessionRecord)
    → IsWellFormed b
    → get_session key b ≡ some r
    → ((0 < b.settings.session_ttl_seconds)
        × (r.updated_at + seconds b.settings.session_ttl_seconds < now)
        × (current_fence key b ≡ none)
        × (has_live_run key b ≡ false)
        × (get_session key (sweep now b).1 ≡ none))
      ⊎ (((b.settings.session_ttl_seconds ≡ 0)
            ⊎ (now ≤ r.updated_at + seconds b.settings.session_ttl_seconds)
            ⊎ (current_fence key b ≢ none)
            ⊎ (has_live_run key b ≡ true))
          × (get_session key (sweep now b).1 ≡ some r))
unfolding get_session sweep sweeps_session session_expired older_than contains current_fence
sweep-session now key b r wf here = ground (
  arith,
  get-keep_if_value key_discrete (λ e. not (sweeps_session b now e)) key b.sessions wf.sessions,
)

-- In a well-formed backend, a sweep drops a stored run that is terminal and was last updated
-- longer ago than the limit. A run that is as old but not terminal, whether or not the fence of
-- its session is held and also where it awaits an approval, it marks as failed with the error
-- code `run_interrupted`. It leaves every younger run as it is.
pub sweep-run :
    (now : ℕ) (k : RunKey) (b : MemoryBackend) (r : RunRecord)
    → IsWellFormed b
    → get_run k b ≡ some r
    → ((r.updated_at + seconds b.settings.run_ttl_seconds < now)
        × (terminal r ≡ true)
        × (get_run k (sweep now b).1 ≡ none))
      ⊎ ((r.updated_at + seconds b.settings.run_ttl_seconds < now)
          × (terminal r ≡ false)
          × (get_run k (sweep now b).1
              ≡ some (record r {
                status = "failed";
                outcome = field "error_code" (str "run_interrupted") end;
                updated_at = now;
              })))
      ⊎ ((now ≤ r.updated_at + seconds b.settings.run_ttl_seconds)
          × (get_run k (sweep now b).1 ≡ some r))
unfolding get_run sweep sweeps_run interrupt interrupted is_stale older_than
sweep-run now k b r wf here =
    let left = keep_if (λ (e : RunKey × RunRecord). not (sweeps_run b now e)) b.runs in
    let give_up =
      λ (j : RunKey) (s : RunRecord). if is_stale b now s then interrupted now s else s in
    ground (
      arith,
      get-map_value run_key_discrete give_up k left,
      get-keep_if_value run_key_discrete (λ e. not (sweeps_run b now e)) k b.runs wf.runs,
    )

any-lookup :
    (p : RunKey × RunRecord → Bool) (k : RunKey) (r : RunRecord) (d : Dict RunKey RunRecord)
    → get run_key_discrete k d ≡ some r
    → p (k, r) ≡ true
    → any p d ≡ true
unfolding any get
any-lookup p k r [] h q = absurd (ground arith)
any-lookup p k r ((j, s) ∷ d) h q = elim (run_key_discrete j k) [
  | yes e ↦
      let same : s ≡ r = ground arith in
      let first : p (j, s) ≡ true = rw (e, same) q in ground arith
  | no e ↦ ground (arith, any-lookup p k r d)
]

-- In a well-formed backend, a session with a run that is not terminal outlives a sweep unchanged.
pub sweep-live_run :
    (now : ℕ) (key : SessionKey) (id : String) (b : MemoryBackend) (s : SessionRecord)
    (r : RunRecord)
    → IsWellFormed b
    → get_session key b ≡ some s
    → get_run (key, id) b ≡ some r
    → terminal r ≡ false
    → get_session key (sweep now b).1 ≡ some s
unfolding get_run has_live_run in_session
sweep-live_run now key id b s r wf here there live =
    let busy : has_live_run key b ≡ true =
      any-lookup (λ e. in_session key e.0 && not (terminal e.1)) (key, id) r b.runs there
        (ground arith) in
    ground (arith, sweep-session now key b s wf here)
