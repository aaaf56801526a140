-- ===== src/Storage/Memory/Sweep.antt =====
-- app/storage/memory.py: retention. A record that is changed in place is a changed entry.
use agentstrata.Json.{end, field, str}
use agentstrata.Prelude.{
  Bool, count_if, false, if◌then◌else◌, keep_if, leb, ltb, map, none, not, some, ℕ, ◌&&◌, ◌+◌, ◌==◌,
}
use agentstrata.Prelude.Dict.{contains}
use agentstrata.Storage.Contract.{ok, seconds}
use agentstrata.Storage.Memory.Sessions.{has_live_run}
use agentstrata.Storage.Memory.State.{Action, MemoryBackend}
use agentstrata.Storage.Model.{
  IdempotencyRecord, RunKey, RunRecord, SessionKey, SessionRecord, key_discrete, terminal,
}

-- The counts that `sweep` returns.
pub record SweepStats : Type 0 where
  pub sessions : ℕ
  pub runs : ℕ
  pub idempotency : ℕ
  pub interrupted : ℕ

-- (now - since).total_seconds() > ttl
unfoldable pub older_than : ℕ → ℕ → ℕ → Bool
older_than ttl since now = ltb (since + seconds ttl) now

-- _session_expired
unfoldable pub session_expired : MemoryBackend → SessionRecord → ℕ → Bool
unfolding older_than
session_expired b r now =
    let ttl = b.settings.session_ttl_seconds in
    if ttl == 0 then false else older_than ttl r.updated_at now

unfoldable pub sweeps_session : MemoryBackend → ℕ → SessionKey × SessionRecord → Bool
unfolding session_expired has_live_run contains key_discrete
sweeps_session b now e =
    session_expired b e.1 now
    && not (contains key_discrete e.0 b.fences)
    && not (has_live_run e.0 b)

unfoldable pub sweeps_run : MemoryBackend → ℕ → RunKey × RunRecord → Bool
unfolding older_than terminal
sweeps_run b now e = terminal e.1 && older_than b.settings.run_ttl_seconds e.1.updated_at now

unfoldable pub is_stale : MemoryBackend → ℕ → RunRecord → Bool
unfolding older_than terminal
is_stale b now r = not (terminal r) && older_than b.settings.run_ttl_seconds r.updated_at now

-- The record of a run that is given up.
unfoldable pub interrupted : ℕ → RunRecord → RunRecord
interrupted now r = record r {
  status = "failed";
  outcome = field "error_code" (str "run_interrupted") end;
  updated_at = now;
}

unfoldable pub interrupt : MemoryBackend → ℕ → RunKey × RunRecord → RunKey × RunRecord
unfolding is_stale interrupted
interrupt b now e = (e.0, if is_stale b now e.1 then interrupted now e.1 else e.1)

unfoldable pub sweeps_idempotency : ℕ → RunKey × IdempotencyRecord → Bool
sweeps_idempotency now e = elim e.1.expires_at [ none ↦ false | some t ↦ leb t now ]

unfoldable pub sweep : ℕ → Action SweepStats
unfolding sweeps_session sweeps_run interrupt is_stale sweeps_idempotency keep_if count_if
sweep now b =
    let kept_runs = keep_if (λ e. not (sweeps_run b now e)) b.runs in
    (
      ok (record {
        sessions = count_if (sweeps_session b now) b.sessions;
        runs = count_if (sweeps_run b now) b.runs;
        idempotency = count_if (sweeps_idempotency now) b.idempotency;
        interrupted = count_if (λ (e : RunKey × RunRecord). is_stale b now e.1) kept_runs;
      }),
      record b {
        sessions = keep_if (λ e. not (sweeps_session b now e)) b.sessions;
        runs = map (interrupt b now) kept_runs;
        idempotency = keep_if (λ e. not (sweeps_idempotency now e)) b.idempotency;
      },
    )
