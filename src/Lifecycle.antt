-- ===== src/Lifecycle.antt =====
-- app/lifecycle.py: the graceful shutdown. Time is counted in ticks of the monotonic clock, and
-- only waiting takes time. What a part's `close` does is an argument: whether it raises.
pub mod Grace
pub mod Signals
mod Examples
use agentstrata.Prelude.{
  Bool, List, Option, [], false, if◌then◌else◌, keep_if, leb, ltb, max, none, some, suc, true, zero,
  ℕ, ◌&&◌, ◌++◌, ◌+◌, ◌-◌, ◌||◌, ◌∷◌, ◌≡◌, ◌≤◌,
}

-- A run's task in the registry: when it is added, and when it ends unless it is cancelled.
pub record Run : Type 0 where
  pub admitted : ℕ
  pub finished : ℕ

-- In the registry, and its task is not done.
unfoldable pub is_pending : ℕ → Run → Bool
is_pending now run = leb run.admitted now && ltb now run.finished

-- [t for t in list(registry or ()) if not t.done()]
unfoldable pub pending : ℕ → List Run → List Run
unfolding is_pending keep_if
pending now runs = keep_if (is_pending now) runs

-- When `asyncio.wait(pending, return_when=ALL_COMPLETED)` returns.
unfoldable pub all_completed : List Run → ℕ
all_completed [] = 0
all_completed (run ∷ runs) = max run.finished (all_completed runs)

-- One turn of the loop from a snapshot on; `rest` are the turns that follow.
unfoldable pub after_snapshot : Bool → ℕ → ℕ → ℕ → List Run → Option ℕ → Option ℕ
unfolding all_completed
after_snapshot true now grace deadline [] rest = some (now + grace)
after_snapshot false now grace deadline [] rest = some now
after_snapshot first now grace deadline (run ∷ runs) rest =
    if leb deadline now
    then some now
    else if leb (all_completed (run ∷ runs)) deadline
    then rest
    else some deadline

-- `while True` of `_drain_after_grace`, from `now` on: the time at which it ends. The fuel bounds
-- the number of snapshots.
unfoldable pub drain_wait : ℕ → Bool → ℕ → ℕ → ℕ → List Run → Option ℕ
unfolding pending all_completed after_snapshot
drain_wait zero first now grace deadline runs = none
drain_wait (suc fuel) first now grace deadline runs =
    let found = pending now runs in
    let rest = drain_wait fuel false (all_completed found) grace deadline runs in
    after_snapshot first now grace deadline found rest

-- The loop, from a drain that starts at `start`.
unfoldable pub drain_from : ℕ → ℕ → List Run → Option ℕ
unfolding drain_wait
drain_from start grace runs = drain_wait (grace + 1) true start grace (start + grace) runs

-- The tasks that `_cancel_inflight_runs` cancels at a time.
unfoldable pub cancelled : ℕ → List Run → List Run
unfolding pending
cancelled now runs = pending now runs

-- The components that `close_components` closes; an absent one is none, and a present one says
-- whether it closes without raising.
pub record Closing : Type 0 where
  pub watcher : Option Bool
  pub mcp : Option Bool
  pub storage : Option Bool
  pub otel : Option Bool

pub data Label : Type 0 where
  watcher_label : Label
  mcp_label : Label
  storage_label : Label
  otel_label : Label

-- `_safe` on a component that is present: `ok`, the failures and the closed components after it.
unfoldable pub close_safe : Label → Option Bool → Bool × List Label → Bool × List Label
close_safe part none (fine, failures) = (fine, failures)
close_safe part (some true) (fine, failures) = (fine, failures)
close_safe part (some false) (fine, failures) = (false, failures ++ part ∷ [])

unfoldable pub close_components : Closing → Bool × List Label
unfolding close_safe
close_components c = close_safe otel_label c.otel (
    close_safe storage_label c.storage
      (close_safe mcp_label c.mcp (close_safe watcher_label c.watcher (true, []))))

pub record ShutdownManager : Type 0 where
  pub draining : Bool
  pub closed : Bool
  pub close_ok : Bool
  pub signals : ℕ
  -- the drain tasks that run
  pub drain_tasks : ℕ
  pub should_exit : Bool
  -- `_hard_exit`
  pub exited : Option ℕ

-- __init__
unfoldable pub new_shutdown : ShutdownManager
new_shutdown = record {
  draining = false;
  closed = false;
  close_ok = true;
  signals = 0;
  drain_tasks = 0;
  should_exit = false;
  exited = none;
}

-- request_shutdown
unfoldable pub request_shutdown : ShutdownManager → ShutdownManager
request_shutdown s =
    let counted = record s { signals = s.signals + 1 } in
    if leb 2 (s.signals + 1)
    then record counted { exited = some 1 }
    else if s.draining
    then counted
    else record counted { draining = true; drain_tasks = s.drain_tasks + 1 }

-- What `_drain_after_grace` does after its loop, once the runs are cancelled; `has_server` is
-- whether the manager has a server.
unfoldable pub drain_after_grace : Closing → Bool → ShutdownManager → ShutdownManager
unfolding close_components
drain_after_grace c has_server s = record s {
  close_ok = (close_components c).0;
  closed = true;
  drain_tasks = s.drain_tasks - 1;
  should_exit = has_server || s.should_exit;
}

-- The exit code that the drain logs.
unfoldable pub exit_code : ShutdownManager → ℕ
exit_code s = if s.close_ok then 0 else 1

-- What happens to a manager: a signal, and the end of a drain task while the process lives.
pub data Happens (c : Closing) (has_server : Bool)
    : ShutdownManager → ShutdownManager → Type 0 where
  signal : (s : ShutdownManager) → s.exited ≡ none → Happens c has_server s (request_shutdown s)
  drained :
      (s : ShutdownManager)
      → s.exited ≡ none
      → 1 ≤ s.drain_tasks
      → Happens c has_server s (drain_after_grace c has_server s)
