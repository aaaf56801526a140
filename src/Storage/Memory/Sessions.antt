-- ===== src/Storage/Memory/Sessions.antt =====
-- app/storage/memory.py: the session methods. The id that `new_session_id` draws and the time
-- are arguments.
use agentstrata.Json.{Json}
use agentstrata.Prelude.{
  Bool, List, Option, String, [], any, false, get_or, if◌then◌else◌, keep_if, leb, length, map,
  none, not, some, str_eq, take, true, ℕ, ◌&&◌, ◌++◌, ◌+◌, ◌-◌, ◌==◌,
}
use agentstrata.Prelude.Dict.{Dict, get, pop, put}
use agentstrata.Storage.Contract.{
  backend_unavailable, invalid_session_id, ok, raise, revision_conflict, session_busy,
  session_not_found,
}
use agentstrata.Storage.Memory.State.{Action, MemoryBackend, in_session, merge_usage}
use agentstrata.Storage.Model.{
  IdempotencyRecord, RunKey, RunRecord, SessionKey, SessionRecord, key_discrete, terminal,
  validate_session_id,
}

unfoldable pub new_session : SessionKey → List Json → ℕ → SessionRecord
new_session key events now = record {
  key = key;
  revision = 1;
  events = events;
  usage = [];
  history_truncated = false;
  created_at = now;
  updated_at = now;
}

-- The part of `create_session` under the lock.
unfoldable pub insert_session : SessionKey → List Json → ℕ → Action SessionRecord
unfolding new_session key_discrete
insert_session key events now b = elim (get key_discrete key b.sessions) [
  | some existing ↦ (ok existing, b)
  | none ↦
      let session = new_session key events now in
      (ok session, record b { sessions = put key_discrete key session b.sessions })
]

unfoldable pub create_session :
    String → String → Option String → String → Option (List Json) → ℕ → Action SessionRecord
unfolding insert_session
create_session agent_name principal_id session_id fresh_id initial_events now b =
    let sid = get_or session_id fresh_id in
    if b.closed
    then (raise backend_unavailable, b)
    else if validate_session_id sid
    then insert_session (agent_name, principal_id, sid) (get_or initial_events []) now b
    else (raise invalid_session_id, b)

unfoldable pub get_session : SessionKey → MemoryBackend → Option SessionRecord
unfolding key_discrete
get_session key b = get key_discrete key b.sessions

-- The record that `mutate_session` leaves.
unfoldable pub mutated :
    SessionRecord → Option (List Json) → Option (Dict String ℕ) → Option Bool → ℕ → SessionRecord
unfolding merge_usage
mutated r events usage history_truncated now = record r {
  events = r.events ++ get_or events [];
  usage = merge_usage usage r.usage;
  history_truncated = get_or history_truncated r.history_truncated;
  revision = r.revision + 1;
  updated_at = now;
}

unfoldable pub mutate_session :
    SessionKey
    → ℕ
    → Option (List Json)
    → Option (Dict String ℕ)
    → Option Bool
    → ℕ
    → Action SessionRecord
unfolding mutated key_discrete
mutate_session key expected_revision events usage history_truncated now b =
    elim (get key_discrete key b.sessions) [
      | none ↦ (raise session_not_found, b)
      | some r ↦
          let r' = mutated r events usage history_truncated now in
          if r.revision == expected_revision
          then (ok r', record b { sessions = put key_discrete key r' b.sessions })
          else (raise revision_conflict, b)
    ]

-- The record that `truncate_session_events` leaves: one event goes for each revision undone.
unfoldable pub truncated : SessionRecord → ℕ → SessionRecord
truncated r keep_revision =
    let per_rev = r.revision - keep_revision in
    record r { events = take (length r.events - per_rev) r.events; revision = keep_revision }

unfoldable pub truncate_session_events : SessionKey → ℕ → Action Unit
unfolding truncated key_discrete
truncate_session_events key keep_revision b = elim (get key_discrete key b.sessions) [
  | none ↦ (ok tt, b)
  | some r ↦
      let r' = truncated r keep_revision in
      if leb r.revision keep_revision
      then (ok tt, b)
      else (ok tt, record b { sessions = put key_discrete key r' b.sessions })
]

-- any(k[:3] == key and not r.terminal for k, r in self._runs.items())
unfoldable pub has_live_run : SessionKey → MemoryBackend → Bool
unfolding in_session terminal any
has_live_run key b =
    any (λ (e : RunKey × RunRecord). in_session key e.0 && not (terminal e.1)) b.runs

unfoldable pub delete_session : SessionKey → Action Bool
unfolding has_live_run key_discrete
delete_session key b = elim (get key_discrete key b.sessions) [
  | none ↦ (ok false, b)
  | some r ↦ if has_live_run key b then (raise session_busy, b) else (
    ok true,
    record b {
      sessions = pop key_discrete key b.sessions;
      runs = keep_if (λ (e : RunKey × RunRecord). not (in_session key e.0)) b.runs;
      idempotency =
          keep_if (λ (e : RunKey × IdempotencyRecord). not (in_session key e.0)) b.idempotency;
      fences = pop key_discrete key b.fences;
      fence_counters = pop key_discrete key b.fence_counters;
    },
  )
]

-- (a, p) == prefix
unfoldable pub owned_by : String → String → SessionKey → Bool
owned_by agent_name principal_id key = str_eq key.0 agent_name && str_eq key.1 principal_id

unfoldable pub list_sessions : String → String → MemoryBackend → List SessionRecord
unfolding owned_by keep_if
list_sessions agent_name principal_id b =
    map (λ e. e.1)
      (keep_if (λ (e : SessionKey × SessionRecord). owned_by agent_name principal_id e.0)
        b.sessions)
