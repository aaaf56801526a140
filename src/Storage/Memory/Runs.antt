-- ===== src/Storage/Memory/Runs.antt =====
-- app/storage/memory.py: the run methods and the bound on the runs of a session.
use agentstrata.Json.{Fields, end}
use agentstrata.Prelude.{
  List, Option, String, [], get_or, if◌then◌else◌, keep_if, leb, length, map, none, some, str_eq, ℕ,
  ◌&&◌, ◌∷◌,
}
use agentstrata.Prelude.Dict.{Dict, get, pop, put}
use agentstrata.Storage.Contract.{
  backend_unavailable, capacity_error, invalid_session_id, ok, raise, session_not_found,
}
use agentstrata.Storage.Memory.Sessions.{new_session, owned_by}
use agentstrata.Storage.Memory.State.{Action, MemoryBackend, in_session, merge_usage}
use agentstrata.Storage.Model.{
  RunKey, RunRecord, SessionKey, SessionRecord, key_discrete, run_key_discrete, terminal,
  validate_session_id,
}

unfoldable pub new_run : RunKey → Fields → ℕ → RunRecord
new_run key run_input now = record {
  key = key;
  status = "created";
  iteration_count = 0;
  input = run_input;
  outcome = end;
  usage = [];
  created_at = now;
  updated_at = now;
}

-- [r for k, r in self._runs.items() if k[:3] == skey]
unfoldable pub session_runs : SessionKey → Dict RunKey RunRecord → List RunRecord
unfolding in_session keep_if
session_runs skey runs =
    map (λ e. e.1) (keep_if (λ (e : RunKey × RunRecord). in_session skey e.0) runs)

-- sorted(…, key=lambda r: r.updated_at), which is stable
unfoldable pub insert_by_age : RunRecord → List RunRecord → List RunRecord
insert_by_age r [] = r ∷ []
insert_by_age r (s ∷ rest) =
    if leb r.updated_at s.updated_at then r ∷ s ∷ rest else s ∷ insert_by_age r rest

unfoldable pub sort_by_age : List RunRecord → List RunRecord
unfolding insert_by_age
sort_by_age [] = []
sort_by_age (r ∷ rest) = insert_by_age r (sort_by_age rest)

-- while len(runs) >= cap and terminal: …
unfoldable pub evict :
    SessionKey → ℕ → List RunRecord → Dict RunKey RunRecord → Dict RunKey RunRecord
unfolding session_runs run_key_discrete
evict skey cap [] runs = runs
evict skey cap (t ∷ terminals) runs =
    let rest = evict skey cap terminals (pop run_key_discrete (skey, t.key.1) runs) in
    if leb cap (length (session_runs skey runs)) then rest else runs

-- _enforce_run_capacity: the runs after the evictions, which stay if it raises
unfoldable pub enforce_run_capacity : SessionKey → Action Unit
unfolding session_runs sort_by_age evict terminal keep_if
enforce_run_capacity skey b =
    let cap = b.settings.max_runs_per_session in
    let terminals = sort_by_age (keep_if terminal (session_runs skey b.runs)) in
    let runs = evict skey cap terminals b.runs in
    (
      if leb cap (length (session_runs skey runs)) then raise capacity_error else ok tt,
      record b { runs = runs },
    )

-- The end of `create_run` and of `admit_run`: make room, then store the record.
unfoldable pub store_run : RunKey → Fields → ℕ → Action RunRecord
unfolding enforce_run_capacity new_run run_key_discrete
store_run rkey run_input now b =
    let (room, b') = enforce_run_capacity rkey.0 b in
    let run = new_run rkey run_input now in
    elim room [
      | raise e ↦ (raise e, b')
      | ok _ ↦ (ok run, record b' { runs = put run_key_discrete rkey run b'.runs })
    ]

unfoldable pub create_run : RunKey → Fields → ℕ → Action RunRecord
unfolding store_run key_discrete run_key_discrete
create_run rkey run_input now b = elim (get key_discrete rkey.0 b.sessions) [
  | none ↦ (raise session_not_found, b)
  | some _ ↦ elim (get run_key_discrete rkey b.runs) [
    | some existing ↦ (ok existing, b)
    | none ↦ store_run rkey run_input now b
  ]
]

-- The second half of `admit_run`, with the session at hand.
unfoldable pub admit_into : RunKey → Fields → ℕ → SessionRecord → Action (String × ℕ)
unfolding store_run run_key_discrete
admit_into rkey run_input now session b = elim (get run_key_discrete rkey b.runs) [
  | some existing ↦ (ok (rkey.0.2, session.revision), b)
  | none ↦
      let (stored, b') = store_run rkey run_input now b in
      elim stored [ raise e ↦ (raise e, b') | ok _ ↦ (ok (rkey.0.2, session.revision), b') ]
]

-- The part of `admit_run` under the lock.
unfoldable pub admit_locked : RunKey → Fields → ℕ → Action (String × ℕ)
unfolding admit_into new_session key_discrete
admit_locked rkey run_input now b = elim (get key_discrete rkey.0 b.sessions) [
  | some session ↦ admit_into rkey run_input now session b
  | none ↦
      let session = new_session rkey.0 [] now in
      admit_into rkey run_input now session
        (record b { sessions = put key_discrete rkey.0 session b.sessions })
]

unfoldable pub admit_run :
    String → String → Option String → String → String → Fields → ℕ → Action (String × ℕ)
unfolding admit_locked
admit_run agent_name principal_id session_id fresh_id run_id run_input now b =
    let sid = get_or session_id fresh_id in
    if b.closed
    then (raise backend_unavailable, b)
    else if validate_session_id sid
    then admit_locked ((agent_name, principal_id, sid), run_id) run_input now b
    else (raise invalid_session_id, b)

unfoldable pub get_run : RunKey → MemoryBackend → Option RunRecord
unfolding run_key_discrete
get_run rkey b = get run_key_discrete rkey b.runs

-- The record that `update_run` leaves.
unfoldable pub updated :
    RunRecord → Option String → Option ℕ → Option Fields → Option (Dict String ℕ) → ℕ → RunRecord
unfolding merge_usage
updated r status iteration_count outcome usage now = record r {
  status = get_or status r.status;
  iteration_count = get_or iteration_count r.iteration_count;
  outcome = get_or outcome r.outcome;
  usage = merge_usage usage r.usage;
  updated_at = now;
}

unfoldable pub update_run :
    RunKey
    → Option String
    → Option ℕ
    → Option Fields
    → Option (Dict String ℕ)
    → ℕ
    → Action (Option RunRecord)
unfolding updated run_key_discrete
update_run rkey status iteration_count outcome usage now b =
    elim (get run_key_discrete rkey b.runs) [
      | none ↦ (ok none, b)
      | some r ↦
          let r' = updated r status iteration_count outcome usage now in
          (ok (some r'), record b { runs = put run_key_discrete rkey r' b.runs })
    ]

unfoldable pub list_runs : SessionKey → MemoryBackend → List RunRecord
unfolding session_runs
list_runs key b = session_runs key b.runs

-- The loop of `find_run`: the first run of the owner with this id.
unfoldable pub find_run_in : String → String → String → Dict RunKey RunRecord → Option RunRecord
unfolding owned_by
find_run_in agent_name principal_id run_id [] = none
find_run_in agent_name principal_id run_id ((k, r) ∷ runs) =
    if owned_by agent_name principal_id k.0 && str_eq k.1 run_id
    then some r
    else find_run_in agent_name principal_id run_id runs

unfoldable pub find_run : String → String → String → MemoryBackend → Option RunRecord
unfolding find_run_in
find_run agent_name principal_id run_id b = find_run_in agent_name principal_id run_id b.runs
