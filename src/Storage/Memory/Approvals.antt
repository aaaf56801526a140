-- ===== src/Storage/Memory/Approvals.antt =====
-- app/storage/memory.py: the approval methods.
use agentstrata.Json.{Fields}
use agentstrata.Prelude.{
  Bool, List, Option, String, [], if◌then◌else◌, keep_if, leb, ltb, map, none, not, some, str_eq, ℕ,
  ◌&&◌, ◌+◌, ◌∷◌,
}
use agentstrata.Prelude.Dict.{get, put}
use agentstrata.Storage.Contract.{ok, seconds}
use agentstrata.Storage.Memory.State.{Action, MemoryBackend}
use agentstrata.Storage.Model.{ApprovalRecord, SessionKey, key_discrete, pending}

-- What `create_approval` is given besides the owner, the id and the time.
pub record ApprovalRequest : Type 0 where
  pub session_id : String
  pub run_id : String
  pub config_generation : ℕ
  pub server_name : String
  pub raw_tool_name : String
  pub final_tool_name : String
  pub args_hash : String
  pub args_preview : String
  pub checkpoint : Fields
  pub timeout_seconds : ℕ

unfoldable pub new_approval : SessionKey → ApprovalRequest → ℕ → ApprovalRecord
new_approval key req now = record {
  agent_name = key.0;
  principal_id = key.1;
  session_id = req.session_id;
  run_id = req.run_id;
  approval_id = key.2;
  config_generation = req.config_generation;
  server_name = req.server_name;
  raw_tool_name = req.raw_tool_name;
  final_tool_name = req.final_tool_name;
  args_hash = req.args_hash;
  args_preview = req.args_preview;
  checkpoint = req.checkpoint;
  status = "pending";
  timeout_seconds = req.timeout_seconds;
  reason = none;
  created_at = now;
  expires_at = now + seconds req.timeout_seconds;
  decided_at = none;
  revision = 1;
}

unfoldable pub create_approval : SessionKey → ApprovalRequest → ℕ → Action ApprovalRecord
unfolding new_approval key_discrete
create_approval key req now b =
    let r = new_approval key req now in
    (ok r, record b { approvals = put key_discrete key r b.approvals })

unfoldable pub get_approval : SessionKey → MemoryBackend → Option ApprovalRecord
unfolding key_discrete
get_approval key b = get key_discrete key b.approvals

unfoldable pub list_approvals : SessionKey → MemoryBackend → List ApprovalRecord
unfolding keep_if
list_approvals key b =
    keep_if
      (λ r. str_eq r.agent_name key.0 && str_eq r.principal_id key.1 && str_eq r.session_id key.2)
      (map (λ (e : SessionKey × ApprovalRecord). e.1) b.approvals)

-- sorted(…, key=lambda r: r.created_at), which is stable
unfoldable pub insert_by_creation : ApprovalRecord → List ApprovalRecord → List ApprovalRecord
insert_by_creation r [] = r ∷ []
insert_by_creation r (s ∷ rest) =
    if leb r.created_at s.created_at then r ∷ s ∷ rest else s ∷ insert_by_creation r rest

unfoldable pub sort_by_creation : List ApprovalRecord → List ApprovalRecord
unfolding insert_by_creation
sort_by_creation [] = []
sort_by_creation (r ∷ rest) = insert_by_creation r (sort_by_creation rest)

unfoldable pub list_all_approvals : String → MemoryBackend → List ApprovalRecord
unfolding keep_if sort_by_creation
list_all_approvals agent_name b = sort_by_creation (
    map (λ e. e.1)
      (keep_if (λ (e : SessionKey × ApprovalRecord). str_eq e.0.0 agent_name) b.approvals))

-- The test of `decide_approval`: the record may still be decided.
unfoldable pub decidable : ApprovalRecord → String → ℕ → Bool
unfolding pending
decidable r decision now =
    pending r && not (ltb r.expires_at now && not (str_eq decision "timed_out"))

unfoldable pub decide_approval :
    SessionKey → String → Option String → ℕ → Action (Option ApprovalRecord)
unfolding decidable key_discrete
decide_approval key decision reason now b = elim (get key_discrete key b.approvals) [
  | none ↦ (ok none, b)
  | some r ↦
      let r' = record r {
        status = decision;
        reason = reason;
        decided_at = some now;
        revision = r.revision + 1;
      } in
      if decidable r decision now
      then (ok (some r'), record b { approvals = put key_discrete key r' b.approvals })
      else (ok none, b)
]

-- if record.pending and now > record.expires_at
unfoldable pub overdue : ℕ → ApprovalRecord → Bool
unfolding pending
overdue now r = pending r && ltb r.expires_at now

unfoldable pub timed_out : ℕ → ApprovalRecord → ApprovalRecord
timed_out now r = record r {
  status = "timed_out";
  decided_at = some now;
  revision = r.revision + 1;
}

-- One record of the loop of `expire_approvals`.
unfoldable pub expire_one : ℕ → ApprovalRecord → ApprovalRecord
unfolding overdue timed_out
expire_one now r = if overdue now r then timed_out now r else r

unfoldable pub expire_approvals : ℕ → Action (List ApprovalRecord)
unfolding expire_one keep_if
expire_approvals now b = (
  ok (
      map (timed_out now)
        (keep_if (overdue now) (map (λ (e : SessionKey × ApprovalRecord). e.1) b.approvals))),
  record b {
    approvals = map (λ (e : SessionKey × ApprovalRecord). (e.0, expire_one now e.1)) b.approvals;
  },
)
