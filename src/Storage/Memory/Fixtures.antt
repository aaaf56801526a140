-- ===== src/Storage/Memory/Fixtures.antt =====
-- app/storage/memory.py: the states that the examples are about.
use agentstrata.Json.{Json, end, str}
use agentstrata.Prelude.{List, String, [], any, ap, keep_if, none, some, str_eq, ◌∷◌, ◌≢◌}
use agentstrata.Prelude.Dict.{contains, get, pop, put}
use agentstrata.Storage.Contract.{StorageSettings}
use agentstrata.Storage.Memory.Approvals.{
  ApprovalRequest, create_approval, decide_approval, expire_approvals, get_approval, new_approval,
}
use agentstrata.Storage.Memory.Bounds.{reachable-IsBounded}
use agentstrata.Storage.Memory.Capacity.{IsBounded}
use agentstrata.Storage.Memory.Commands.{
  Event, call, create_approval_cmd, create_run_cmd, create_session_cmd, steps, update_run_cmd,
}
use agentstrata.Storage.Memory.Fences.{acquire_fence, current_fence, release_fence, renew_fence}
use agentstrata.Storage.Memory.Reachable.{reachable-IsWellFormed}
use agentstrata.Storage.Memory.Runs.{create_run, get_run, new_run, update_run}
use agentstrata.Storage.Memory.Sessions.{
  create_session, delete_session, get_session, has_live_run, mutate_session, new_session,
  truncate_session_events,
}
use agentstrata.Storage.Memory.State.{MemoryBackend, init}
use agentstrata.Storage.Memory.Sweep.{sweep}
use agentstrata.Storage.Memory.WellFormed.{IsWellFormed}
use agentstrata.Storage.Model.{
  ApprovalRecord, Fence, RunKey, RunRecord, SessionKey, SessionRecord, owner, validate_session_id,
}

abbrev pub settings : StorageSettings
settings = record {
  session_ttl_seconds = 10;
  run_ttl_seconds = 5;
  idempotency_ttl_seconds = 5;
  max_sessions = 8;
  max_runs_per_session = 1;
  max_idempotency_records_per_session = 2;
}

abbrev pub alice : SessionKey
alice = ("agent", "alice", "s1")

abbrev pub bob : SessionKey
bob = ("agent", "bob", "s1")

abbrev pub open_alice : Event
open_alice = call (create_session_cmd "agent" "alice" (some "s1") "fresh" none 0)

abbrev pub start_run : Event
start_run = call (create_run_cmd (alice, "r1") end 1)

abbrev pub finish_run : Event
finish_run = call (update_run_cmd (alice, "r1") (some "succeeded") none none none 2)

abbrev pub request : ApprovalRequest
request = record {
  session_id = "s1";
  run_id = "r1";
  config_generation = 1;
  server_name = "files";
  raw_tool_name = "delete";
  final_tool_name = "delete";
  args_hash = "h";
  args_preview = "{}";
  checkpoint = end;
  timeout_seconds = 1;
}

abbrev pub ask : Event
ask = call (create_approval_cmd alice request 0)

-- The backends of the examples: one session; a run of it; the run ended; an approval.
abbrev pub opened : MemoryBackend
opened = steps (open_alice ∷ []) (init settings)

abbrev pub ran : MemoryBackend
ran = steps (open_alice ∷ start_run ∷ []) (init settings)

abbrev pub ended : MemoryBackend
ended = steps (open_alice ∷ start_run ∷ finish_run ∷ []) (init settings)

abbrev pub asked : MemoryBackend
asked = steps (ask ∷ []) (init settings)

pub alice-ne-bob : alice ≢ bob
alice-ne-bob e = let p = ap (λ (k : SessionKey). str_eq "alice" k.1) e in cc

-- What the examples compute with.
unfoldable pub operations : Unit {0}
unfolding get put pop contains create_session get_session mutate_session truncate_session_events
    delete_session create_run get_run update_run acquire_fence release_fence renew_fence
    current_fence create_approval get_approval decide_approval expire_approvals sweep steps init
    new_session validate_session_id keep_if any has_live_run
operations = tt

pub opened-IsWellFormed : IsWellFormed opened
opened-IsWellFormed = reachable-IsWellFormed settings (open_alice ∷ [])

pub ran-IsWellFormed : IsWellFormed ran
ran-IsWellFormed = reachable-IsWellFormed settings (open_alice ∷ start_run ∷ [])

pub ended-IsWellFormed : IsWellFormed ended
ended-IsWellFormed = reachable-IsWellFormed settings (open_alice ∷ start_run ∷ finish_run ∷ [])

pub ended-IsBounded : IsBounded ended
ended-IsBounded = reachable-IsBounded settings (open_alice ∷ start_run ∷ finish_run ∷ [])

pub not_pending : ◌≢◌ {A = String} "approved" "pending"
not_pending e = let p = ap (str_eq "approved") e in cc

abbrev pub running_run : RunRecord
running_run = new_run (alice, "r1") end 1

abbrev pub ended_run : RunRecord
ended_run = record (new_run (alice, "r1") end 1) { status = "succeeded"; updated_at = 2 }

abbrev pub verdict : String
verdict = "approved"

abbrev pub next_run : RunKey
next_run = (alice, "r2")

abbrev pub hello : List Json
hello = str "hello" ∷ str "world" ∷ []

abbrev pub written : SessionRecord
written = record (new_session alice [] 0) { events = hello; revision = 2; updated_at = 4 }

abbrev pub approved : ApprovalRecord
approved = record (new_approval alice request 0) {
  status = "approved";
  decided_at = some 5;
  revision = 2;
}

abbrev pub first_fence : Fence
first_fence = record { token = "t1"; fencing_number = 1; expires_at = some 10 }

abbrev pub second_fence : Fence
second_fence = record { token = "t2"; fencing_number = 2; expires_at = some 30 }

pub owners : owner alice ≢ owner bob
owners e = let p = ap (λ (k : String × String). str_eq "alice" k.1) e in cc
