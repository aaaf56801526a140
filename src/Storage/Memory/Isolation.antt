-- ===== src/Storage/Memory/Isolation.antt =====
-- app/storage/memory.py: a call changes nothing that can be read at another key.
pub mod View
mod Keys
mod Sessions
mod Runs
mod Records
use agentstrata.Json.{Fields, Json}
use agentstrata.Prelude.{
  All, List, Option, Option-cases, String, [], ap, arith, get_or, inl, inr, map, ℕ, ◌∷◌, ◌≢◌,
}
use agentstrata.Prelude.Dict.{get, put}
use agentstrata.Storage.Memory.Commands.{
  Command, acquire_fence_cmd, admit_run_cmd, after, apply, call, create_approval_cmd,
  create_idempotency_cmd, create_run_cmd, create_session_cmd, decide_approval_cmd,
  delete_session_cmd, expire_idempotency_cmd, finish_idempotency_cmd, mutate_session_cmd,
  release_fence_cmd, renew_fence_cmd, steps, target, truncate_cmd, update_run_cmd,
}
use agentstrata.Storage.Memory.Isolation.Records.{
  acquire_fence-Unaffected, create_approval-Unaffected, create_idempotency-Unaffected,
  decide_approval-Unaffected, expire_idempotency-Unaffected, finish_idempotency-Unaffected,
  release_fence-Unaffected, renew_fence-Unaffected,
}
use agentstrata.Storage.Memory.Isolation.Runs.{
  create_run-Unaffected, store_run-Unaffected, update_run-Unaffected,
}
use agentstrata.Storage.Memory.Isolation.Sessions.{
  delete_session-Unaffected, insert_session-Unaffected, mutate_session-Unaffected,
  truncate-Unaffected,
}
use agentstrata.Storage.Memory.Isolation.View.{Unaffected, Unaffected-refl, Unaffected-trans}
use agentstrata.Storage.Memory.Runs.{admit_into, admit_locked, admit_run}
use agentstrata.Storage.Memory.Sessions.{create_session, insert_session, new_session}
use agentstrata.Storage.Memory.State.{MemoryBackend}
use agentstrata.Storage.Model.{SessionKey, SessionRecord, key_discrete, owner}

create_session-Unaffected :
    (a p : String) (s : Option String) (fresh : String) (events : Option (List Json)) (now : ℕ)
    (key : SessionKey) (b : MemoryBackend)
    → ◌≢◌ {A = SessionKey} (a, p, get_or s fresh) key
    → Unaffected key b (after (create_session a p s fresh events now b))
unfolding create_session
create_session-Unaffected a p s fresh events now key b h = ground (
  arith,
  Unaffected-refl key b,
  insert_session-Unaffected (a, p, get_or s fresh) key h b (get_or events []) now,
)

admit_into-Unaffected :
    (k key : SessionKey) (other : k ≢ key) (b : MemoryBackend) (i : String) (input : Fields)
    (now : ℕ) (r : SessionRecord)
    → Unaffected key b (after (admit_into (k, i) input now r b))
unfolding admit_into
admit_into-Unaffected k key other b i input now r =
    ground (arith, Unaffected-refl key b, store_run-Unaffected k key other b i input now)

admit_locked-Unaffected :
    (k key : SessionKey) (other : k ≢ key) (b : MemoryBackend) (i : String) (input : Fields)
    (now : ℕ)
    → Unaffected key b (after (admit_locked (k, i) input now b))
unfolding admit_locked
admit_locked-Unaffected k key other b i input now =
    elim (Option-cases (get key_discrete k b.sessions)) [
      | inl e ↦
          let r = new_session k [] now in
          let c = record b { sessions = put key_discrete k r b.sessions } in
          let created : Unaffected key b c =
            unfold insert_session in
            rw (e, insert_session, after) at (insert_session-Unaffected k key other b [] now) in
          rw (e, admit_locked, after)
            (Unaffected-trans created (admit_into-Unaffected k key other c i input now r))
      | inr (r, e) ↦ rw (e, admit_locked, after) (admit_into-Unaffected k key other b i input now r)
    ]

admit_run-Unaffected :
    (a p : String) (s : Option String) (fresh i : String) (input : Fields) (now : ℕ)
    (key : SessionKey) (b : MemoryBackend)
    → ◌≢◌ {A = SessionKey} (a, p, get_or s fresh) key
    → Unaffected key b (after (admit_run a p s fresh i input now b))
unfolding admit_run
admit_run-Unaffected a p s fresh i input now key b h = ground (
  arith,
  Unaffected-refl key b,
  admit_locked-Unaffected (a, p, get_or s fresh) key h b i input now,
)

-- A call, whether it returns or raises, changes nothing that can be read at another key: neither
-- the session, its runs, its idempotency records, its fence and fence counter, nor the approval.
-- The key of an approval has the approval's id where the key of a session has the session's, so
-- that the deletion of a session leaves the approvals of the session too.
pub apply-Unaffected :
    (c : Command) (key : SessionKey) (b : MemoryBackend)
    → target c ≢ key
    → Unaffected key b (apply c b)
unfolding apply
apply-Unaffected (create_session_cmd a p s fresh events now) key b h =
    create_session-Unaffected a p s fresh events now key b h
apply-Unaffected (mutate_session_cmd k rev events usage hist now) key b h =
    mutate_session-Unaffected k key h b rev events usage hist now
apply-Unaffected (truncate_cmd k rev) key b h = truncate-Unaffected k key h b rev
apply-Unaffected (delete_session_cmd k) key b h = delete_session-Unaffected k key h b
apply-Unaffected (create_run_cmd (k, i) input now) key b h =
    create_run-Unaffected k key h b i input now
apply-Unaffected (admit_run_cmd a p s fresh i input now) key b h =
    admit_run-Unaffected a p s fresh i input now key b h
apply-Unaffected (update_run_cmd (k, i) status n outcome usage now) key b h =
    update_run-Unaffected k key h b i status n outcome usage now
apply-Unaffected (create_idempotency_cmd (k, i) ttl now) key b h =
    create_idempotency-Unaffected k key h b i ttl now
apply-Unaffected (finish_idempotency_cmd (k, i) status outcome) key b h =
    finish_idempotency-Unaffected k key h b i status outcome
apply-Unaffected (expire_idempotency_cmd (k, i)) key b h = expire_idempotency-Unaffected k key h b i
apply-Unaffected (acquire_fence_cmd k token ttl now) key b h =
    acquire_fence-Unaffected k key h b token ttl now
apply-Unaffected (renew_fence_cmd k token ttl now) key b h =
    renew_fence-Unaffected k key h b token ttl now
apply-Unaffected (release_fence_cmd k token) key b h = release_fence-Unaffected k key h b token
apply-Unaffected (create_approval_cmd k req now) key b h =
    create_approval-Unaffected k key h b req now
apply-Unaffected (decide_approval_cmd k decision reason now) key b h =
    decide_approval-Unaffected k key h b decision reason now

-- Any number of calls by owners other than the owner of `key` leave all that can be read at
-- `key` as it was.
pub steps-Unaffected :
    (cs : List Command) (key : SessionKey) (b : MemoryBackend)
    → All (λ c. owner (target c) ≢ owner key) cs
    → Unaffected key b (steps (map call cs) b)
unfolding steps
steps-Unaffected [] key b h = Unaffected-refl key b
steps-Unaffected (c ∷ cs) key b h =
    Unaffected-trans (apply-Unaffected c key b (λ e. h.0 (ap owner e)))
      (steps-Unaffected cs key (apply c b) h.1)
