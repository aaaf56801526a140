-- ===== src/Storage/Memory/Reachable.antt =====
-- app/storage/memory.py: every reachable backend is well formed.
use agentstrata.Json.{Fields, Json}
use agentstrata.Prelude.{
  Bool, List, Option, Option-cases, String, [], arith, get_or, inl, inr, refl, ℕ, ◌∷◌, ◌≡◌,
}
use agentstrata.Prelude.Dict.{Dict, get, put}
use agentstrata.Prelude.Keys.{IsDict, pop-IsDict, put-IsDict}
use agentstrata.Storage.Contract.{StorageSettings}
use agentstrata.Storage.Memory.Approvals.{create_approval, decide_approval, expire_approvals}
use agentstrata.Storage.Memory.Commands.{
  Command, Event, acquire_fence_cmd, admit_run_cmd, after, apply, call, create_approval_cmd,
  create_idempotency_cmd, create_run_cmd, create_session_cmd, decide_approval_cmd,
  delete_session_cmd, expire_idempotency_cmd, expired, finish_idempotency_cmd, mutate_session_cmd,
  release_fence_cmd, renew_fence_cmd, shut, step, steps, swept, truncate_cmd, update_run_cmd,
}
use agentstrata.Storage.Memory.Fences.{acquire_fence, release_fence, renew_fence}
use agentstrata.Storage.Memory.Idempotency.{
  create_idempotency, expire_idempotency, finish_idempotency, new_idempotency,
}
use agentstrata.Storage.Memory.Runs.{admit_into, admit_locked, admit_run, create_run, store_run}
use agentstrata.Storage.Memory.Sessions.{
  create_session, insert_session, mutate_session, mutated, new_session, truncate_session_events,
  truncated,
}
use agentstrata.Storage.Memory.State.{MemoryBackend, close, init}
use agentstrata.Storage.Memory.WellFormed.{
  IsWellFormed, delete_session-IsWellFormed, store_run-IsWellFormed, sweep-IsWellFormed,
  update_run-IsWellFormed,
}
use agentstrata.Storage.Model.{RunKey, SessionKey, SessionRecord, key_discrete, run_key_discrete}

-- An operation on the sessions, or on none of the three maps.
of_sessions :
    (b c : MemoryBackend)
    → c.runs ≡ b.runs
    → c.idempotency ≡ b.idempotency
    → IsDict key_discrete c.sessions
    → IsWellFormed b
    → IsWellFormed c
of_sessions b c p q s h = record {
  sessions = s;
  runs = let same = h.runs in rw p same;
  idempotency = let same = h.idempotency in rw q same;
  keyed = λ k r e. h.keyed k r (rw p at e);
}

of_idempotency :
    (b c : MemoryBackend)
    → c.runs ≡ b.runs
    → c.sessions ≡ b.sessions
    → IsDict run_key_discrete c.idempotency
    → IsWellFormed b
    → IsWellFormed c
of_idempotency b c p q s h = record {
  sessions = let same = h.sessions in rw q same;
  runs = let same = h.runs in rw p same;
  idempotency = s;
  keyed = λ k r e. h.keyed k r (rw p at e);
}

module _ (b : MemoryBackend) (h : IsWellFormed b) where
  -- An operation on the approvals, the fences or the `closed` flag alone.
  of_same :
      (c : MemoryBackend)
      → c.runs ≡ b.runs
      → c.sessions ≡ b.sessions
      → c.idempotency ≡ b.idempotency
      → IsWellFormed c
  of_same c p q r = of_idempotency b c p q (let same = h.idempotency in rw r same) h

  insert_session-IsWellFormed :
      (k : SessionKey) (events : List Json) (now : ℕ)
      → IsWellFormed (after (insert_session k events now b))
  unfolding insert_session
  insert_session-IsWellFormed k events now =
      let placed = put-IsDict key_discrete k (new_session k events now) b.sessions h.sessions in
      let same = h.sessions in of_sessions b _ (ground arith) (ground arith) (ground arith) h

  create_session-IsWellFormed :
      (a p : String) (s : Option String) (fresh : String) (events : Option (List Json)) (now : ℕ)
      → IsWellFormed (after (create_session a p s fresh events now b))
  unfolding create_session
  create_session-IsWellFormed a p s fresh events now =
      ground (arith, h, insert_session-IsWellFormed (a, p, get_or s fresh) (get_or events []) now)

  mutate_session-IsWellFormed :
      (k : SessionKey) (rev : ℕ) (events : Option (List Json)) (usage : Option (Dict String ℕ))
      (hist : Option Bool) (now : ℕ)
      → IsWellFormed (after (mutate_session k rev events usage hist now b))
  unfolding mutate_session
  mutate_session-IsWellFormed k rev events usage hist now =
      elim (Option-cases (get key_discrete k b.sessions)) [
        | inl e ↦ rw (e, mutate_session, after) h
        | inr (r, e) ↦
            let r' = mutated r events usage hist now in
            let placed = put-IsDict key_discrete k r' b.sessions h.sessions in
            let same = h.sessions in of_sessions b _ (ground arith) (ground arith) (ground arith) h
      ]

  truncate-IsWellFormed :
      (k : SessionKey) (rev : ℕ) → IsWellFormed (after (truncate_session_events k rev b))
  unfolding truncate_session_events
  truncate-IsWellFormed k rev = elim (Option-cases (get key_discrete k b.sessions)) [
    | inl e ↦ rw (e, truncate_session_events, after) h
    | inr (r, e) ↦
        let placed = put-IsDict key_discrete k (truncated r rev) b.sessions h.sessions in
        let same = h.sessions in of_sessions b _ (ground arith) (ground arith) (ground arith) h
  ]

  create_run-IsWellFormed :
      (rkey : RunKey) (input : Fields) (now : ℕ)
      → IsWellFormed (after (create_run rkey input now b))
  unfolding create_run
  create_run-IsWellFormed rkey input now =
      elim (Option-cases (get key_discrete rkey.0 b.sessions)) [
        | inl e ↦ rw (e, create_run, after) h
        | inr (s, e) ↦ elim (Option-cases (get run_key_discrete rkey b.runs)) [
          | inl f ↦ rw (e, f, create_run, after) (store_run-IsWellFormed rkey input now b h)
          | inr (r, f) ↦ rw (e, f, create_run, after) h
        ]
      ]

  create_idempotency-IsWellFormed :
      (ikey : RunKey) (ttl now : ℕ) → IsWellFormed (after (create_idempotency ikey ttl now b))
  unfolding create_idempotency
  create_idempotency-IsWellFormed ikey ttl now =
      let r = new_idempotency ikey ttl now in
      let placed = put-IsDict run_key_discrete ikey r b.idempotency h.idempotency in
      let same = h.idempotency in of_idempotency b _ (ground arith) (ground arith) (ground arith) h

  finish_idempotency-IsWellFormed :
      (ikey : RunKey) (status : String) (outcome : Fields)
      → IsWellFormed (after (finish_idempotency ikey status outcome b))
  unfolding finish_idempotency
  finish_idempotency-IsWellFormed ikey status outcome =
      elim (Option-cases (get run_key_discrete ikey b.idempotency)) [
        | inl e ↦ rw (e, finish_idempotency, after) h
        | inr (r, e) ↦
            let r' = record r { status = status; outcome = outcome } in
            let placed = put-IsDict run_key_discrete ikey r' b.idempotency h.idempotency in
            let same = h.idempotency in
            of_idempotency b _ (ground arith) (ground arith) (ground arith) h
      ]

  expire_idempotency-IsWellFormed :
      (ikey : RunKey) → IsWellFormed (after (expire_idempotency ikey b))
  unfolding expire_idempotency
  expire_idempotency-IsWellFormed ikey =
      let popped = pop-IsDict run_key_discrete ikey b.idempotency h.idempotency in
      let same = h.idempotency in of_idempotency b _ (ground arith) (ground arith) (ground arith) h

admit_into-IsWellFormed :
    (rkey : RunKey) (input : Fields) (now : ℕ) (s : SessionRecord) (b : MemoryBackend)
    → IsWellFormed b
    → IsWellFormed (after (admit_into rkey input now s b))
unfolding admit_into
admit_into-IsWellFormed rkey input now s b h =
    elim (Option-cases (get run_key_discrete rkey b.runs)) [
      | inl f ↦
          let stored = store_run-IsWellFormed rkey input now b h in
          of_same (after (store_run rkey input now b)) stored
            (after (admit_into rkey input now s b)) (ground arith) (ground arith) (ground arith)
      | inr (r, f) ↦ rw (f, admit_into, after) h
    ]

admit_locked-IsWellFormed :
    (rkey : RunKey) (input : Fields) (now : ℕ) (b : MemoryBackend)
    → IsWellFormed b
    → IsWellFormed (after (admit_locked rkey input now b))
unfolding admit_locked
admit_locked-IsWellFormed rkey input now b h =
    elim (Option-cases (get key_discrete rkey.0 b.sessions)) [
      | inl e ↦
          let s = new_session rkey.0 [] now in
          let c = record b { sessions = put key_discrete rkey.0 s b.sessions } in
          let placed = put-IsDict key_discrete rkey.0 s b.sessions h.sessions in
          rw (e, admit_locked, after)
            (admit_into-IsWellFormed rkey input now s c (of_sessions b c refl refl placed h))
      | inr (s, e) ↦ rw (e, admit_locked, after) (admit_into-IsWellFormed rkey input now s b h)
    ]

admit_run-IsWellFormed :
    (a p : String) (s : Option String) (fresh i : String) (input : Fields) (now : ℕ)
    (b : MemoryBackend)
    → IsWellFormed b
    → IsWellFormed (after (admit_run a p s fresh i input now b))
unfolding admit_run
admit_run-IsWellFormed a p s fresh i input now b h =
    ground (arith, h, admit_locked-IsWellFormed ((a, p, get_or s fresh), i) input now b)

apply-IsWellFormed : (c : Command) (b : MemoryBackend) → IsWellFormed b → IsWellFormed (apply c b)
unfolding apply
apply-IsWellFormed (create_session_cmd a p s fresh events now) b h =
    create_session-IsWellFormed b h a p s fresh events now
apply-IsWellFormed (mutate_session_cmd k rev events usage hist now) b h =
    mutate_session-IsWellFormed b h k rev events usage hist now
apply-IsWellFormed (truncate_cmd k rev) b h = truncate-IsWellFormed b h k rev
apply-IsWellFormed (delete_session_cmd k) b h = delete_session-IsWellFormed k b h
apply-IsWellFormed (create_run_cmd k input now) b h = create_run-IsWellFormed b h k input now
apply-IsWellFormed (admit_run_cmd a p s fresh i input now) b h =
    admit_run-IsWellFormed a p s fresh i input now b h
apply-IsWellFormed (update_run_cmd k status n outcome usage now) b h =
    update_run-IsWellFormed k status n outcome usage now b h
apply-IsWellFormed (create_idempotency_cmd k ttl now) b h =
    create_idempotency-IsWellFormed b h k ttl now
apply-IsWellFormed (finish_idempotency_cmd k status outcome) b h =
    finish_idempotency-IsWellFormed b h k status outcome
apply-IsWellFormed (expire_idempotency_cmd k) b h = expire_idempotency-IsWellFormed b h k
apply-IsWellFormed (acquire_fence_cmd k token ttl now) b h =
    unfold acquire_fence in of_same b h _ (ground arith) (ground arith) (ground arith)
apply-IsWellFormed (renew_fence_cmd k token ttl now) b h =
    unfold renew_fence in of_same b h _ (ground arith) (ground arith) (ground arith)
apply-IsWellFormed (release_fence_cmd k token) b h =
    unfold release_fence in of_same b h _ (ground arith) (ground arith) (ground arith)
apply-IsWellFormed (create_approval_cmd k req now) b h =
    unfold create_approval in of_same b h _ refl refl refl
apply-IsWellFormed (decide_approval_cmd k decision reason now) b h =
    unfold decide_approval in of_same b h _ (ground arith) (ground arith) (ground arith)

step-IsWellFormed : (e : Event) (b : MemoryBackend) → IsWellFormed b → IsWellFormed (step e b)
unfolding step
step-IsWellFormed (call c) b h = apply-IsWellFormed c b h
step-IsWellFormed (swept now) b h = sweep-IsWellFormed now b h
step-IsWellFormed (expired now) b h = unfold expire_approvals in of_same b h _ refl refl refl
step-IsWellFormed shut b h = unfold close in of_same b h _ refl refl refl

steps-IsWellFormed :
    (es : List Event) (b : MemoryBackend) → IsWellFormed b → IsWellFormed (steps es b)
unfolding steps
steps-IsWellFormed [] b h = h
steps-IsWellFormed (e ∷ es) b h = steps-IsWellFormed es (step e b) (step-IsWellFormed e b h)

-- In every backend that a sequence of events reaches from a fresh one, the sessions, the runs and
-- the idempotency records hold a key at most once, and a run is stored under its own key.
pub reachable-IsWellFormed :
    (settings : StorageSettings) (es : List Event) → IsWellFormed (steps es (init settings))
unfolding init get
reachable-IsWellFormed settings es =
    steps-IsWellFormed es (init settings) (record {
      sessions = tt;
      runs = tt;
      idempotency = tt;
      keyed = λ k r e. absurd (ground arith);
    })
