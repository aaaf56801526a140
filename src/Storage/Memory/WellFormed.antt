-- ===== src/Storage/Memory/WellFormed.antt =====
-- app/storage/memory.py: the sessions, the runs and the idempotency records hold each key once,
-- and a run is stored under its own key.
use agentstrata.Json.{Fields}
use agentstrata.Prelude.{
  List, Option, Option-cases, String, [], arith, if◌then◌else◌, inl, inr, keep_if, not, some, ℕ,
  ◌∷◌, ◌≡◌,
}
use agentstrata.Prelude.Dict.{Dict, get, get-keep_if, get-pop, get-put, pop}
use agentstrata.Prelude.Keys.{
  IsDict, get-keep_if_value, get-map_value, keep_if-IsDict, map-IsDict, pop-IsDict, put-IsDict,
}
use agentstrata.Storage.Memory.Commands.{after}
use agentstrata.Storage.Memory.Runs.{
  enforce_run_capacity, evict, new_run, session_runs, sort_by_age, store_run, update_run, updated,
}
use agentstrata.Storage.Memory.Sessions.{delete_session}
use agentstrata.Storage.Memory.State.{MemoryBackend, in_session}
use agentstrata.Storage.Memory.Sweep.{
  interrupt, interrupted, is_stale, sweep, sweeps_idempotency, sweeps_run, sweeps_session,
}
use agentstrata.Storage.Model.{
  RunKey, RunRecord, SessionKey, key_discrete, run_key_discrete, terminal,
}

pub record IsWellFormed (b : MemoryBackend) : Type 0 where
  pub sessions : IsDict key_discrete b.sessions
  pub runs : IsDict run_key_discrete b.runs
  pub idempotency : IsDict run_key_discrete b.idempotency
  pub keyed : (k : RunKey) (r : RunRecord) → get run_key_discrete k b.runs ≡ some r → r.key ≡ k

evict-IsDict :
    (k : SessionKey) (cap : ℕ) (terminals : List RunRecord) (runs : Dict RunKey RunRecord)
    → IsDict run_key_discrete runs
    → IsDict run_key_discrete (evict k cap terminals runs)
unfolding evict
evict-IsDict k cap [] runs h = h
evict-IsDict k cap (t ∷ terminals) runs h =
    let popped = pop run_key_discrete (k, t.key.1) runs in
    let rest =
      evict-IsDict k cap terminals popped (pop-IsDict run_key_discrete (k, t.key.1) runs h) in
    ground arith

evict-keyed :
    (k : SessionKey) (cap : ℕ) (terminals : List RunRecord) (runs : Dict RunKey RunRecord)
    (j : RunKey) (r : RunRecord)
    → get run_key_discrete j (evict k cap terminals runs) ≡ some r
    → get run_key_discrete j runs ≡ some r
unfolding evict
evict-keyed k cap [] runs j r h = h
evict-keyed k cap (t ∷ terminals) runs j r h =
    let popped = pop run_key_discrete (k, t.key.1) runs in
    ground
      (arith, evict-keyed k cap terminals popped j r, get-pop run_key_discrete (k, t.key.1) j runs)

pub store_run-IsWellFormed :
    (rkey : RunKey) (input : Fields) (now : ℕ) (b : MemoryBackend)
    → IsWellFormed b
    → IsWellFormed (after (store_run rkey input now b))
unfolding store_run enforce_run_capacity new_run
store_run-IsWellFormed rkey input now b h =
    let cap = b.settings.max_runs_per_session in
    let terminals = sort_by_age (keep_if terminal (session_runs rkey.0 b.runs)) in
    let left = evict rkey.0 cap terminals b.runs in
    let run = new_run rkey input now in
    let left_dict = evict-IsDict rkey.0 cap terminals b.runs h.runs in
    record {
      sessions = let same = h.sessions in ground arith;
      runs = ground (arith, left_dict, put-IsDict run_key_discrete rkey run left left_dict);
      idempotency = let same = h.idempotency in ground arith;
      keyed = λ k r e. ground (
        arith,
        evict-keyed rkey.0 cap terminals b.runs k r,
        get-put run_key_discrete rkey k run left,
        h.keyed k r,
      );
    }

pub update_run-IsWellFormed :
    (rkey : RunKey) (status : Option String) (n : Option ℕ) (outcome : Option Fields)
    (usage : Option (Dict String ℕ)) (now : ℕ) (b : MemoryBackend)
    → IsWellFormed b
    → IsWellFormed (after (update_run rkey status n outcome usage now b))
unfolding update_run updated
update_run-IsWellFormed rkey status n outcome usage now b h =
    elim (Option-cases (get run_key_discrete rkey b.runs)) [
      | inl e ↦ rw (e, update_run, after) h
      | inr (r, e) ↦
          let r' = updated r status n outcome usage now in
          rw (e, update_run, after)
            (record {
              sessions = h.sessions;
              runs = put-IsDict run_key_discrete rkey r' b.runs h.runs;
              idempotency = h.idempotency;
              keyed = λ k s f.
                  ground (
                    arith,
                    get-put run_key_discrete rkey k r' b.runs,
                    h.keyed k s,
                    h.keyed rkey r e,
                  );
            })
    ]

pub delete_session-IsWellFormed :
    (k : SessionKey) (b : MemoryBackend)
    → IsWellFormed b
    → IsWellFormed (after (delete_session k b))
unfolding delete_session
delete_session-IsWellFormed k b h = record {
  sessions = ground (arith, h.sessions, pop-IsDict key_discrete k b.sessions h.sessions);
  runs =
      ground (
        arith,
        h.runs,
        keep_if-IsDict run_key_discrete (λ e. not (in_session k e.0)) b.runs h.runs,
      );
  idempotency = ground (
    arith,
    h.idempotency,
    keep_if-IsDict run_key_discrete (λ e. not (in_session k e.0)) b.idempotency h.idempotency,
  );
  keyed = λ j r e.
      ground
        (arith, h.keyed j r, get-keep_if run_key_discrete (λ i. not (in_session k i)) j b.runs);
}

pub sweep-IsWellFormed :
    (now : ℕ) (b : MemoryBackend) → IsWellFormed b → IsWellFormed (after (sweep now b))
unfolding sweep interrupt interrupted
sweep-IsWellFormed now b h =
    let left = keep_if (λ e. not (sweeps_run b now e)) b.runs in
    let left_dict = keep_if-IsDict run_key_discrete (λ e. not (sweeps_run b now e)) b.runs h.runs in
    let give_up =
      λ (k : RunKey) (r : RunRecord). if is_stale b now r then interrupted now r else r in
    record {
      sessions =
          keep_if-IsDict key_discrete (λ e. not (sweeps_session b now e)) b.sessions h.sessions;
      runs = map-IsDict run_key_discrete give_up left left_dict;
      idempotency =
          keep_if-IsDict run_key_discrete (λ e. not (sweeps_idempotency now e)) b.idempotency
            h.idempotency;
      keyed = λ k r e.
          let looked =
            get-keep_if_value run_key_discrete (λ e. not (sweeps_run b now e)) k b.runs h.runs in
          elim (Option-cases (get run_key_discrete k b.runs)) [
            | inl f ↦ ground (arith, get-map_value run_key_discrete give_up k left)
            | inr (s, f) ↦
                ground (arith, get-map_value run_key_discrete give_up k left, h.keyed k s f)
          ];
    }
