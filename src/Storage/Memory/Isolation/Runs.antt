-- ===== src/Storage/Memory/Isolation/Runs.antt =====
-- app/storage/memory.py: the run methods leave other sessions alone.
use agentstrata.Json.{Fields}
use agentstrata.Prelude.{
  List, Option, Option-cases, String, [], arith, inl, inr, keep_if, refl, ℕ, ◌∷◌, ◌≡◌, ◌≢◌,
}
use agentstrata.Prelude.Dict.{Dict, get, get-pop_ne, get-put_ne, pop, put}
use agentstrata.Storage.Memory.Commands.{after}
use agentstrata.Storage.Memory.Isolation.Keys.{run_key_ne}
use agentstrata.Storage.Memory.Isolation.View.{Unaffected, Unaffected-refl, readers}
use agentstrata.Storage.Memory.Runs.{
  create_run, enforce_run_capacity, evict, new_run, session_runs, sort_by_age, store_run,
  update_run, updated,
}
use agentstrata.Storage.Memory.State.{MemoryBackend}
use agentstrata.Storage.Model.{
  RunKey, RunRecord, SessionKey, key_discrete, run_key_discrete, terminal,
}

module _ (k key : SessionKey) (other : k ≢ key) where
  get-put_run :
      (i j : String) (r : RunRecord) (runs : Dict RunKey RunRecord)
      → get run_key_discrete (key, j) (put run_key_discrete (k, i) r runs)
        ≡ get run_key_discrete (key, j) runs
  get-put_run i j r runs =
      get-put_ne run_key_discrete (k, i) (key, j) r runs (run_key_ne k key i j other)

  get-evict :
      (cap : ℕ) (j : String) (terminals : List RunRecord) (runs : Dict RunKey RunRecord)
      → get run_key_discrete (key, j) (evict k cap terminals runs)
        ≡ get run_key_discrete (key, j) runs
  unfolding evict
  get-evict cap j [] runs = refl
  get-evict cap j (t ∷ terminals) runs =
      let popped = pop run_key_discrete (k, t.key.1) runs in
      ground (
        arith,
        get-evict cap j terminals popped,
        get-pop_ne run_key_discrete (k, t.key.1) (key, j) runs (run_key_ne k key t.key.1 j other),
      )

module _ (k key : SessionKey) (other : k ≢ key) (b : MemoryBackend) where
  pub store_run-Unaffected :
      (i : String) (input : Fields) (now : ℕ)
      → Unaffected key b (after (store_run (k, i) input now b))
  unfolding store_run enforce_run_capacity readers
  store_run-Unaffected i input now = record {
    session = ground arith;
    run = λ id.
        let cap = b.settings.max_runs_per_session in
        let terminals = sort_by_age (keep_if terminal (session_runs k b.runs)) in
        ground (
          arith,
          get-evict k key other cap id terminals b.runs,
          get-put_run k key other i id (new_run (k, i) input now) (evict k cap terminals b.runs),
        );
    idempotency = λ id. ground arith;
    fence = ground arith;
    counter = ground arith;
    approval = ground arith;
  }

  pub create_run-Unaffected :
      (i : String) (input : Fields) (now : ℕ)
      → Unaffected key b (after (create_run (k, i) input now b))
  unfolding create_run
  create_run-Unaffected i input now = elim (Option-cases (get key_discrete k b.sessions)) [
    | inl e ↦ rw (e, create_run, after) (Unaffected-refl key b)
    | inr (s, e) ↦ elim (Option-cases (get run_key_discrete (k, i) b.runs)) [
      | inl f ↦ rw (e, f, create_run, after) (store_run-Unaffected i input now)
      | inr (r, f) ↦ rw (e, f, create_run, after) (Unaffected-refl key b)
    ]
  ]

  pub update_run-Unaffected :
      (i : String) (status : Option String) (n : Option ℕ) (outcome : Option Fields)
      (usage : Option (Dict String ℕ)) (now : ℕ)
      → Unaffected key b (after (update_run (k, i) status n outcome usage now b))
  unfolding update_run readers
  update_run-Unaffected i status n outcome usage now =
      elim (Option-cases (get run_key_discrete (k, i) b.runs)) [
        | inl e ↦ ground (arith, Unaffected-refl key b)
        | inr (r, e) ↦ record {
          session = ground arith;
          run = λ id.
              ground
                (arith, get-put_run k key other i id (updated r status n outcome usage now) b.runs);
          idempotency = λ id. ground arith;
          fence = ground arith;
          counter = ground arith;
          approval = ground arith;
        }
      ]
