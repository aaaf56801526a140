-- ===== src/Storage/Memory/Admission.antt =====
-- app/storage/memory.py: what `create_run` does when the session is there and the run is new.
use agentstrata.Json.{Fields}
use agentstrata.Prelude.{
  List, String, [], arith, dec_lt, false, inl, inr, none, refl, some, true, ℕ, ◌<◌, ◌∙◌, ◌∷◌, ◌≡◌,
  ◌≢◌, ◌≤◌, ◌⊎◌,
}
use agentstrata.Prelude.Dict.{
  Dict, count_if-pop-lt, get, get-pop, get-pop_ne, get-put_ne, get-put_self, pop, put,
}
use agentstrata.Storage.Contract.{capacity_error, ok, raise}
use agentstrata.Storage.Memory.Capacity.{IsBounded, contains-of_get, length-session_runs, run_count}
use agentstrata.Storage.Memory.Eviction.{
  terminals, terminals-IsEvictable, terminals-none, terminals-oldest,
}
use agentstrata.Storage.Memory.Runs.{
  create_run, enforce_run_capacity, evict, get_run, new_run, store_run,
}
use agentstrata.Storage.Memory.Sessions.{get_session}
use agentstrata.Storage.Memory.State.{MemoryBackend, in_session}
use agentstrata.Storage.Memory.WellFormed.{IsWellFormed}
use agentstrata.Storage.Model.{
  RunKey, RunRecord, SessionKey, SessionRecord, run_key_discrete, terminal,
}

-- Nothing is evicted while there is room.
evict-room :
    (key : SessionKey) (n : ℕ) (ts : List RunRecord) (runs : Dict RunKey RunRecord)
    → run_count key runs < n
    → evict key n ts runs ≡ runs
unfolding evict
evict-room key n [] runs h = refl
evict-room key n (t ∷ ts) runs h = ground (arith, length-session_runs key runs)

-- From a full session the first terminal run is evicted, and no other.
evict-full :
    (key : SessionKey) (t : RunRecord) (ts : List RunRecord) (runs : Dict RunKey RunRecord)
    → get run_key_discrete (key, t.key.1) runs ≡ some t
    → evict key (run_count key runs) (t ∷ ts) runs ≡ pop run_key_discrete (key, t.key.1) runs
unfolding evict in_session
evict-full key t ts runs stored =
    let popped = pop run_key_discrete (key, t.key.1) runs in
    let there = contains-of_get run_key_discrete (key, t.key.1) t runs stored in
    ground (
      arith,
      length-session_runs key runs,
      evict-room key (run_count key runs) ts popped,
      count_if-pop-lt run_key_discrete (in_session key) (key, t.key.1) runs,
    )

-- The session has no room, and no terminal run.
pub record IsStuck (key : SessionKey) (b : MemoryBackend) : Type 0 where
  pub full : run_count key b.runs ≡ b.settings.max_runs_per_session
  pub live : (id : String) (r : RunRecord) → get_run (key, id) b ≡ some r → terminal r ≡ false

-- `r` is the oldest terminal run of a session that has no room.
pub record IsVictim (key : SessionKey) (b : MemoryBackend) (t : RunRecord) : Type 0 where
  pub full : run_count key b.runs ≡ b.settings.max_runs_per_session
  pub stored : get_run (key, t.key.1) b ≡ some t
  pub done : terminal t ≡ true
  pub oldest :
      (id : String) (r : RunRecord)
      → get_run (key, id) b ≡ some r
      → terminal r ≡ true
      → t.updated_at ≤ r.updated_at

-- A run is stored under `rkey`, and every other run is as it was.
pub record Adds (rkey : RunKey) (run : RunRecord) (b c : MemoryBackend) : Type 0 where
  pub there : get_run rkey c ≡ some run
  pub others : (k : RunKey) → rkey ≢ k → get_run k c ≡ get_run k b
  pub sessions : c.sessions ≡ b.sessions

-- A run is stored under `rkey`, the run `gone` is not stored any more, and every other run is as
-- it was.
pub record Replaces (rkey gone : RunKey) (run : RunRecord) (b c : MemoryBackend) : Type 0 where
  pub there : get_run rkey c ≡ some run
  pub evicted : rkey ≢ gone → get_run gone c ≡ none
  pub others : (k : RunKey) → rkey ≢ k → gone ≢ k → get_run k c ≡ get_run k b
  pub sessions : c.sessions ≡ b.sessions

store_run-room :
    (rkey : RunKey) (input : Fields) (now : ℕ) (b : MemoryBackend)
    → run_count rkey.0 b.runs < b.settings.max_runs_per_session
    → store_run rkey input now b ≡ (
      ok (new_run rkey input now),
      record b { runs = put run_key_discrete rkey (new_run rkey input now) b.runs },
    )
unfolding store_run enforce_run_capacity
store_run-room rkey input now b h =
    let n = b.settings.max_runs_per_session in
    let ts = terminals rkey.0 b.runs in
    ground (arith, evict-room rkey.0 n ts b.runs h, length-session_runs rkey.0 b.runs)

store_run-stuck :
    (rkey : RunKey) (input : Fields) (now : ℕ) (b : MemoryBackend)
    → run_count rkey.0 b.runs ≡ b.settings.max_runs_per_session
    → terminals rkey.0 b.runs ≡ []
    → store_run rkey input now b ≡ (raise capacity_error, b)
unfolding store_run enforce_run_capacity evict
store_run-stuck rkey input now b full none_done =
    let n = b.settings.max_runs_per_session in
    let same : evict rkey.0 n (terminals rkey.0 b.runs) b.runs ≡ b.runs = rw none_done in
    ground (arith, length-session_runs rkey.0 b.runs, same)

store_run-full :
    (rkey : RunKey) (input : Fields) (now : ℕ) (b : MemoryBackend) (t : RunRecord)
    (ts : List RunRecord)
    → run_count rkey.0 b.runs ≡ b.settings.max_runs_per_session
    → terminals rkey.0 b.runs ≡ t ∷ ts
    → get run_key_discrete (rkey.0, t.key.1) b.runs ≡ some t
    → store_run rkey input now b ≡ (
      ok (new_run rkey input now),
      record b {
        runs =
            put run_key_discrete rkey
              (new_run rkey input now)
              (pop run_key_discrete (rkey.0, t.key.1) b.runs);
      },
    )
unfolding store_run enforce_run_capacity in_session
store_run-full rkey input now b t ts full some_done stored =
    let n = b.settings.max_runs_per_session in
    let popped = pop run_key_discrete (rkey.0, t.key.1) b.runs in
    let victim : evict rkey.0 n (terminals rkey.0 b.runs) b.runs ≡ popped =
      rw (← full, some_done) (evict-full rkey.0 t ts b.runs stored) in
    let there = contains-of_get run_key_discrete (rkey.0, t.key.1) t b.runs stored in
    ground (
      arith,
      victim,
      length-session_runs rkey.0 popped,
      count_if-pop-lt run_key_discrete (in_session rkey.0) (rkey.0, t.key.1) b.runs,
    )

-- The new record is stored, in the place of the oldest terminal run if the session is full.
stored_new :
    (rkey gone : RunKey) (run : RunRecord) (b : MemoryBackend)
    → Replaces rkey gone run b
        (record b { runs = put run_key_discrete rkey run (pop run_key_discrete gone b.runs) })
unfolding get_run
stored_new rkey gone run b =
    let d = pop run_key_discrete gone b.runs in
    record {
      there = get-put_self run_key_discrete rkey run d;
      evicted = λ h. ground (
        arith,
        get-put_ne run_key_discrete rkey gone run d h,
        get-pop run_key_discrete gone gone b.runs,
      );
      others = λ k h g.
          get-put_ne run_key_discrete rkey k run d h ∙ get-pop_ne run_key_discrete gone k b.runs g;
      sessions = refl;
    }

List-cases {ℓ} : {A : Type ℓ} (xs : List A) → (xs ≡ []) ⊎ ((y : A) × (ys : List A) × (xs ≡ y ∷ ys))
List-cases [] = inl refl
List-cases (y ∷ ys) = inr (y, ys, refl)

-- Asked for a run that is not stored, of a session that exists, a well-formed backend within its
-- bounds does one of three things. If the session is full and none of its runs is terminal it
-- raises `CapacityError` and changes nothing. If there is room it stores the new run. If the
-- session is full and has a terminal run, it stores the new run and evicts one run: the oldest
-- terminal run of the session. No other run changes, and no session does.
pub create_run-admits :
    (rkey : RunKey) (input : Fields) (now : ℕ) (b : MemoryBackend) (s : SessionRecord)
    → IsWellFormed b
    → IsBounded b
    → get_session rkey.0 b ≡ some s
    → get_run rkey b ≡ none
    → (IsStuck rkey.0 b × (create_run rkey input now b ≡ (raise capacity_error, b)))
      ⊎ ((run_count rkey.0 b.runs < b.settings.max_runs_per_session)
          × ((create_run rkey input now b).0 ≡ ok (new_run rkey input now))
          × Adds rkey (new_run rkey input now) b (create_run rkey input now b).1)
      ⊎ ((t : RunRecord) × IsVictim rkey.0 b t
          × ((create_run rkey input now b).0 ≡ ok (new_run rkey input now))
          × Replaces rkey
              (rkey.0, t.key.1)
              (new_run rkey input now)
              b
              (create_run rkey input now b).1)
unfolding get_session get_run create_run
create_run-admits rkey input now b s wf bounded here absent =
    let run = new_run rkey input now in
    let stores : create_run rkey input now b ≡ store_run rkey input now b = ground arith in
    elim (dec_lt (run_count rkey.0 b.runs) b.settings.max_runs_per_session) [
      | yes room ↦
          rw (stores, store_run-room rkey input now b room)
            (inr (
              inl (
                room,
                refl,
                record {
                  there = get-put_self run_key_discrete rkey run b.runs;
                  others = λ k h. get-put_ne run_key_discrete rkey k run b.runs h;
                  sessions = refl;
                },
              )))
      | no no_room ↦
          let full : run_count rkey.0 b.runs ≡ b.settings.max_runs_per_session =
            omega (arith, bounded.runs rkey.0) in
          elim (List-cases (terminals rkey.0 b.runs)) [
            | inl nobody ↦ inl (
              record { full = full; live = terminals-none rkey.0 b nobody },
              stores ∙ store_run-stuck rkey input now b full nobody,
            )
            | inr (t, ts, some_done) ↦
                let evictable = rw some_done at (terminals-IsEvictable rkey.0 b wf) in
                rw (stores, store_run-full rkey input now b t ts full some_done evictable.0.0)
                  (inr (
                    inr (
                      t,
                      record {
                        full = full;
                        stored = evictable.0.0;
                        done = evictable.0.1;
                        oldest = terminals-oldest rkey.0 b t ts some_done;
                      },
                      refl,
                      stored_new rkey (rkey.0, t.key.1) run b,
                    )))
          ]
    ]
