-- ===== src/Storage/Memory/Capacity.antt =====
-- app/storage/memory.py: the bounds on the runs and the idempotency records of a session.
use agentstrata.Json.{Fields}
use agentstrata.Prelude.{
  List, Option, Option-cases, String, [], arith, count_if, count_if-keep_if-le, inl, inr, keep_if,
  length, length-keep_if, length-map, map, not, refl, some, true, ℕ, ◌∙◌, ◌∷◌, ◌≡◌, ◌≤◌,
}
use agentstrata.Prelude.Dict.{Dict, contains, count_if-pop-le, count_if-put, get, pop}
use agentstrata.Storage.Memory.Commands.{after}
use agentstrata.Storage.Memory.Idempotency.{
  create_idempotency, expire_idempotency, finish_idempotency, new_idempotency, session_keys,
}
use agentstrata.Storage.Memory.Runs.{
  enforce_run_capacity, evict, new_run, session_runs, sort_by_age, store_run, update_run, updated,
}
use agentstrata.Storage.Memory.Sessions.{delete_session}
use agentstrata.Storage.Memory.State.{MemoryBackend, in_session}
use agentstrata.Storage.Memory.Sweep.{interrupt, sweep, sweeps_idempotency, sweeps_run}
use agentstrata.Storage.Model.{
  IdempotencyRecord, RunKey, RunRecord, SessionKey, run_key_discrete, terminal,
}

-- How many runs, and how many idempotency records, a session has.
abbrev pub run_count : SessionKey → Dict RunKey RunRecord → ℕ
run_count key runs = count_if (λ (e : RunKey × RunRecord). in_session key e.0) runs

abbrev pub key_count : SessionKey → Dict RunKey IdempotencyRecord → ℕ
key_count key d = count_if (λ (e : RunKey × IdempotencyRecord). in_session key e.0) d

-- No session has more runs or more idempotency records than the settings allow.
pub record IsBounded (b : MemoryBackend) : Type 0 where
  pub runs : (key : SessionKey) → run_count key b.runs ≤ b.settings.max_runs_per_session
  pub idempotency :
      (key : SessionKey)
      → key_count key b.idempotency ≤ b.settings.max_idempotency_records_per_session

pub length-session_runs :
    (key : SessionKey) (runs : Dict RunKey RunRecord)
    → length (session_runs key runs) ≡ run_count key runs
unfolding session_runs
length-session_runs key runs =
    length-map (λ (e : RunKey × RunRecord). e.1) _
    ∙ length-keep_if (λ (e : RunKey × RunRecord). in_session key e.0) runs

pub run_count-evict-le :
    (key skey : SessionKey) (cap : ℕ) (terminals : List RunRecord) (runs : Dict RunKey RunRecord)
    → run_count key (evict skey cap terminals runs) ≤ run_count key runs
unfolding evict
run_count-evict-le key skey cap [] runs = omega arith
run_count-evict-le key skey cap (t ∷ terminals) runs =
    let popped = pop run_key_discrete (skey, t.key.1) runs in
    ground (
      arith,
      run_count-evict-le key skey cap terminals popped,
      count_if-pop-le run_key_discrete (in_session key) (skey, t.key.1) runs,
    )

pub in_session-eq : (key : SessionKey) (k : RunKey) → in_session key k ≡ true → k.0 ≡ key
unfolding in_session
in_session-eq key k h = ground arith

pub store_run-IsBounded :
    (rkey : RunKey) (input : Fields) (now : ℕ) (b : MemoryBackend)
    → IsBounded b
    → IsBounded (after (store_run rkey input now b))
unfolding store_run enforce_run_capacity
store_run-IsBounded rkey input now b h = record {
  runs = λ key.
      let cap = b.settings.max_runs_per_session in
      let terminals = sort_by_age (keep_if terminal (session_runs rkey.0 b.runs)) in
      let kept = evict rkey.0 cap terminals b.runs in
      let same = h.runs key in
      ground (
        arith,
        run_count-evict-le key rkey.0 cap terminals b.runs,
        length-session_runs rkey.0 kept,
        count_if-put run_key_discrete (in_session key) rkey (new_run rkey input now) kept,
        in_session-eq key rkey,
      );
  idempotency = λ key. let same = h.idempotency key in ground arith;
}

pub contains-of_get {ℓ} :
    {K V : Type ℓ} (dec : Discrete K) (k : K) (v : V) (d : Dict K V)
    → get dec k d ≡ some v
    → contains dec k d ≡ true
unfolding contains
contains-of_get dec k v d h = rw (h, contains)

pub update_run-IsBounded :
    (rkey : RunKey) (status : Option String) (n : Option ℕ) (outcome : Option Fields)
    (usage : Option (Dict String ℕ)) (now : ℕ) (b : MemoryBackend)
    → IsBounded b
    → IsBounded (after (update_run rkey status n outcome usage now b))
unfolding update_run
update_run-IsBounded rkey status n outcome usage now b h =
    elim (Option-cases (get run_key_discrete rkey b.runs)) [
      | inl e ↦ rw (e, update_run, after) h
      | inr (r, e) ↦
          rw (e, update_run, after)
            (record {
              runs = λ key.
                  let r' = updated r status n outcome usage now in
                  let same = h.runs key in
                  ground (
                    arith,
                    count_if-put run_key_discrete (in_session key) rkey r' b.runs,
                    contains-of_get run_key_discrete rkey r b.runs e,
                  );
              idempotency = h.idempotency;
            })
    ]

pub delete_session-IsBounded :
    (k : SessionKey) (b : MemoryBackend) → IsBounded b → IsBounded (after (delete_session k b))
unfolding delete_session
delete_session-IsBounded k b h = record {
  runs = λ key.
      let same = h.runs key in
      ground (
        arith,
        count_if-keep_if-le (λ (e : RunKey × RunRecord). in_session key e.0)
            (λ e. not (in_session k e.0)) b.runs,
      );
  idempotency = λ key.
      let same = h.idempotency key in
      ground (
        arith,
        count_if-keep_if-le (λ (e : RunKey × IdempotencyRecord). in_session key e.0)
            (λ e. not (in_session k e.0)) b.idempotency,
      );
}

pub create_idempotency-IsBounded :
    (ikey : RunKey) (ttl now : ℕ) (b : MemoryBackend)
    → IsBounded b
    → IsBounded (after (create_idempotency ikey ttl now b))
unfolding create_idempotency session_keys
create_idempotency-IsBounded ikey ttl now b h = record {
  runs = λ key. let same = h.runs key in ground arith;
  idempotency = λ key.
      let same = h.idempotency key in
      ground (
        arith,
        length-keep_if (λ (e : RunKey × IdempotencyRecord). in_session ikey.0 e.0) b.idempotency,
        count_if-put run_key_discrete (in_session key) ikey (new_idempotency ikey ttl now)
            b.idempotency,
        in_session-eq key ikey,
      );
}

pub finish_idempotency-IsBounded :
    (ikey : RunKey) (status : String) (outcome : Fields) (b : MemoryBackend)
    → IsBounded b
    → IsBounded (after (finish_idempotency ikey status outcome b))
unfolding finish_idempotency
finish_idempotency-IsBounded ikey status outcome b h =
    elim (Option-cases (get run_key_discrete ikey b.idempotency)) [
      | inl e ↦ rw (e, finish_idempotency, after) h
      | inr (r, e) ↦
          rw (e, finish_idempotency, after)
            (record {
              runs = h.runs;
              idempotency = λ key.
                  let r' = record r { status = status; outcome = outcome } in
                  let same = h.idempotency key in
                  ground (
                    arith,
                    count_if-put run_key_discrete (in_session key) ikey r' b.idempotency,
                    contains-of_get run_key_discrete ikey r b.idempotency e,
                  );
            })
    ]

pub expire_idempotency-IsBounded :
    (ikey : RunKey) (b : MemoryBackend)
    → IsBounded b
    → IsBounded (after (expire_idempotency ikey b))
unfolding expire_idempotency
expire_idempotency-IsBounded ikey b h = record {
  runs = λ key. let same = h.runs key in ground arith;
  idempotency = λ key.
      let same = h.idempotency key in
      ground (arith, count_if-pop-le run_key_discrete (in_session key) ikey b.idempotency);
}

run_count-interrupt :
    (key : SessionKey) (b : MemoryBackend) (now : ℕ) (runs : Dict RunKey RunRecord)
    → run_count key (map (interrupt b now) runs) ≡ run_count key runs
unfolding count_if interrupt
run_count-interrupt key b now [] = refl
run_count-interrupt key b now (e ∷ runs) = ground (arith, run_count-interrupt key b now runs)

pub sweep-IsBounded : (now : ℕ) (b : MemoryBackend) → IsBounded b → IsBounded (after (sweep now b))
unfolding sweep
sweep-IsBounded now b h = record {
  runs = λ key. omega (
    arith,
    h.runs key,
    run_count-interrupt key b now (keep_if (λ e. not (sweeps_run b now e)) b.runs),
    count_if-keep_if-le (λ (e : RunKey × RunRecord). in_session key e.0)
        (λ e. not (sweeps_run b now e)) b.runs,
  );
  idempotency = λ key. omega (
    arith,
    h.idempotency key,
    count_if-keep_if-le (λ (e : RunKey × IdempotencyRecord). in_session key e.0)
        (λ e. not (sweeps_idempotency now e)) b.idempotency,
  );
}

-- An operation that leaves the runs, the idempotency records and the settings alone.
pub same-IsBounded :
    (b c : MemoryBackend)
    → c.runs ≡ b.runs
    → c.idempotency ≡ b.idempotency
    → c.settings ≡ b.settings
    → IsBounded b
    → IsBounded c
same-IsBounded b c p q r h = record {
  runs = λ key. let same = h.runs key in ground arith;
  idempotency = λ key. let same = h.idempotency key in ground arith;
}
