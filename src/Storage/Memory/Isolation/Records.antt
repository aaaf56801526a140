-- ===== src/Storage/Memory/Isolation/Records.antt =====
-- app/storage/memory.py: the idempotency, fence and approval methods leave other keys alone.
use agentstrata.Json.{Fields}
use agentstrata.Prelude.{
  Bool-cases, Option, Option-cases, String, arith, get_or, inl, inr, leb, refl, some, ℕ, ◌+◌, ◌≡◌,
  ◌≢◌,
}
use agentstrata.Prelude.Dict.{Dict, contains, get, get-pop_ne, get-put_ne, put}
use agentstrata.Storage.Memory.Approvals.{
  ApprovalRequest, create_approval, decide_approval, new_approval,
}
use agentstrata.Storage.Memory.Commands.{after}
use agentstrata.Storage.Memory.Fences.{acquire_fence, held, release_fence, renew_fence}
use agentstrata.Storage.Memory.Idempotency.{
  create_idempotency, expire_idempotency, finish_idempotency, new_idempotency, session_keys,
}
use agentstrata.Storage.Memory.Isolation.Keys.{run_key_ne}
use agentstrata.Storage.Memory.Isolation.View.{Unaffected, Unaffected-refl, readers}
use agentstrata.Storage.Memory.State.{MemoryBackend}
use agentstrata.Storage.Model.{
  Fence, IdempotencyRecord, RunKey, SessionKey, key_discrete, run_key_discrete,
}

module _ (k key : SessionKey) (other : k ≢ key) where
  get-put_idempotency :
      (i j : String) (r : IdempotencyRecord) (d : Dict RunKey IdempotencyRecord)
      → get run_key_discrete (key, j) (put run_key_discrete (k, i) r d)
        ≡ get run_key_discrete (key, j) d
  get-put_idempotency i j r d =
      get-put_ne run_key_discrete (k, i) (key, j) r d (run_key_ne k key i j other)

module _ (k key : SessionKey) (other : k ≢ key) (b : MemoryBackend) where
  pub put_idempotency-Unaffected :
      (i : String) (r : IdempotencyRecord)
      → Unaffected key b (record b { idempotency = put run_key_discrete (k, i) r b.idempotency })
  unfolding readers
  put_idempotency-Unaffected i r = record {
    session = refl;
    run = λ id. refl;
    idempotency = λ id. get-put_idempotency k key other i id r b.idempotency;
    fence = refl;
    counter = refl;
    approval = refl;
  }

  pub create_idempotency-Unaffected :
      (i : String) (ttl now : ℕ) → Unaffected key b (after (create_idempotency (k, i) ttl now b))
  unfolding create_idempotency
  create_idempotency-Unaffected i ttl now =
      let cap = b.settings.max_idempotency_records_per_session in
      elim (Option-cases (get run_key_discrete (k, i) b.idempotency)) [
        | inl e ↦ elim (Bool-cases (leb cap (session_keys k b.idempotency))) [
          | inl f ↦ rw (e, f, create_idempotency, after) (Unaffected-refl key b)
          | inr f ↦
              rw (e, f, create_idempotency, after)
                (put_idempotency-Unaffected i (new_idempotency (k, i) ttl now))
        ]
        | inr (r, e) ↦ rw (e, create_idempotency, after) (Unaffected-refl key b)
      ]

  pub finish_idempotency-Unaffected :
      (i status : String) (outcome : Fields)
      → Unaffected key b (after (finish_idempotency (k, i) status outcome b))
  unfolding finish_idempotency
  finish_idempotency-Unaffected i status outcome =
      elim (Option-cases (get run_key_discrete (k, i) b.idempotency)) [
        | inl e ↦ rw (e, finish_idempotency, after) (Unaffected-refl key b)
        | inr (r, e) ↦
            rw (e, finish_idempotency, after)
              (put_idempotency-Unaffected i (record r { status = status; outcome = outcome }))
      ]

  pub expire_idempotency-Unaffected :
      (i : String) → Unaffected key b (after (expire_idempotency (k, i) b))
  unfolding expire_idempotency contains readers
  expire_idempotency-Unaffected i =
      elim (Option-cases (get run_key_discrete (k, i) b.idempotency)) [
        | inl e ↦ rw (e, expire_idempotency, after) (Unaffected-refl key b)
        | inr (r, e) ↦
            rw (e, expire_idempotency, after)
              (record {
                session = refl;
                run = λ id. refl;
                idempotency = λ id.
                    get-pop_ne run_key_discrete (k, i) (key, id) b.idempotency
                      (run_key_ne k key i id other);
                fence = refl;
                counter = refl;
                approval = refl;
              })
      ]

  pub acquire_fence-Unaffected :
      (token : String) (ttl now : ℕ) → Unaffected key b (after (acquire_fence k token ttl now b))
  unfolding acquire_fence readers
  acquire_fence-Unaffected token ttl now =
      let number = get_or (get key_discrete k b.fence_counters) 0 + 1 in
      let fence : Fence = record {
        token = token;
        fencing_number = number;
        expires_at = some (now + ttl);
      } in
      elim (Bool-cases (held (get key_discrete k b.fences) now)) [
        | inl e ↦ rw e (Unaffected-refl key b)
        | inr e ↦ rw e (record {
          session = refl;
          run = λ id. refl;
          idempotency = λ id. refl;
          fence = get-put_ne key_discrete k key fence b.fences other;
          counter = get-put_ne key_discrete k key number b.fence_counters other;
          approval = refl;
        })
      ]

  pub renew_fence-Unaffected :
      (token : String) (ttl now : ℕ) → Unaffected key b (after (renew_fence k token ttl now b))
  unfolding renew_fence readers
  renew_fence-Unaffected token ttl now = elim (Option-cases (get key_discrete k b.fences)) [
    | inl e ↦ ground arith
    | inr (f, e) ↦
        let f' = record f { expires_at = some (now + ttl) } in
        ground (arith, get-put_ne key_discrete k key f' b.fences)
  ]

  pub release_fence-Unaffected :
      (token : String) → Unaffected key b (after (release_fence k token b))
  unfolding release_fence readers
  release_fence-Unaffected token = elim (Option-cases (get key_discrete k b.fences)) [
    | inl e ↦ ground arith
    | inr (f, e) ↦ ground (arith, get-pop_ne key_discrete k key b.fences)
  ]

  pub create_approval-Unaffected :
      (req : ApprovalRequest) (now : ℕ) → Unaffected key b (after (create_approval k req now b))
  unfolding create_approval readers
  create_approval-Unaffected req now =
      ground (arith, get-put_ne key_discrete k key (new_approval k req now) b.approvals)

  pub decide_approval-Unaffected :
      (decision : String) (reason : Option String) (now : ℕ)
      → Unaffected key b (after (decide_approval k decision reason now b))
  unfolding decide_approval readers
  decide_approval-Unaffected decision reason now =
      elim (Option-cases (get key_discrete k b.approvals)) [
        | inl e ↦ ground arith
        | inr (r, e) ↦
            let r' = record r {
              status = decision;
              reason = reason;
              decided_at = some now;
              revision = r.revision + 1;
            } in
            ground (arith, get-put_ne key_discrete k key r' b.approvals)
      ]
