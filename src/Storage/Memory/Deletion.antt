-- ===== src/Storage/Memory/Deletion.antt =====
-- app/storage/memory.py: the deletion of a session takes what belongs to it along.
use agentstrata.Prelude.{
  Bool-cases, Option-cases, String, arith, false, inl, inr, none, not, some, true, ℕ, ◌+◌, ◌≡◌, ◌⊎◌,
}
use agentstrata.Prelude.Dict.{get, get-keep_if, get-pop}
use agentstrata.Storage.Contract.{ok, raise, session_busy}
use agentstrata.Storage.Memory.Fences.{acquire_fence, current_fence, held}
use agentstrata.Storage.Memory.Fencing.{counter}
use agentstrata.Storage.Memory.Idempotency.{get_idempotency}
use agentstrata.Storage.Memory.Runs.{get_run}
use agentstrata.Storage.Memory.Sessions.{delete_session, get_session, has_live_run}
use agentstrata.Storage.Memory.State.{MemoryBackend, in_session}
use agentstrata.Storage.Model.{SessionKey, key_discrete, run_key_discrete}

-- A deletion does one of three things. It finds no session, or refuses because a run of the
-- session is not terminal, and then changes nothing; or it removes the session, its runs, its
-- idempotency records, its fence and its fence counter.
pub delete_session-cases :
    (key : SessionKey) (b : MemoryBackend)
    → ((get_session key b ≡ none) × (delete_session key b ≡ (ok false, b)))
      ⊎ ((has_live_run key b ≡ true) × (delete_session key b ≡ (raise session_busy, b)))
      ⊎ ((has_live_run key b ≡ false)
          × ((delete_session key b).0 ≡ ok true)
          × (get_session key (delete_session key b).1 ≡ none)
          × ((id : String) → get_run (key, id) (delete_session key b).1 ≡ none)
          × ((id : String) → get_idempotency (key, id) (delete_session key b).1 ≡ none)
          × (current_fence key (delete_session key b).1 ≡ none)
          × (counter key (delete_session key b).1 ≡ 0))
unfolding delete_session get_session get_run get_idempotency current_fence counter in_session
delete_session-cases key b = elim (Option-cases (get key_discrete key b.sessions)) [
  | inl e ↦ inl (e, ground arith)
  | inr (r, e) ↦ elim (Bool-cases (has_live_run key b)) [
    | inl f ↦ inr (inl (f, ground arith))
    | inr f ↦ inr (
        inr (
          f,
          ground arith,
          ground (arith, get-pop key_discrete key key b.sessions),
          λ id.
              ground (
                arith,
                get-keep_if run_key_discrete (λ i. not (in_session key i)) (key, id) b.runs,
              ),
          λ id. ground (
            arith,
            get-keep_if run_key_discrete (λ i. not (in_session key i)) (key, id) b.idempotency,
          ),
          ground (arith, get-pop key_discrete key key b.fences),
          ground (arith, get-pop key_discrete key key b.fence_counters),
        ))
  ]
]

-- A deletion asks neither for a fence nor about one: after it, the next fence of that session has
-- the number 1, whatever numbers were drawn before and whoever held the fence.
pub acquire-after_delete :
    (key : SessionKey) (token : String) (ttl now : ℕ) (b : MemoryBackend)
    → (delete_session key b).0 ≡ ok true
    → (acquire_fence key token ttl now (delete_session key b).1).0
      ≡ ok (some (record { token = token; fencing_number = 1; expires_at = some (now + ttl) }))
unfolding delete_session acquire_fence held
acquire-after_delete key token ttl now b h = elim (Option-cases (get key_discrete key b.sessions)) [
  | inl e ↦ absurd (ground arith)
  | inr (r, e) ↦
      ground (
        arith,
        get-pop key_discrete key key b.fences,
        get-pop key_discrete key key b.fence_counters,
      )
]
