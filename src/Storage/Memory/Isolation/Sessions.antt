-- ===== src/Storage/Memory/Isolation/Sessions.antt =====
-- app/storage/memory.py: the session methods leave other sessions alone.
use agentstrata.Json.{Json}
use agentstrata.Prelude.{Bool, List, Option, Option-cases, String, arith, inl, inr, not, ℕ, ◌≢◌}
use agentstrata.Prelude.Dict.{Dict, get, get-keep_if, get-pop_ne, get-put_ne}
use agentstrata.Storage.Memory.Commands.{after}
use agentstrata.Storage.Memory.Isolation.Keys.{in_session-ne}
use agentstrata.Storage.Memory.Isolation.View.{Unaffected, readers}
use agentstrata.Storage.Memory.Sessions.{
  delete_session, insert_session, mutate_session, mutated, new_session, truncate_session_events,
  truncated,
}
use agentstrata.Storage.Memory.State.{MemoryBackend, in_session}
use agentstrata.Storage.Model.{SessionKey, key_discrete, run_key_discrete}

module _ (k key : SessionKey) (other : k ≢ key) (b : MemoryBackend) where
  pub insert_session-Unaffected :
      (events : List Json) (now : ℕ) → Unaffected key b (after (insert_session k events now b))
  unfolding insert_session readers
  insert_session-Unaffected events now =
      ground (arith, get-put_ne key_discrete k key (new_session k events now) b.sessions)

  pub mutate_session-Unaffected :
      (rev : ℕ) (events : Option (List Json)) (usage : Option (Dict String ℕ)) (hist : Option Bool)
      (now : ℕ)
      → Unaffected key b (after (mutate_session k rev events usage hist now b))
  unfolding mutate_session readers
  mutate_session-Unaffected rev events usage hist now =
      elim (Option-cases (get key_discrete k b.sessions)) [
        | inl e ↦ ground arith
        | inr (r, e) ↦
            ground
              (arith, get-put_ne key_discrete k key (mutated r events usage hist now) b.sessions)
      ]

  pub truncate-Unaffected : (rev : ℕ) → Unaffected key b (after (truncate_session_events k rev b))
  unfolding truncate_session_events readers
  truncate-Unaffected rev = elim (Option-cases (get key_discrete k b.sessions)) [
    | inl e ↦ ground arith
    | inr (r, e) ↦ ground (arith, get-put_ne key_discrete k key (truncated r rev) b.sessions)
  ]

  pub delete_session-Unaffected : Unaffected key b (after (delete_session k b))
  unfolding delete_session readers
  delete_session-Unaffected = record {
    session = ground (arith, get-pop_ne key_discrete k key b.sessions);
    run = λ id. ground (
      arith,
      in_session-ne k key id other,
      get-keep_if run_key_discrete (λ i. not (in_session k i)) (key, id) b.runs,
    );
    idempotency = λ id. ground (
      arith,
      in_session-ne k key id other,
      get-keep_if run_key_discrete (λ i. not (in_session k i)) (key, id) b.idempotency,
    );
    fence = ground (arith, get-pop_ne key_discrete k key b.fences);
    counter = ground (arith, get-pop_ne key_discrete k key b.fence_counters);
    approval = ground arith;
  }
