-- ===== src/Storage/Memory/Revisions.antt =====
-- app/storage/memory.py: the compare-and-swap on a session's revision, and its reversal.
use agentstrata.Json.{Json}
use agentstrata.Prelude.{
  Bool, List, Option, Option-cases, String, arith, inl, inr, none, some, ℕ, ℕ_discrete, ◌++◌, ◌+◌,
  ◌∙◌, ◌≡◌, ◌≢◌, ◌≤◌, ◌⊎◌,
}
use agentstrata.Prelude.Dict.{Dict, get, get-put, get-put_ne, get-put_self}
use agentstrata.Storage.Contract.{ok, raise, revision_conflict, session_not_found}
use agentstrata.Storage.Memory.Commands.{
  Event, after, call, delete_session_cmd, swept, truncate_cmd,
}
use agentstrata.Storage.Memory.Sessions.{
  get_session, insert_session, mutate_session, mutated, new_session,
}
use agentstrata.Storage.Memory.State.{MemoryBackend}
use agentstrata.Storage.Model.{SessionKey, SessionRecord, key_discrete}

-- A mutation with events does one of three things: it raises for a missing session or for a stale
-- revision and changes nothing, or it appends the events, steps the revision and sets the time of
-- the session, and returns the record that it stores.
pub mutate_session-cases :
    (key : SessionKey) (rev : ℕ) (events : List Json) (usage : Option (Dict String ℕ))
    (hist : Option Bool) (now : ℕ) (b : MemoryBackend)
    → ((get_session key b ≡ none)
        × (mutate_session key rev (some events) usage hist now b ≡ (raise session_not_found, b)))
      ⊎ ((r : SessionRecord) × (get_session key b ≡ some r)
          × (r.revision ≢ rev)
          × (mutate_session key rev (some events) usage hist now b ≡ (raise revision_conflict, b)))
      ⊎ ((r : SessionRecord) × (s : SessionRecord) × (get_session key b ≡ some r)
          × (r.revision ≡ rev)
          × ((mutate_session key rev (some events) usage hist now b).0 ≡ ok s)
          × (get_session key (mutate_session key rev (some events) usage hist now b).1 ≡ some s)
          × (s.events ≡ r.events ++ events)
          × (s.revision ≡ rev + 1)
          × (s.updated_at ≡ now))
unfolding mutate_session get_session mutated
mutate_session-cases key rev events usage hist now b =
    elim (Option-cases (get key_discrete key b.sessions)) [
      | inl e ↦ inl (e, ground arith)
      | inr (r, e) ↦ elim (ℕ_discrete r.revision rev) [
        | yes p ↦
            let s = mutated r (some events) usage hist now in
            inr (
              inr (
                r,
                s,
                e,
                p,
                ground arith,
                ground (arith, get-put_self key_discrete key s b.sessions),
                ground arith,
                ground arith,
                ground arith,
              ))
        | no p ↦ inr (inl (r, e, p, ground arith))
      ]
    ]

-- The event may lower the revision of the session or remove it.
abbrev pub Rewinds : SessionKey → Event → Type 0
Rewinds key (call (truncate_cmd k rev)) = k ≡ key
Rewinds key (call (delete_session_cmd k)) = k ≡ key
Rewinds key (swept now) = Unit
Rewinds key _ = ⊥

-- The session is there, at this revision or a later one.
abbrev pub AtLeast : SessionKey → ℕ → MemoryBackend → Type 0
AtLeast key rev b = (r : SessionRecord) × (get_session key b ≡ some r) × (rev ≤ r.revision)

module _ (key : SessionKey) (rev : ℕ) where
  pub AtLeast-same :
      (b c : MemoryBackend)
      → get_session key c ≡ get_session key b
      → AtLeast key rev b
      → AtLeast key rev c
  AtLeast-same b c same (r, here, le) = (r, same ∙ here, le)

  pub insert_session-AtLeast :
      (k : SessionKey) (events : List Json) (now : ℕ) (b : MemoryBackend)
      → AtLeast key rev b
      → AtLeast key rev (after (insert_session k events now b))
  unfolding get_session insert_session
  insert_session-AtLeast k events now b (r, here, le) =
      (r, ground (arith, get-put key_discrete k key (new_session k events now) b.sessions), le)

  pub mutate_session-AtLeast :
      (k : SessionKey) (expected : ℕ) (events : Option (List Json)) (usage : Option (Dict String ℕ))
      (hist : Option Bool) (now : ℕ) (b : MemoryBackend)
      → AtLeast key rev b
      → AtLeast key rev (after (mutate_session k expected events usage hist now b))
  unfolding get_session mutate_session mutated
  mutate_session-AtLeast k expected events usage hist now b (r, here, le) =
      elim (key_discrete k key) [
        | no p ↦ elim (Option-cases (get key_discrete k b.sessions)) [
          | inl e ↦ (r, ground arith, le)
          | inr (s, e) ↦ (
            r,
            ground
                (arith, get-put_ne key_discrete k key (mutated s events usage hist now) b.sessions),
            le,
          )
        ]
        | yes p ↦ elim (ℕ_discrete r.revision expected) [
          | yes q ↦ (
            mutated r events usage hist now,
            ground (arith, get-put key_discrete k key (mutated r events usage hist now) b.sessions),
            omega arith,
          )
          | no q ↦ (r, ground arith, le)
        ]
      ]

pub applied_mutation :
    (key : SessionKey) (rev : ℕ) (events : Option (List Json)) (usage : Option (Dict String ℕ))
    (hist : Option Bool) (now : ℕ) (b : MemoryBackend) (s : SessionRecord)
    → (mutate_session key rev events usage hist now b).0 ≡ ok s
    → AtLeast key (rev + 1) (mutate_session key rev events usage hist now b).1
unfolding mutate_session get_session mutated
applied_mutation key rev events usage hist now b s h =
    elim (Option-cases (get key_discrete key b.sessions)) [
      | inl e ↦ absurd (ground arith)
      | inr (r, e) ↦
          let s' = mutated r events usage hist now in
          (s', ground (arith, get-put_self key_discrete key s' b.sessions), ground arith)
    ]
