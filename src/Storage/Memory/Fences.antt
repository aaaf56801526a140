-- ===== src/Storage/Memory/Fences.antt =====
-- app/storage/memory.py: the session fences. Fence lifetimes are in microseconds.
use agentstrata.Prelude.{
  Bool, Option, String, false, get_or, if◌then◌else◌, ltb, none, some, str_eq, true, ℕ, ◌+◌,
}
use agentstrata.Prelude.Dict.{get, pop, put}
use agentstrata.Storage.Contract.{ok}
use agentstrata.Storage.Memory.State.{Action, MemoryBackend}
use agentstrata.Storage.Model.{Fence, SessionKey, key_discrete}

-- current is not None and (current.expires_at is None or current.expires_at > now)
unfoldable pub held : Option Fence → ℕ → Bool
held none now = false
held (some f) now = elim f.expires_at [ none ↦ true | some t ↦ ltb now t ]

unfoldable pub acquire_fence : SessionKey → String → ℕ → ℕ → Action (Option Fence)
unfolding held key_discrete
acquire_fence key token ttl now b =
    let number = get_or (get key_discrete key b.fence_counters) 0 + 1 in
    let fence : Fence = record {
      token = token;
      fencing_number = number;
      expires_at = some (now + ttl);
    } in
    if held (get key_discrete key b.fences) now then (ok none, b) else (
      ok (some fence),
      record b {
        fence_counters = put key_discrete key number b.fence_counters;
        fences = put key_discrete key fence b.fences;
      },
    )

unfoldable pub renew_fence : SessionKey → String → ℕ → ℕ → Action Bool
unfolding key_discrete
renew_fence key token ttl now b = elim (get key_discrete key b.fences) [
  | none ↦ (ok false, b)
  | some f ↦
      let f' = record f { expires_at = some (now + ttl) } in
      if str_eq f.token token
      then (ok true, record b { fences = put key_discrete key f' b.fences })
      else (ok false, b)
]

unfoldable pub release_fence : SessionKey → String → Action Bool
unfolding key_discrete
release_fence key token b = elim (get key_discrete key b.fences) [
  | none ↦ (ok false, b)
  | some f ↦
      if str_eq f.token token
      then (ok true, record b { fences = pop key_discrete key b.fences })
      else (ok false, b)
]

unfoldable pub current_fence : SessionKey → MemoryBackend → Option Fence
unfolding key_discrete
current_fence key b = get key_discrete key b.fences
