-- ===== src/Storage/File/Fences.antt =====
-- app/storage/file_backend.py: the fences, which this process keeps. Lifetimes are in
-- microseconds.
use agentstrata.Prelude.{
  Bool, Option, String, false, get_or, if◌then◌else◌, none, some, str_eq, true, ℕ, ◌+◌,
}
use agentstrata.Prelude.Dict.{get, pop, put}
use agentstrata.Storage.File.State.{FileBackend, Host, Io, done}
use agentstrata.Storage.Memory.Fences.{held}
use agentstrata.Storage.Model.{Fence, SessionKey, key_discrete}

-- _fkey
unfoldable pub fence_key : Host → SessionKey → SessionKey
fence_key host key = (key.0, host.digest key.1, key.2)

module _ (host : Host) (now : ℕ) where
  unfoldable pub acquire_fence : SessionKey → String → ℕ → Io (Option Fence)
  unfolding fence_key held key_discrete
  acquire_fence skey token ttl b =
      let key = fence_key host skey in
      let number = get_or (get key_discrete key b.fence_counters) 0 + 1 in
      let fence : Fence = record {
        token = token;
        fencing_number = number;
        expires_at = some (now + ttl);
      } in
      if held (get key_discrete key b.fences) now then (done none, b) else (
        done (some fence),
        record b {
          fence_counters = put key_discrete key number b.fence_counters;
          fences = put key_discrete key fence b.fences;
        },
      )

  unfoldable pub renew_fence : SessionKey → String → ℕ → Io Bool
  unfolding fence_key key_discrete
  renew_fence skey token ttl b =
      let key = fence_key host skey in
      elim (get key_discrete key b.fences) [
        | none ↦ (done false, b)
        | some f ↦
            let f' = record f { expires_at = some (now + ttl) } in
            if str_eq f.token token
            then (done true, record b { fences = put key_discrete key f' b.fences })
            else (done false, b)
      ]

  unfoldable pub release_fence : SessionKey → String → Io Bool
  unfolding fence_key key_discrete
  release_fence skey token b =
      let key = fence_key host skey in
      elim (get key_discrete key b.fences) [
        | none ↦ (done false, b)
        | some f ↦
            if str_eq f.token token
            then (done true, record b { fences = pop key_discrete key b.fences })
            else (done false, b)
      ]

  unfoldable pub current_fence : SessionKey → FileBackend → Option Fence
  unfolding fence_key key_discrete
  current_fence skey b = get key_discrete (fence_key host skey) b.fences
