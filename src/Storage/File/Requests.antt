-- ===== src/Storage/File/Requests.antt =====
-- app/storage/file_backend.py and app/storage/memory.py: the session and fence methods that both
-- backends have, as requests, and what each backend replies.
use agentstrata.Json.{Json}
use agentstrata.Prelude.{Bool, List, Option, String, [], none, some, ℕ, ◌∷◌}
use agentstrata.Prelude.Dict.{Dict}
use agentstrata.Storage.Codec.Sorting.{sorted_session}
use agentstrata.Storage.Contract.{Result, ok, raise}
use agentstrata.Storage.File.Fences.{
  acquire_fence as file_acquire_fence, current_fence as file_current_fence,
  release_fence as file_release_fence, renew_fence as file_renew_fence,
}
use agentstrata.Storage.File.Sessions.{
  create_session as file_create_session, get_session as file_get_session,
  mutate_session as file_mutate_session, truncate_session_events as file_truncate_session_events,
}
use agentstrata.Storage.File.State.{Answer, FileBackend, Host, crash, done, refuse}
use agentstrata.Storage.Memory.Fences.{
  acquire_fence as memory_acquire_fence, current_fence as memory_current_fence,
  release_fence as memory_release_fence, renew_fence as memory_renew_fence,
}
use agentstrata.Storage.Memory.Sessions.{
  create_session as memory_create_session, get_session as memory_get_session,
  mutate_session as memory_mutate_session,
  truncate_session_events as memory_truncate_session_events,
}
use agentstrata.Storage.Memory.State.{MemoryBackend}
use agentstrata.Storage.Model.{Fence, SessionKey, SessionRecord}

-- One call of a method of the contract, with its time.
pub data Request : Type 0 where
  create_request : String → String → Option String → String → Option (List Json) → ℕ → Request
  fetch_request : SessionKey → ℕ → Request
  mutate_request :
      SessionKey → ℕ → Option (List Json) → Option (Dict String ℕ) → Option Bool → ℕ → Request
  truncate_request : SessionKey → ℕ → ℕ → Request
  acquire_request : SessionKey → String → ℕ → ℕ → Request
  renew_request : SessionKey → String → ℕ → ℕ → Request
  release_request : SessionKey → String → ℕ → Request
  current_request : SessionKey → ℕ → Request

pub data Reply : Type 0 where
  session_reply : Answer SessionRecord → Reply
  lookup_reply : Answer (Option SessionRecord) → Reply
  unit_reply : Answer Unit → Reply
  fence_reply : Answer (Option Fence) → Reply
  flag_reply : Answer Bool → Reply

abbrev pub answer_of : {A : Type 0} → Result A → Answer A
answer_of (ok a) = done a
answer_of (raise e) = refuse e

unfoldable pub file_step : Host → Request → FileBackend → Reply × FileBackend
file_step host (create_request a p s fresh events now) b =
    let r = file_create_session host now a p s fresh events b in (session_reply r.0, r.1)
file_step host (fetch_request key now) b =
    let r = file_get_session host now key b in (lookup_reply r.0, r.1)
file_step host (mutate_request key revision events usage hist now) b =
    let r = file_mutate_session host now key revision events usage hist b in
    (session_reply r.0, r.1)
file_step host (truncate_request key revision now) b =
    let r = file_truncate_session_events host now key revision b in (unit_reply r.0, r.1)
file_step host (acquire_request key token ttl now) b =
    let r = file_acquire_fence host now key token ttl b in (fence_reply r.0, r.1)
file_step host (renew_request key token ttl now) b =
    let r = file_renew_fence host now key token ttl b in (flag_reply r.0, r.1)
file_step host (release_request key token now) b =
    let r = file_release_fence host now key token b in (flag_reply r.0, r.1)
file_step host (current_request key now) b =
    (fence_reply (done (file_current_fence host now key b)), b)

unfoldable pub memory_step : Request → MemoryBackend → Reply × MemoryBackend
memory_step (create_request a p s fresh events now) b =
    let r = memory_create_session a p s fresh events now b in (session_reply (answer_of r.0), r.1)
memory_step (fetch_request key now) b = (lookup_reply (done (memory_get_session key b)), b)
memory_step (mutate_request key revision events usage hist now) b =
    let r = memory_mutate_session key revision events usage hist now b in
    (session_reply (answer_of r.0), r.1)
memory_step (truncate_request key revision now) b =
    let r = memory_truncate_session_events key revision b in (unit_reply (answer_of r.0), r.1)
memory_step (acquire_request key token ttl now) b =
    let r = memory_acquire_fence key token ttl now b in (fence_reply (answer_of r.0), r.1)
memory_step (renew_request key token ttl now) b =
    let r = memory_renew_fence key token ttl now b in (flag_reply (answer_of r.0), r.1)
memory_step (release_request key token now) b =
    let r = memory_release_fence key token b in (flag_reply (answer_of r.0), r.1)
memory_step (current_request key now) b = (fence_reply (done (memory_current_fence key b)), b)

-- The replies to a sequence of requests, the first one first.
unfoldable pub file_replies : Host → List Request → FileBackend → List Reply
unfolding file_step
file_replies host [] b = []
file_replies host (q ∷ qs) b = let r = file_step host q b in r.0 ∷ file_replies host qs r.1

unfoldable pub memory_replies : List Request → MemoryBackend → List Reply
unfolding memory_step
memory_replies [] b = []
memory_replies (q ∷ qs) b = let r = memory_step q b in r.0 ∷ memory_replies qs r.1

-- A reply with the keys of its session record sorted: as Python's `==` sees a reply, which does
-- not compare the order of keys.
unfoldable pub sorted_answer : {A : Type 0} → (A → A) → Answer A → Answer A
sorted_answer f (done a) = done (f a)
sorted_answer f (refuse e) = refuse e
sorted_answer f crash = crash

unfoldable pub sorted_found : Option SessionRecord → Option SessionRecord
unfolding sorted_session
sorted_found none = none
sorted_found (some r) = some (sorted_session r)

unfoldable pub sorted_reply : Reply → Reply
unfolding sorted_answer sorted_found sorted_session
sorted_reply (session_reply a) = session_reply (sorted_answer sorted_session a)
sorted_reply (lookup_reply a) = lookup_reply (sorted_answer sorted_found a)
sorted_reply (unit_reply a) = unit_reply a
sorted_reply (fence_reply a) = fence_reply a
sorted_reply (flag_reply a) = flag_reply a
