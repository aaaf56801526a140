-- ===== src/Storage/File/Refinement/Replies.antt =====
-- app/storage/file_backend.py against app/storage/memory.py: sequences of requests.
use agentstrata.Prelude.{All, List, [], map, refl, ◌∷◌, ◌≡◌}
use agentstrata.Prelude.Dict.{get}
use agentstrata.Storage.Contract.{StorageSettings}
use agentstrata.Storage.File.Refinement.{Agrees, IsAdmissible, Site}
use agentstrata.Storage.File.Refinement.Fences.{
  acquire-Together, current-Together, release-Together, renew-Together,
}
use agentstrata.Storage.File.Refinement.Steps.{
  Together, create-Together, fetch-Together, mutate-Together, truncate-Together,
}
use agentstrata.Storage.File.Requests.{
  Request, acquire_request, create_request, current_request, fetch_request, file_replies, file_step,
  memory_replies, memory_step, mutate_request, release_request, renew_request, sorted_reply,
  truncate_request,
}
use agentstrata.Storage.File.State.{
  FileBackend, init as file_init, initialize as file_initialize, path_discrete,
}
use agentstrata.Storage.Memory.State.{MemoryBackend, init as memory_init}
use agentstrata.Storage.Model.{key_discrete}

module _ (site : Site) where
  -- One request that is served gets the same reply from both backends, and leaves them in
  -- states that still agree.
  pub step-Together :
      (q : Request) (f : FileBackend) (m : MemoryBackend)
      → IsAdmissible site q
      → Agrees site f m
      → Together site q f m
  step-Together (create_request a p s fresh events now) f m u h =
      create-Together site a p s fresh events now f m u.0 u.1 h
  step-Together (fetch_request key now) f m u h = fetch-Together site key now f m u h
  step-Together (mutate_request key revision events usage hist now) f m u h =
      mutate-Together site key revision events usage hist now f m u h
  step-Together (truncate_request key revision now) f m u h =
      truncate-Together site key revision now f m u h
  step-Together (acquire_request key token ttl now) f m u h =
      acquire-Together site key token ttl now f m u h
  step-Together (renew_request key token ttl now) f m u h =
      renew-Together site key token ttl now f m u h
  step-Together (release_request key token now) f m u h =
      release-Together site key token now f m u h
  step-Together (current_request key now) f m u h = current-Together site key now f m u h

  agreeing-replies :
      (qs : List Request) (f : FileBackend) (m : MemoryBackend)
      → All (IsAdmissible site) qs
      → Agrees site f m
      → map sorted_reply (file_replies site.host qs f) ≡ map sorted_reply (memory_replies qs m)
  unfolding file_replies memory_replies
  agreeing-replies [] f m u h = refl
  agreeing-replies (q ∷ qs) f m u h =
      let (same_reply, agree) = step-Together q f m u.0 h in
      λ i.
        same_reply i
        ∷ agreeing-replies qs (file_step site.host q f).1 (memory_step q m).1 u.1 agree i

  init-Agrees :
      (config : StorageSettings)
      → Agrees site (file_initialize (file_init config)).1 (memory_init config)
  unfolding file_init file_initialize memory_init get path_discrete key_discrete
  init-Agrees config = (refl, refl, λ key u. (refl, refl, refl))

  -- A new file backend that is initialized replies as a new memory backend does, up to the order
  -- of the keys in the usage and the events of a session record, to every sequence of session
  -- and fence requests (create, fetch, mutate, truncate; acquire, renew, release, current) whose agents, principals and session ids are served: the agent's name is a safe path
  -- component, the principal is one of those whose digests do not collide, and the session id,
  -- but that of a creation, is valid.
  pub file_replies-memory_replies :
      (config : StorageSettings) (qs : List Request)
      → All (IsAdmissible site) qs
      → map sorted_reply (file_replies site.host qs (file_initialize (file_init config)).1)
        ≡ map sorted_reply (memory_replies qs (memory_init config))
  file_replies-memory_replies config qs u =
      agreeing-replies qs (file_initialize (file_init config)).1 (memory_init config) u
        (init-Agrees config)
