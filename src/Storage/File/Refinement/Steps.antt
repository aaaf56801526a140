-- ===== src/Storage/File/Refinement/Steps.antt =====
-- app/storage/file_backend.py against app/storage/memory.py: one request on both backends.
use agentstrata.Json.{Json}
use agentstrata.Prelude.{
  Bool, Bool-cases, List, Option, Option-cases, String, [], ap, false, get_or, if◌then◌else◌, inl,
  inr, leb, none, refl, some, true, ℕ, ◌==◌, ◌≡◌,
}
use agentstrata.Prelude.Dict.{Dict, get, put}
use agentstrata.Security.Audit.{safe}
use agentstrata.Storage.Codec.{session_to_json}
use agentstrata.Storage.Codec.Sorted.{mutated-sorted, sorted_session-twice, truncated-sorted}
use agentstrata.Storage.Codec.Sorting.{sorted_session}
use agentstrata.Storage.Contract.{
  backend_unavailable, invalid_session_id, ok, raise, revision_conflict, session_not_found,
}
use agentstrata.Storage.File.Names.{safe_component}
use agentstrata.Storage.File.Refinement.{
  Agrees, IsUsable, Site, path_of, read_session-stored, require_ready-served, session_path-served,
  write-Agrees,
}
use agentstrata.Storage.File.Requests.{
  Request, create_request, fetch_request, file_step, lookup_reply, memory_step, mutate_request,
  session_reply, sorted_found, sorted_reply, truncate_request,
}
use agentstrata.Storage.File.Sessions.{
  create_session as file_create_session, get_session as file_get_session,
  mutate_session as file_mutate_session, truncate_session_events as file_truncate_session_events,
  write_session,
}
use agentstrata.Storage.File.State.{FileBackend, done, path_discrete, refuse, session_dir, write}
use agentstrata.Storage.Memory.Sessions.{
  create_session as memory_create_session, get_session as memory_get_session, insert_session,
  mutate_session as memory_mutate_session, mutated, new_session,
  truncate_session_events as memory_truncate_session_events, truncated,
}
use agentstrata.Storage.Memory.State.{MemoryBackend}
use agentstrata.Storage.Model.{SessionKey, SessionRecord, key_discrete, validate_session_id}

sorted_found-twice : (o : Option SessionRecord) → sorted_found (sorted_found o) ≡ sorted_found o
unfolding sorted_found
sorted_found-twice none = refl
sorted_found-twice (some r) = ap some (sorted_session-twice r)

module _ (site : Site) where
  abbrev pub Together : Request → FileBackend → MemoryBackend → Type 0
  Together q f m =
      (sorted_reply (file_step site.host q f).0 ≡ sorted_reply (memory_step q m).0)
      × Agrees site (file_step site.host q f).1 (memory_step q m).1

  -- `create_session` on a valid id, by what the memory backend holds.
  create_found :
      (a p : String) (s : Option String) (fresh : String) (events : Option (List Json)) (now : ℕ)
      (f : FileBackend) (m : MemoryBackend)
      → IsUsable site (a, p, get_or s fresh)
      → Agrees site f m
      → file_create_session site.host now a p s fresh events f
        ≡ elim (get key_discrete (a, p, get_or s fresh) m.sessions) [
          | some r ↦ (done (sorted_session r), f)
          | none ↦
              let r = new_session (a, p, get_or s fresh) (get_or events []) now in
              (
                done r,
                record f {
                  files =
                      put path_discrete
                        (path_of site (a, p, get_or s fresh))
                        (some (session_to_json site.host.iso r))
                        f.files;
                },
              )
        ]
  unfolding file_create_session session_dir write_session write sorted_found
  create_found a p s fresh events now f m u h =
      let key : SessionKey = (a, p, get_or s fresh) in
      elim (Option-cases (get key_discrete key m.sessions)) [
        | inl e ↦
            rw
              (
                require_ready-served site f h.0,
                u.2,
                u.0,
                site.digest_safe p u.1,
                read_session-stored site now key f m (h.2 key u),
                e,
              )
              refl
        | inr (r, e) ↦
            rw
              (
                require_ready-served site f h.0,
                u.2,
                u.0,
                site.digest_safe p u.1,
                read_session-stored site now key f m (h.2 key u),
                e,
              )
              refl
      ]

  get_found :
      (key : SessionKey) (now : ℕ) (f : FileBackend) (m : MemoryBackend)
      → IsUsable site key
      → Agrees site f m
      → file_get_session site.host now key f
        ≡ (done (sorted_found (get key_discrete key m.sessions)), f)
  unfolding file_get_session
  get_found key now f m u h =
      rw
        (
          require_ready-served site f h.0,
          session_path-served site key f u,
          read_session-stored site now key f m (h.2 key u),
        )
        refl

  mutate_found :
      (key : SessionKey) (revision : ℕ) (events : Option (List Json))
      (usage : Option (Dict String ℕ)) (hist : Option Bool) (now : ℕ) (f : FileBackend)
      (m : MemoryBackend)
      → IsUsable site key
      → Agrees site f m
      → file_mutate_session site.host now key revision events usage hist f
        ≡ elim (get key_discrete key m.sessions) [
          | none ↦ (refuse session_not_found, f)
          | some r ↦
              if r.revision == revision
              then (
                done (mutated (sorted_session r) events usage hist now),
                record f {
                  files =
                      put path_discrete
                        (path_of site key)
                        (some (
                          session_to_json site.host.iso
                            (mutated (sorted_session r) events usage hist now)))
                        f.files;
                },
              )
              else (refuse revision_conflict, f)
        ]
  unfolding file_mutate_session write_session write sorted_found sorted_session
  mutate_found key revision events usage hist now f m u h =
      elim (Option-cases (get key_discrete key m.sessions)) [
        | inl e ↦
            rw
              (
                require_ready-served site f h.0,
                session_path-served site key f u,
                read_session-stored site now key f m (h.2 key u),
                e,
              )
              refl
        | inr (r, e) ↦ elim (Bool-cases (r.revision == revision)) [
          | inl q ↦
              rw
                (
                  require_ready-served site f h.0,
                  session_path-served site key f u,
                  read_session-stored site now key f m (h.2 key u),
                  e,
                  q,
                )
                refl
          | inr q ↦
              rw
                (
                  require_ready-served site f h.0,
                  session_path-served site key f u,
                  read_session-stored site now key f m (h.2 key u),
                  e,
                  q,
                )
                refl
        ]
      ]

  truncate_found :
      (key : SessionKey) (revision now : ℕ) (f : FileBackend) (m : MemoryBackend)
      → IsUsable site key
      → Agrees site f m
      → file_truncate_session_events site.host now key revision f
        ≡ elim (get key_discrete key m.sessions) [
          | none ↦ (done tt, f)
          | some r ↦ if leb r.revision revision then (done tt, f) else (
            done tt,
            record f {
              files =
                  put path_discrete
                    (path_of site key)
                    (some (session_to_json site.host.iso (truncated (sorted_session r) revision)))
                    f.files;
            },
          )
        ]
  unfolding file_truncate_session_events write_session write sorted_found sorted_session
  truncate_found key revision now f m u h = elim (Option-cases (get key_discrete key m.sessions)) [
    | inl e ↦
        rw (session_path-served site key f u, read_session-stored site now key f m (h.2 key u), e)
          refl
    | inr (r, e) ↦ elim (Bool-cases (leb r.revision revision)) [
      | inl q ↦
          rw
            (
              session_path-served site key f u,
              read_session-stored site now key f m (h.2 key u),
              e,
              q,
            )
            refl
      | inr q ↦
          rw
            (
              session_path-served site key f u,
              read_session-stored site now key f m (h.2 key u),
              e,
              q,
            )
            refl
    ]
  ]

  create_refused :
      (a p : String) (s : Option String) (fresh : String) (events : Option (List Json)) (now : ℕ)
      (f : FileBackend)
      → f.ready ≡ true
      → validate_session_id (get_or s fresh) ≡ false
      → file_create_session site.host now a p s fresh events f ≡ (refuse invalid_session_id, f)
  unfolding file_create_session
  create_refused a p s fresh events now f h v = rw (require_ready-served site f h, v) refl

  -- `create_session` of a memory backend that is not closed.
  create_open :
      (a p : String) (s : Option String) (fresh : String) (events : Option (List Json)) (now : ℕ)
      (m : MemoryBackend) (valid : Bool)
      → m.closed ≡ false
      → validate_session_id (get_or s fresh) ≡ valid
      → memory_create_session a p s fresh events now m ≡ (
          if valid
          then elim (get key_discrete (a, p, get_or s fresh) m.sessions) [
            | some r ↦ (ok r, m)
            | none ↦
                let r = new_session (a, p, get_or s fresh) (get_or events []) now in
                (ok r, record m { sessions = put key_discrete (a, p, get_or s fresh) r m.sessions })
          ]
          else (raise invalid_session_id, m))
  unfolding memory_create_session insert_session
  create_open a p s fresh events now m valid h v = λ i.
      if h i
      then (raise backend_unavailable, m)
      else if v i
      then insert_session (a, p, get_or s fresh) (get_or events []) now m
      else (raise invalid_session_id, m)

  pub create-Together :
      (a p : String) (s : Option String) (fresh : String) (events : Option (List Json)) (now : ℕ)
      (f : FileBackend) (m : MemoryBackend)
      → safe_component a ≡ true
      → site.IsServed p
      → Agrees site f m
      → Together (create_request a p s fresh events now) f m
  unfolding file_step memory_step sorted_reply
  create-Together a p s fresh events now f m safe k h =
      elim (Bool-cases (validate_session_id (get_or s fresh))) [
        | inl v ↦
            let key : SessionKey = (a, p, get_or s fresh) in
            let found = create_found a p s fresh events now f m (safe, k, v) h in
            let opened = create_open a p s fresh events now m true h.1 v in
            elim (Option-cases (get key_discrete key m.sessions)) [
              | inl e ↦
                  let r = new_session key (get_or events []) now in
                  rw (rw e at found, rw e at opened)
                    (refl, write-Agrees site key r r f m (safe, k, v) refl h)
              | inr (r, e) ↦
                  rw (rw e at found, rw e at opened)
                    (ap (λ q. session_reply (done q)) (sorted_session-twice r), h)
            ]
        | inr v ↦
            rw
              (
                create_refused a p s fresh events now f h.0 v,
                create_open a p s fresh events now m false h.1 v,
              )
              (refl, h)
      ]

  pub fetch-Together :
      (key : SessionKey) (now : ℕ) (f : FileBackend) (m : MemoryBackend)
      → IsUsable site key
      → Agrees site f m
      → Together (fetch_request key now) f m
  unfolding file_step memory_step memory_get_session sorted_reply sorted_found
  fetch-Together key now f m u h =
      rw (get_found key now f m u h)
        (ap (λ o. lookup_reply (done o)) (sorted_found-twice (get key_discrete key m.sessions)), h)

  truncate_open :
      (key : SessionKey) (revision : ℕ) (m : MemoryBackend)
      → memory_truncate_session_events key revision m ≡ elim (get key_discrete key m.sessions) [
        | none ↦ (ok tt, m)
        | some r ↦ if leb r.revision revision then (ok tt, m) else (
          ok tt,
          record m { sessions = put key_discrete key (truncated r revision) m.sessions },
        )
      ]
  unfolding memory_truncate_session_events
  truncate_open key revision m = refl

  pub truncate-Together :
      (key : SessionKey) (revision now : ℕ) (f : FileBackend) (m : MemoryBackend)
      → IsUsable site key
      → Agrees site f m
      → Together (truncate_request key revision now) f m
  unfolding file_step memory_step sorted_reply
  truncate-Together key revision now f m u h =
      let found = truncate_found key revision now f m u h in
      let opened = truncate_open key revision m in
      elim (Option-cases (get key_discrete key m.sessions)) [
        | inl e ↦ rw (rw e at found, rw e at opened) (refl, h)
        | inr (r, e) ↦ elim (Bool-cases (leb r.revision revision)) [
          | inl q ↦ rw (rw (e, q) at found, rw (e, q) at opened) (refl, h)
          | inr q ↦
              rw (rw (e, q) at found, rw (e, q) at opened)
                (
                  refl,
                  write-Agrees site key (truncated r revision)
                      (truncated (sorted_session r) revision) f m u (truncated-sorted r revision) h,
                )
        ]
      ]

  mutate_open :
      (key : SessionKey) (revision : ℕ) (events : Option (List Json))
      (usage : Option (Dict String ℕ)) (hist : Option Bool) (now : ℕ) (m : MemoryBackend)
      → memory_mutate_session key revision events usage hist now m
        ≡ elim (get key_discrete key m.sessions) [
          | none ↦ (raise session_not_found, m)
          | some r ↦
              if r.revision == revision
              then (
                ok (mutated r events usage hist now),
                record m {
                  sessions = put key_discrete key (mutated r events usage hist now) m.sessions;
                },
              )
              else (raise revision_conflict, m)
        ]
  unfolding memory_mutate_session
  mutate_open key revision events usage hist now m = refl

  pub mutate-Together :
      (key : SessionKey) (revision : ℕ) (events : Option (List Json))
      (usage : Option (Dict String ℕ)) (hist : Option Bool) (now : ℕ) (f : FileBackend)
      (m : MemoryBackend)
      → IsUsable site key
      → Agrees site f m
      → Together (mutate_request key revision events usage hist now) f m
  unfolding file_step memory_step sorted_reply
  mutate-Together key revision events usage hist now f m u h =
      let found = mutate_found key revision events usage hist now f m u h in
      let opened = mutate_open key revision events usage hist now m in
      elim (Option-cases (get key_discrete key m.sessions)) [
        | inl e ↦ rw (rw e at found, rw e at opened) (refl, h)
        | inr (r, e) ↦ elim (Bool-cases (r.revision == revision)) [
          | inl q ↦
              rw (rw (e, q) at found, rw (e, q) at opened)
                (
                  ap (λ q. session_reply (done q)) (mutated-sorted r events usage hist now),
                  write-Agrees site key (mutated r events usage hist now)
                      (mutated (sorted_session r) events usage hist now) f m u
                      (mutated-sorted r events usage hist now) h,
                )
          | inr q ↦ rw (rw (e, q) at found, rw (e, q) at opened) (refl, h)
        ]
      ]
