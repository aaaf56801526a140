-- ===== src/Storage/File/Refinement.antt =====
-- app/storage/file_backend.py against app/storage/memory.py: on sessions and fences, the two
-- backends keep the same contract.
pub mod Steps
pub mod Fences
pub mod Replies
use agentstrata.Json.{Json}
use agentstrata.Prelude.{
  Option, Option-cases, String, ap, false, if◌then◌else◌, inl, inr, none, refl, some, sym, true, ℕ,
  ◌∙◌, ◌≡◌, ◌≢◌,
}
use agentstrata.Prelude.Dict.{get, put}
use agentstrata.Prelude.Images.{put_image}
use agentstrata.Protocol.Auth.{same}
use agentstrata.Storage.Codec.{session_to_json}
use agentstrata.Storage.Codec.RoundTrip.{read_session-written, session_to_json-sorted}
use agentstrata.Storage.Codec.Sorting.{sorted_session}
use agentstrata.Storage.Contract.{backend_unavailable}
use agentstrata.Storage.File.Fences.{fence_key}
use agentstrata.Storage.File.Names.{safe_component, session_file}
use agentstrata.Storage.File.Paths.{safe_component-valid, session_file-injective}
use agentstrata.Storage.File.Requests.{
  Request, acquire_request, create_request, current_request, fetch_request, mutate_request,
  release_request, renew_request, sorted_found, truncate_request,
}
use agentstrata.Storage.File.Sessions.{read_session}
use agentstrata.Storage.File.State.{
  FileBackend, FilePath, Host, done, parse, path_discrete, read_record, refuse, require_ready,
  session_dir, session_path, tried,
}
use agentstrata.Storage.Memory.State.{MemoryBackend}
use agentstrata.Storage.Model.{SessionKey, SessionRecord, key_discrete, validate_session_id}

-- A host with the principals that it serves. Their SHA-256 digests are hexadecimal, which no
-- check of a path refuses, and do not collide.
pub record Site : Type 1 where
  pub host : Host
  pub IsServed : String → Type 0
  pub digest_safe : (p : String) → IsServed p → safe_component (host.digest p) ≡ true
  pub digest_injective :
      (p q : String) → IsServed p → IsServed q → host.digest p ≡ host.digest q → p ≡ q

-- How the state of the one stands for the state of the other.
module _ (site : Site) where
  -- A key that no method refuses.
  abbrev pub IsUsable : SessionKey → Type 0
  IsUsable key =
      (safe_component key.0 ≡ true) × site.IsServed key.1 × (validate_session_id key.2 ≡ true)

  abbrev pub path_of : SessionKey → FilePath
  path_of key = ((key.0, site.host.digest key.1), session_file key.2)

  -- What a session's file holds.
  abbrev pub stored : Option SessionRecord → Option (Option Json)
  stored none = none
  stored (some r) = some (some (session_to_json site.host.iso r))

  abbrev pub AgreesAt : FileBackend → MemoryBackend → SessionKey → Type 0
  AgreesAt f m key =
      (get path_discrete (path_of key) f.files ≡ stored (get key_discrete key m.sessions))
      × (get key_discrete (fence_key site.host key) f.fences ≡ get key_discrete key m.fences)
      × (get key_discrete (fence_key site.host key) f.fence_counters
          ≡ get key_discrete key m.fence_counters)

  abbrev pub Agrees : FileBackend → MemoryBackend → Type 0
  Agrees f m =
      (f.ready ≡ true) × (m.closed ≡ false) × ((key : SessionKey) → IsUsable key → AgreesAt f m key)

  -- The agent's name and the principal of a new session, or the key of another request.
  abbrev pub IsAdmissible : Request → Type 0
  IsAdmissible (create_request a p s fresh events now) = (safe_component a ≡ true) × site.IsServed p
  IsAdmissible (fetch_request key now) = IsUsable key
  IsAdmissible (mutate_request key revision events usage hist now) = IsUsable key
  IsAdmissible (truncate_request key revision now) = IsUsable key
  IsAdmissible (acquire_request key token ttl now) = IsUsable key
  IsAdmissible (renew_request key token ttl now) = IsUsable key
  IsAdmissible (release_request key token now) = IsUsable key
  IsAdmissible (current_request key now) = IsUsable key

  pub path_of-injective :
      (k j : SessionKey) → IsUsable k → IsUsable j → path_of k ≡ path_of j → k ≡ j
  path_of-injective k j u w h = λ i. (
    ap (λ p. p.0.0) h i,
    site.digest_injective k.1 j.1 u.1 w.1 (ap (λ p. p.0.1) h) i,
    session_file-injective k.2 j.2 u.2 w.2 (ap (λ p. p.1) h) i,
  )

  -- Different sessions have different files, if their agents' names are safe path components,
  -- their principals' digests do not collide and their ids are valid.
  pub path_of_ne : (k j : SessionKey) → IsUsable k → IsUsable j → k ≢ j → path_of k ≢ path_of j
  path_of_ne k j u w h e = h (path_of-injective k j u w e)

  pub fence_key-injective :
      (k j : SessionKey)
      → IsUsable k
      → IsUsable j
      → fence_key site.host k ≡ fence_key site.host j
      → k ≡ j
  unfolding fence_key
  fence_key-injective k j u w h = λ i. (
    ap (λ p. p.0) h i,
    site.digest_injective k.1 j.1 u.1 w.1 (ap (λ p. p.1) h) i,
    ap (λ p. p.2) h i,
  )

  pub session_path-served :
      (key : SessionKey) (f : FileBackend)
      → IsUsable key
      → session_path site.host key f ≡ (done (path_of key), f)
  unfolding session_path session_dir
  session_path-served key f u =
      rw (safe_component-valid key.2 u.2, u.0, site.digest_safe key.1 u.1) refl

  pub read_session-stored :
      (now : ℕ) (key : SessionKey) (f : FileBackend) (m : MemoryBackend)
      → AgreesAt f m key
      → read_session site.host now (path_of key) f
        ≡ (done (sorted_found (get key_discrete key m.sessions)), f)
  unfolding read_session read_record parse tried sorted_found
  read_session-stored now key f m h = elim (Option-cases (get key_discrete key m.sessions)) [
    | inl e ↦ rw (h.0, e) refl
    | inr (r, e) ↦ rw (h.0, e) (ap (λ x. (tried x, f)) (read_session-written site.host.iso now r))
  ]

  pub require_ready-served : (f : FileBackend) → f.ready ≡ true → require_ready f ≡ (done tt, f)
  unfolding require_ready
  require_ready-served f h = ap (λ c. if c then (done tt, f) else (refuse backend_unavailable, f)) h

  -- A write of two records that differ at most in the order of keys.
  pub write-Agrees :
      (key : SessionKey) (r q : SessionRecord) (f : FileBackend) (m : MemoryBackend)
      → IsUsable key
      → sorted_session q ≡ sorted_session r
      → Agrees f m
      → Agrees
          (record f {
            files =
                put path_discrete (path_of key) (some (session_to_json site.host.iso q)) f.files;
          })
          (record m { sessions = put key_discrete key r m.sessions })
  write-Agrees key r q f m u same h =
      let written : session_to_json site.host.iso q ≡ session_to_json site.host.iso r =
        sym (session_to_json-sorted site.host.iso q)
        ∙ ap (session_to_json site.host.iso) same
        ∙ session_to_json-sorted site.host.iso r in
      (
        h.0,
        h.1,
        λ j w. (
          put_image key_discrete path_discrete path_of stored key j r
              (some (session_to_json site.host.iso q)) f.files m.sessions
              (path_of-injective key j u w) (ap (λ x. some (some x)) written) (h.2 j w).0,
          (h.2 j w).1,
          (h.2 j w).2,
        ),
      )
