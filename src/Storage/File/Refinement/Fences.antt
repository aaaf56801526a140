-- ===== src/Storage/File/Refinement/Fences.antt =====
-- app/storage/file_backend.py against app/storage/memory.py: the requests on fences.
use agentstrata.Prelude.{
  Bool-cases, Option-cases, String, ap, false, get_or, if◌then◌else◌, inl, inr, none, refl, some,
  str_eq, true, ℕ, ◌+◌, ◌≡◌,
}
use agentstrata.Prelude.Dict.{get, pop, put}
use agentstrata.Prelude.Images.{pop_image, put_image}
use agentstrata.Storage.Contract.{ok}
use agentstrata.Storage.File.Fences.{
  acquire_fence as file_acquire_fence, current_fence as file_current_fence, fence_key,
  release_fence as file_release_fence, renew_fence as file_renew_fence,
}
use agentstrata.Storage.File.Refinement.{Agrees, IsUsable, Site, fence_key-injective}
use agentstrata.Storage.File.Refinement.Steps.{Together}
use agentstrata.Storage.File.Requests.{
  acquire_request, current_request, fence_reply, file_step, memory_step, release_request,
  renew_request, sorted_reply,
}
use agentstrata.Storage.File.State.{FileBackend, done}
use agentstrata.Storage.Memory.Fences.{
  acquire_fence as memory_acquire_fence, current_fence as memory_current_fence, held,
  release_fence as memory_release_fence, renew_fence as memory_renew_fence,
}
use agentstrata.Storage.Memory.State.{MemoryBackend}
use agentstrata.Storage.Model.{Fence, SessionKey, key_discrete}

module _ (site : Site) where
  -- A fence is written with its number, or only the fence.
  acquire-Agrees :
      (key : SessionKey) (fence : Fence) (number : ℕ) (f : FileBackend) (m : MemoryBackend)
      → IsUsable site key
      → Agrees site f m
      → Agrees site
          (record f {
            fence_counters = put key_discrete (fence_key site.host key) number f.fence_counters;
            fences = put key_discrete (fence_key site.host key) fence f.fences;
          })
          (record m {
            fence_counters = put key_discrete key number m.fence_counters;
            fences = put key_discrete key fence m.fences;
          })
  acquire-Agrees key fence number f m u h = (
    h.0,
    h.1,
    λ j w. (
      (h.2 j w).0,
      put_image key_discrete key_discrete (fence_key site.host) (λ o. o) key j fence fence f.fences
          m.fences (fence_key-injective site key j u w) refl (h.2 j w).1,
      put_image key_discrete key_discrete (fence_key site.host) (λ o. o) key j number number
          f.fence_counters m.fence_counters (fence_key-injective site key j u w) refl (h.2 j w).2,
    ),
  )

  renew-Agrees :
      (key : SessionKey) (fence : Fence) (f : FileBackend) (m : MemoryBackend)
      → IsUsable site key
      → Agrees site f m
      → Agrees site
          (record f { fences = put key_discrete (fence_key site.host key) fence f.fences })
          (record m { fences = put key_discrete key fence m.fences })
  renew-Agrees key fence f m u h = (
    h.0,
    h.1,
    λ j w. (
      (h.2 j w).0,
      put_image key_discrete key_discrete (fence_key site.host) (λ o. o) key j fence fence f.fences
          m.fences (fence_key-injective site key j u w) refl (h.2 j w).1,
      (h.2 j w).2,
    ),
  )

  release-Agrees :
      (key : SessionKey) (f : FileBackend) (m : MemoryBackend)
      → IsUsable site key
      → Agrees site f m
      → Agrees site
          (record f { fences = pop key_discrete (fence_key site.host key) f.fences })
          (record m { fences = pop key_discrete key m.fences })
  release-Agrees key f m u h = (
    h.0,
    h.1,
    λ j w. (
      (h.2 j w).0,
      pop_image key_discrete key_discrete (fence_key site.host) (λ o. o) key j f.fences m.fences
          (fence_key-injective site key j u w) refl (h.2 j w).1,
      (h.2 j w).2,
    ),
  )

  pub acquire-Together :
      (key : SessionKey) (token : String) (ttl now : ℕ) (f : FileBackend) (m : MemoryBackend)
      → IsUsable site key
      → Agrees site f m
      → Together site (acquire_request key token ttl now) f m
  unfolding file_step memory_step sorted_reply file_acquire_fence memory_acquire_fence
  acquire-Together key token ttl now f m u h =
      let here = h.2 key u in
      let number = get_or (get key_discrete key m.fence_counters) 0 + 1 in
      elim (Bool-cases (held (get key_discrete key m.fences) now)) [
        | inl e ↦ rw (here.1, here.2, e) (refl, h)
        | inr e ↦
            rw (here.1, here.2, e)
              (
                refl,
                acquire-Agrees key
                    (record {
                      token = token;
                      fencing_number = number;
                      expires_at = some (now + ttl);
                    })
                    number f m u h,
              )
      ]

  renew_found :
      (key : SessionKey) (token : String) (ttl now : ℕ) (f : FileBackend) (m : MemoryBackend)
      → IsUsable site key
      → Agrees site f m
      → file_renew_fence site.host now key token ttl f ≡ elim (get key_discrete key m.fences) [
        | none ↦ (done false, f)
        | some r ↦
            if str_eq r.token token
            then (
              done true,
              record f {
                fences =
                    put key_discrete
                      (fence_key site.host key)
                      (record r { expires_at = some (now + ttl) })
                      f.fences;
              },
            )
            else (done false, f)
      ]
  unfolding file_renew_fence
  renew_found key token ttl now f m u h = λ i. elim ((h.2 key u).1 i) [
    | none ↦ (done false, f)
    | some r ↦
        if str_eq r.token token
        then (
          done true,
          record f {
            fences =
                put key_discrete (fence_key site.host key)
                  (record r { expires_at = some (now + ttl) }) f.fences;
          },
        )
        else (done false, f)
  ]

  renew_open :
      (key : SessionKey) (token : String) (ttl now : ℕ) (m : MemoryBackend)
      → memory_renew_fence key token ttl now m ≡ elim (get key_discrete key m.fences) [
        | none ↦ (ok false, m)
        | some r ↦
            if str_eq r.token token
            then (
              ok true,
              record m {
                fences = put key_discrete key (record r { expires_at = some (now + ttl) }) m.fences;
              },
            )
            else (ok false, m)
      ]
  unfolding memory_renew_fence
  renew_open key token ttl now m = refl

  pub renew-Together :
      (key : SessionKey) (token : String) (ttl now : ℕ) (f : FileBackend) (m : MemoryBackend)
      → IsUsable site key
      → Agrees site f m
      → Together site (renew_request key token ttl now) f m
  unfolding file_step memory_step sorted_reply
  renew-Together key token ttl now f m u h =
      let found = renew_found key token ttl now f m u h in
      let opened = renew_open key token ttl now m in
      elim (Option-cases (get key_discrete key m.fences)) [
        | inl e ↦ rw (rw e at found, rw e at opened) (refl, h)
        | inr (r, e) ↦ elim (Bool-cases (str_eq r.token token)) [
          | inl q ↦
              rw (rw (e, q) at found, rw (e, q) at opened)
                (refl, renew-Agrees key (record r { expires_at = some (now + ttl) }) f m u h)
          | inr q ↦ rw (rw (e, q) at found, rw (e, q) at opened) (refl, h)
        ]
      ]

  release_found :
      (key : SessionKey) (token : String) (now : ℕ) (f : FileBackend) (m : MemoryBackend)
      → IsUsable site key
      → Agrees site f m
      → file_release_fence site.host now key token f ≡ elim (get key_discrete key m.fences) [
        | none ↦ (done false, f)
        | some r ↦
            if str_eq r.token token
            then (
              done true,
              record f { fences = pop key_discrete (fence_key site.host key) f.fences },
            )
            else (done false, f)
      ]
  unfolding file_release_fence
  release_found key token now f m u h = λ i. elim ((h.2 key u).1 i) [
    | none ↦ (done false, f)
    | some r ↦
        if str_eq r.token token
        then (done true, record f { fences = pop key_discrete (fence_key site.host key) f.fences })
        else (done false, f)
  ]

  release_open :
      (key : SessionKey) (token : String) (now : ℕ) (m : MemoryBackend)
      → memory_release_fence key token m ≡ elim (get key_discrete key m.fences) [
        | none ↦ (ok false, m)
        | some r ↦
            if str_eq r.token token
            then (ok true, record m { fences = pop key_discrete key m.fences })
            else (ok false, m)
      ]
  unfolding memory_release_fence
  release_open key token now m = refl

  pub release-Together :
      (key : SessionKey) (token : String) (now : ℕ) (f : FileBackend) (m : MemoryBackend)
      → IsUsable site key
      → Agrees site f m
      → Together site (release_request key token now) f m
  unfolding file_step memory_step sorted_reply
  release-Together key token now f m u h =
      let found = release_found key token now f m u h in
      let opened = release_open key token now m in
      elim (Option-cases (get key_discrete key m.fences)) [
        | inl e ↦ rw (rw e at found, rw e at opened) (refl, h)
        | inr (r, e) ↦ elim (Bool-cases (str_eq r.token token)) [
          | inl q ↦ rw (rw (e, q) at found, rw (e, q) at opened) (refl, release-Agrees key f m u h)
          | inr q ↦ rw (rw (e, q) at found, rw (e, q) at opened) (refl, h)
        ]
      ]

  pub current-Together :
      (key : SessionKey) (now : ℕ) (f : FileBackend) (m : MemoryBackend)
      → IsUsable site key
      → Agrees site f m
      → Together site (current_request key now) f m
  unfolding file_step memory_step sorted_reply file_current_fence memory_current_fence
  current-Together key now f m u h = (ap (λ o. fence_reply (done o)) (h.2 key u).1, h)
