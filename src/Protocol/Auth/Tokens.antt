-- ===== src/Protocol/Auth/Tokens.antt =====
-- app/protocol/auth.py: what a token must be to be let in, and what happens once the keys of the
-- identity provider are stale.
use agentstrata.Json.{Fields}
use agentstrata.Prelude.{
  All, List, Option, Option-cases, [], arith, inl, inr, refl, some, true, ℕ, ◌*◌, ◌+◌, ◌∷◌, ◌≡◌,
  ◌≤◌,
}
use agentstrata.Protocol.Auth.{
  AuthFailure, Jwks, JwtAuth, JwtRequest, Outcome, auth_error, bearer_of, ensure_keys, has_keys,
  is_stale, jwt_authenticate, rejected, unavailable,
}
use agentstrata.Text.{Text}

module _ (lower sha256 : Text → Text) (verify : Text → Jwks → Option Fields) where
  -- The answers to a sequence of requests, and the state after them.
  unfoldable pub serve : List JwtRequest → JwtAuth → List Outcome × JwtAuth
  unfolding jwt_authenticate
  serve [] a = ([], a)
  serve (r ∷ rs) a =
      let (answer, a') = jwt_authenticate lower sha256 verify r a in
      let (answers, a'') = serve rs a' in (answer ∷ answers, a'')

  stale_rejected :
      (r : JwtRequest) (a : JwtAuth) (t : ℕ)
      → has_keys a.jwks ≡ true
      → a.jwks_fetched_at ≡ some t
      → t + a.refresh_seconds * 3 ≤ r.now
      → (f : AuthFailure) × (jwt_authenticate lower sha256 verify r a ≡ (rejected f, a))
  unfolding jwt_authenticate ensure_keys is_stale
  stale_rejected r a t keys fetched late = elim (Option-cases (bearer_of lower r.authorization)) [
    | inl e ↦ (auth_error "missing bearer token", rw (jwt_authenticate, e) refl)
    | inr (token, e) ↦ (unavailable, rw (jwt_authenticate, e, keys, fetched) (ground arith))
  ]

  abbrev pub AreRejected : List Outcome → Type 0
  AreRejected [] = Unit
  AreRejected (answer ∷ answers) = (f : AuthFailure) × (answer ≡ rejected f) × AreRejected answers

  -- Once the held keys are three refresh intervals old, every request from then on is rejected,
  -- however many come, whatever tokens they bear and whatever the identity provider would answer,
  -- and the held keys stay as they are: no request leads to a refresh any more.
  pub serve-stale :
      (rs : List JwtRequest) (a : JwtAuth) (t : ℕ)
      → has_keys a.jwks ≡ true
      → a.jwks_fetched_at ≡ some t
      → All (λ r. t + a.refresh_seconds * 3 ≤ r.now) rs
      → AreRejected (serve rs a).0 × ((serve rs a).1 ≡ a)
  unfolding serve
  serve-stale [] a t keys fetched late = (tt, refl)
  serve-stale (r ∷ rs) a t keys fetched (late, later) =
      let (f, e) = stale_rejected r a t keys fetched late in
      let (answers, kept) = serve-stale rs a t keys fetched later in
      rw (serve, e) ((f, refl, answers), kept)
