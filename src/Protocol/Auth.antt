-- ===== src/Protocol/Auth.antt =====
-- app/protocol/auth.py: the API key and the JWT mode. Times are whole seconds of the monotonic
-- clock. Python's `str.lower`, the digest of hashlib and the verification of PyJWT are arguments,
-- and so are the answers of the identity provider and the configured key.
pub mod Keys
pub mod Tokens
use agentstrata.Json.{Fields, Json, end, field, str}
use agentstrata.Prelude.{
  Bool, List, Option, String, String_discrete, [], drop, false, if◌then◌else◌, ite, leb, length,
  none, not, some, str_eq, true, ℕ, ◌&&◌, ◌*◌, ◌++◌, ◌+◌, ◌-◌, ◌==◌, ◌∷◌,
}
use agentstrata.Prelude.Dict.{Dict, put}
use agentstrata.Storage.Model.{codes}
use agentstrata.Text.{Text, starts_with, text_discrete}

pub record AuthFailure : Type 0 where
  pub status : ℕ
  pub code : String
  pub message : String

pub data Outcome : Type 0 where
  accepted : Text → Outcome
  rejected : AuthFailure → Outcome

abbrev pub auth_error : String → AuthFailure
auth_error message = record { status = 401; code = "auth_error"; message = message }

abbrev pub unavailable : AuthFailure
unavailable = record {
  status = 503;
  code = "auth_unavailable";
  message = "identity provider unavailable";
}

-- header[7:] if header.lower().startswith("bearer ") else None
unfoldable pub bearer_of : (Text → Text) → Text → Option Text
unfolding starts_with codes
bearer_of lower header =
    if starts_with (lower header) (codes "bearer ") then some (drop 7 header) else none

-- hmac.compare_digest
unfoldable pub same : Text → Text → Bool
unfolding text_discrete
same a b = ite (text_discrete a b) true false

-- bearer is not None and x_api_key is not None and not …
unfoldable pub conflicting : Option Text → Option Text → Bool
unfolding same
conflicting (some bearer) (some x_api_key) = not (same bearer x_api_key)
conflicting _ _ = false

-- bearer if bearer is not None else x_api_key
unfoldable pub candidate_of : Option Text → Option Text → Option Text
candidate_of (some bearer) x_api_key = some bearer
candidate_of none x_api_key = x_api_key

-- expected is not None and …
unfoldable pub matches : Text → Option Text → Bool
unfolding same
matches candidate none = false
matches candidate (some expected) = same candidate expected

-- _ApiKeyAuth.authenticate, once the headers are read
unfoldable pub check_key : (Text → Text) → Option Text → Option Text → Option Text → Outcome
unfolding conflicting candidate_of matches codes
check_key sha256 expected bearer x_api_key =
    if conflicting bearer x_api_key
    then rejected (auth_error "conflicting credentials")
    else elim (candidate_of bearer x_api_key) [
      | none ↦ rejected (auth_error "missing API key")
      | some candidate ↦
          if matches candidate expected
          then accepted (codes "apikey:" ++ sha256 candidate)
          else rejected (auth_error "invalid API key")
    ]

unfoldable pub api_key_authenticate :
    (Text → Text) → (Text → Text) → Option Text → Text → Option Text → Outcome
unfolding bearer_of check_key
api_key_authenticate lower sha256 expected header x_api_key =
    check_key sha256 expected (bearer_of lower header) x_api_key

abbrev pub Jwks : Type 0
Jwks = Dict String Json

-- What `_refresh_jwks` gets: a failure, or the provider's keys with their ids; and the time of it.
abbrev pub Fetch : Type 0
Fetch = Option (List (String × Json)) × ℕ

pub record JwtAuth : Type 0 where
  pub issuer : Text
  pub principal_claim : String
  pub refresh_seconds : ℕ
  pub jwks : Jwks
  pub jwks_fetched_at : Option ℕ
  pub jwks_last_attempt : Option ℕ

-- {_kid_of(k): k for k in keys if _kid_of(k)}, added to a dict
unfoldable pub keys_of : List (String × Json) → Jwks → Jwks
unfolding String_discrete
keys_of [] d = d
keys_of ((kid, key) ∷ keys) d =
    if str_eq kid "" then keys_of keys d else keys_of keys (put String_discrete kid key d)

-- bool(self._jwks)
abbrev pub has_keys : Jwks → Bool
has_keys d = not (length d == 0)

-- _refresh_jwks
unfoldable pub refresh_jwks : Fetch → JwtAuth → Bool × JwtAuth
unfolding keys_of
refresh_jwks (none, now) a = (false, a)
refresh_jwks (some keys, now) a =
    let jwks = keys_of keys [] in
    (has_keys jwks, record a { jwks = jwks; jwks_fetched_at = some now })

-- The stale-key cutoff.
unfoldable pub is_stale : ℕ → JwtAuth → Bool
is_stale now a = elim a.jwks_fetched_at [
  | none ↦ false
  | some t ↦ has_keys a.jwks && leb (t + a.refresh_seconds * 3) now
]

-- due and not attempted
unfoldable pub wants_refresh : ℕ → JwtAuth → Bool
wants_refresh now a = elim a.jwks_fetched_at [
  | none ↦ false
  | some t ↦
      has_keys a.jwks
      && leb a.refresh_seconds (now - t)
      && elim a.jwks_last_attempt [ none ↦ true | some tried ↦ leb a.refresh_seconds (now - tried) ]
]

-- The refresh on the cadence.
unfoldable pub keep_cadence : ℕ → Fetch → JwtAuth → JwtAuth
unfolding wants_refresh refresh_jwks
keep_cadence now cadence a =
    if wants_refresh now a
    then (refresh_jwks cadence (record a { jwks_last_attempt = some now })).1
    else a

-- The value of a field of a payload, if it is a text that is not empty.
unfoldable pub claim_of : String → Fields → Option Text
unfolding codes
claim_of name end = none
claim_of name (field k (str s) fields) =
    if str_eq k name then (if str_eq s "" then none else some (codes s)) else claim_of name fields
claim_of name (field k _ fields) = if str_eq k name then none else claim_of name fields

-- The principal of a payload.
unfoldable pub principal_of : (Text → Text) → JwtAuth → Option Fields → Outcome
unfolding claim_of codes
principal_of sha256 a none = rejected (auth_error "invalid token")
principal_of sha256 a (some payload) = elim (claim_of a.principal_claim payload) [
  | none ↦ rejected (auth_error "missing principal claim")
  | some claim ↦
      accepted (codes "jwt:" ++ sha256 (a.issuer ++ 0 ∷ codes a.principal_claim ++ 0 ∷ claim))
]

-- The verification, and the refresh and second try after a failed one.
unfoldable pub verify_token :
    (Text → Jwks → Option Fields) → Text → Fetch → JwtAuth → Option Fields × JwtAuth
unfolding refresh_jwks
verify_token verify token retry a = elim (verify token a.jwks) [
  | some payload ↦ (some payload, a)
  | none ↦
      let (fresh, a') = refresh_jwks retry a in
      if fresh then (verify token a'.jwks, a') else (none, a')
]

-- A request: its header, its time, and what the identity provider answers if it is asked for the
-- first keys, on the cadence, and for another try.
pub record JwtRequest : Type 0 where
  pub authorization : Text
  pub now : ℕ
  pub first : Fetch
  pub cadence : Fetch
  pub retry : Fetch

-- not self._jwks and not await self._refresh_jwks()
unfoldable pub ensure_keys : Fetch → JwtAuth → Bool × JwtAuth
unfolding refresh_jwks
ensure_keys first a = if has_keys a.jwks then (true, a) else refresh_jwks first a

-- _JwtAuth.authenticate
unfoldable pub jwt_authenticate :
    (Text → Text)
    → (Text → Text)
    → (Text → Jwks → Option Fields)
    → JwtRequest
    → JwtAuth
    → Outcome × JwtAuth
unfolding bearer_of ensure_keys is_stale keep_cadence verify_token principal_of
jwt_authenticate lower sha256 verify r a = elim (bearer_of lower r.authorization) [
  | none ↦ (rejected (auth_error "missing bearer token"), a)
  | some token ↦
      let (ready, a1) = ensure_keys r.first a in
      let (payload, a2) = verify_token verify token r.retry (keep_cadence r.now r.cadence a1) in
      if not ready
      then (rejected unavailable, a1)
      else if is_stale r.now a1
      then (rejected unavailable, a1)
      else (principal_of sha256 a2 payload, a2)
]
