-- ===== src/Protocol/Examples.antt =====
-- app/protocol: tests, and the theorems at concrete requests.
use agentstrata.Json.{Fields, end, field, null, str}
use agentstrata.Prelude.{
  Option, String_discrete, [], arith, false, if◌then◌else◌, leb, map, max, min, none, refl, some,
  ◌&&◌, ◌++◌, ◌+◌, ◌-◌, ◌↔◌, ◌∷◌, ◌≡◌,
}
use agentstrata.Prelude.Dict.{get, put}
use agentstrata.Protocol.Auth.{
  Jwks, JwtAuth, JwtRequest, accepted, api_key_authenticate, bearer_of, jwt_authenticate,
}
use agentstrata.Protocol.Auth.Keys.{Carries, api_key_authenticate_iff}
use agentstrata.Protocol.Auth.Tokens.{AreRejected, serve, serve-stale}
use agentstrata.Protocol.RateLimit.{FixedWindowLimiter, allow}
use agentstrata.Protocol.RateLimit.Windows.{IsCounted, allowed, allowed-exact, requested, used}
use agentstrata.Storage.Model.{codes}
use agentstrata.Text.{Text}

abbrev busy : FixedWindowLimiter
busy = record { limit = 2; buckets = ("alice", (1, 2)) ∷ ("bob", (0, 1)) ∷ [] }

abbrev fresh : FixedWindowLimiter
fresh = record { limit = 2; buckets = [] }

fresh-IsCounted : IsCounted fresh
unfolding get
fresh-IsCounted = record { positive = λ key bucket count h. absurd (ground arith) }

test_refused : (allow "alice" 90 busy).0 ≡ (false, 30)
unfolding allow get
test_refused = refl

-- "Bearer k", "k", and `str.lower` on ASCII
abbrev bearer_header : Text
bearer_header = 66 ∷ 101 ∷ 97 ∷ 114 ∷ 101 ∷ 114 ∷ 32 ∷ 107 ∷ []

abbrev api_key : Text
api_key = 107 ∷ []

abbrev ascii_lower : Text → Text
ascii_lower text = map (λ c. if leb 65 c && leb c 90 then c + 32 else c) text

abbrev digest : Text → Text
digest text = 35 ∷ text

abbrev decode : Text → Jwks → Option Fields
decode token jwks = some (field "sub" (str "alice") end)

abbrev provider : JwtAuth
provider = record {
  issuer = api_key;
  principal_claim = "sub";
  refresh_seconds = 10;
  jwks = ("1", null) ∷ [];
  jwks_fetched_at = some 100;
  jwks_last_attempt = none;
}

abbrev late : JwtRequest
late = record {
  authorization = bearer_header;
  now = 130;
  first = (some (("2", null) ∷ []), 130);
  cadence = (some (("2", null) ∷ []), 130);
  retry = (some (("2", null) ∷ []), 130);
}

test_in_time :
    (jwt_authenticate ascii_lower digest decode (record late { now = 129 }) provider).1.jwks
    ≡ ("2", null) ∷ []
unfolding jwt_authenticate codes put String_discrete
test_in_time = refl

serve-stale_example :
    AreRejected ascii_lower digest decode
      (serve ascii_lower digest decode (late ∷ late ∷ []) provider).0
    × ((serve ascii_lower digest decode (late ∷ late ∷ []) provider).1 ≡ provider)
serve-stale_example =
    serve-stale ascii_lower digest decode (late ∷ late ∷ []) provider 100 refl refl
      (omega arith, (omega arith, tt))

allowed-exact_example :
    allowed "alice" (("alice", 60) ∷ ("bob", 61) ∷ ("alice", 70) ∷ ("alice", 119) ∷ []) fresh
    ≡ min
        (requested "alice" (("alice", 60) ∷ ("bob", 61) ∷ ("alice", 70) ∷ ("alice", 119) ∷ []))
        (max fresh.limit 1 - used "alice" 1 fresh)
allowed-exact_example =
    allowed-exact "alice" 1 (("alice", 60) ∷ ("bob", 61) ∷ ("alice", 70) ∷ ("alice", 119) ∷ [])
      fresh fresh-IsCounted (refl, (refl, (refl, (refl, tt))))

api_key_authenticate_iff_example :
    (api_key_authenticate ascii_lower digest (some api_key) bearer_header none
      ≡ accepted (digest api_key))
    ↔ ((key : Text) × ((some api_key) ≡ some key)
        × Carries (bearer_of ascii_lower bearer_header) none key
        × ((digest api_key) ≡ codes "apikey:" ++ digest key))
api_key_authenticate_iff_example =
    api_key_authenticate_iff ascii_lower digest (some api_key) bearer_header none (digest api_key)
