-- ===== src/Protocol/Auth/Keys.antt =====
-- app/protocol/auth.py: who the API key mode lets in.
use agentstrata.Prelude.{
  Option, ap, arith, inl, inr, none, refl, some, sym, ◌++◌, ◌↔◌, ◌∙◌, ◌≡◌, ◌⊎◌,
}
use agentstrata.Protocol.Auth.{accepted, api_key_authenticate, bearer_of, check_key, same}
use agentstrata.Storage.Model.{codes}
use agentstrata.Text.{Text, text_discrete}

-- What the headers of a request carry is this key, and nothing else.
abbrev pub Carries : Option Text → Option Text → Text → Type 0
Carries bearer x_api_key key =
    ((bearer ≡ some key) × ((x_api_key ≡ none) ⊎ (x_api_key ≡ some key)))
    ⊎ ((bearer ≡ none) × (x_api_key ≡ some key))

check_key_sound :
    (sha256 : Text → Text) (expected bearer x_api_key : Option Text) (principal : Text)
    → check_key sha256 expected bearer x_api_key ≡ accepted principal
    → (key : Text) × (expected ≡ some key)
      × Carries bearer x_api_key key
      × (principal ≡ codes "apikey:" ++ sha256 key)
unfolding check_key same
check_key_sound sha256 none none none p h = absurd (ground arith)
check_key_sound sha256 none none (some x) p h = absurd (ground arith)
check_key_sound sha256 none (some y) none p h = absurd (ground arith)
check_key_sound sha256 none (some y) (some x) p h = absurd (ground arith)
check_key_sound sha256 (some k) none none p h = absurd (ground arith)
check_key_sound sha256 (some k) none (some x) p h = elim (text_discrete x k) [
  | yes q ↦ (k, refl, ground arith, ground arith)
  | no q ↦ absurd (ground arith)
]
check_key_sound sha256 (some k) (some y) none p h = elim (text_discrete y k) [
  | yes q ↦ (k, refl, ground arith, ground arith)
  | no q ↦ absurd (ground arith)
]
check_key_sound sha256 (some k) (some y) (some x) p h = elim (text_discrete y x) [
  | no q ↦ absurd (ground arith)
  | yes q ↦ elim (text_discrete y k) [
    | yes w ↦ (k, refl, ground arith, ground arith)
    | no w ↦ absurd (ground arith)
  ]
]

check_key_complete :
    (sha256 : Text → Text) (bearer x_api_key : Option Text) (key : Text)
    → Carries bearer x_api_key key
    → check_key sha256 (some key) bearer x_api_key ≡ accepted (codes "apikey:" ++ sha256 key)
unfolding check_key same
check_key_complete sha256 bearer x key (inl (b, inl e)) = rw (b, e) (ground arith)
check_key_complete sha256 bearer x key (inl (b, inr e)) = rw (b, e) (ground arith)
check_key_complete sha256 bearer x key (inr (b, e)) = rw (b, e) (ground arith)

-- The API key mode lets a request in exactly if its headers carry the configured key: as a bearer
-- token, as `X-API-Key`, or as both. An Authorization header that is no bearer token counts as
-- absent. The principal is then made of the digest of that key.
pub api_key_authenticate_iff :
    (lower sha256 : Text → Text) (expected : Option Text) (header : Text) (x_api_key : Option Text)
    (principal : Text)
    → (api_key_authenticate lower sha256 expected header x_api_key ≡ accepted principal) ↔ (
        (key : Text) × (expected ≡ some key)
        × Carries (bearer_of lower header) x_api_key key
        × (principal ≡ codes "apikey:" ++ sha256 key))
unfolding api_key_authenticate
api_key_authenticate_iff lower sha256 expected header x_api_key principal = (
  check_key_sound sha256 expected (bearer_of lower header) x_api_key principal,
  λ (key, e, carries, p).
      ap (λ x. check_key sha256 x (bearer_of lower header) x_api_key) e
      ∙ check_key_complete sha256 (bearer_of lower header) x_api_key key carries
      ∙ ap accepted (sym p),
)
