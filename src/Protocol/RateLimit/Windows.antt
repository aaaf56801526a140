-- ===== src/Protocol/RateLimit/Windows.antt =====
-- app/protocol/ratelimit.py: how many requests a window lets through.
use agentstrata.Prelude.{
  All, List, Option, Option-cases, String, String_discrete, [], arith, false, if◌then◌else◌, inl,
  inr, ite, ltb, max, min, none, not, some, true, ℕ, ◌%◌, ◌+◌, ◌-◌, ◌/◌, ◌==◌, ◌∷◌, ◌≡◌, ◌≢◌, ◌≤◌,
}
use agentstrata.Prelude.Dict.{get, get-put, get-put_ne, get-put_self}
use agentstrata.Prelude.Keys.{IsDict, get-keep_if_value}
use agentstrata.Protocol.RateLimit.{FixedWindowLimiter, allow, prune}

-- How many requests the key has made in the minute, as the limiter counts them.
abbrev pub count_in : ℕ → Option (ℕ × ℕ) → ℕ
count_in minute none = 0
count_in minute (some (bucket, count)) = if bucket == minute then count else 0

pub used : String → ℕ → FixedWindowLimiter → ℕ
used key minute l = count_in minute (get String_discrete key l.buckets)

-- An entry counts one request at least.
pub record IsCounted (l : FixedWindowLimiter) : Type 0 where
  pub positive :
      (key : String) (bucket count : ℕ)
      → get String_discrete key l.buckets ≡ some (bucket, count)
      → 1 ≤ count

allow-used :
    (key : String) (now : ℕ) (l : FixedWindowLimiter)
    → IsCounted l
    → ((allow key now l).0.0 ≡ ltb (used key (now / 60) l) (max l.limit 1))
      × (used key (now / 60) (allow key now l).1
          ≡ (if (allow key now l).0.0 then 1 else 0) + used key (now / 60) l)
      × ((allow key now l).1.limit ≡ l.limit)
unfolding allow used
allow-used key now l c = elim (Option-cases (get String_discrete key l.buckets)) [
  | inl e ↦ ground (arith, get-put_self String_discrete key (now / 60, 1) l.buckets)
  | inr ((bucket, count), e) ↦ ground (
    arith,
    c.positive key bucket count e,
    get-put_self String_discrete key (now / 60, 1) l.buckets,
    get-put_self String_discrete key (now / 60, count + 1) l.buckets,
  )
]

allow-other :
    (key other : String) (now minute : ℕ) (l : FixedWindowLimiter)
    → key ≢ other
    → used other minute (allow key now l).1 ≡ used other minute l
unfolding allow used
allow-other key other now minute l ne = elim (Option-cases (get String_discrete key l.buckets)) [
  | inl e ↦ ground (arith, get-put_ne String_discrete key other (now / 60, 1) l.buckets ne)
  | inr ((bucket, count), e) ↦ ground (
    arith,
    get-put_ne String_discrete key other (now / 60, 1) l.buckets ne,
    get-put_ne String_discrete key other (now / 60, count + 1) l.buckets ne,
  )
]

allow-IsCounted :
    (key : String) (now : ℕ) (l : FixedWindowLimiter) → IsCounted l → IsCounted (allow key now l).1
unfolding allow
allow-IsCounted key now l c = record {
  positive = λ j b n e. elim (Option-cases (get String_discrete key l.buckets)) [
    | inl f ↦
        ground (arith, c.positive j b n, get-put String_discrete key j (now / 60, 1) l.buckets)
    | inr ((bucket, count), f) ↦ ground (
      arith,
      c.positive j b n,
      get-put String_discrete key j (now / 60, 1) l.buckets,
      get-put String_discrete key j (now / 60, count + 1) l.buckets,
    )
  ];
}

-- A sequence of requests, each with its key and its time; how many of a key are let through.
unfoldable pub allowed : String → List (String × ℕ) → FixedWindowLimiter → ℕ
unfolding allow String_discrete
allowed key [] l = 0
allowed key ((k, now) ∷ requests) l =
    ite (String_discrete k key) (if (allow k now l).0.0 then 1 else 0) 0
    + allowed key requests (allow k now l).1

-- How many of the requests are the key's.
unfoldable pub requested : String → List (String × ℕ) → ℕ
unfolding String_discrete
requested key [] = 0
requested key ((k, now) ∷ requests) = ite (String_discrete k key) 1 0 + requested key requests

-- In a limiter whose stored counts are at least 1: of the requests that come in one minute,
-- whatever other keys do meanwhile, a key gets through exactly as many as it makes, up to what
-- its limit, or 1 if the limit is 0, leaves of the minute.
pub allowed-exact :
    (key : String) (minute : ℕ) (requests : List (String × ℕ)) (l : FixedWindowLimiter)
    → IsCounted l
    → All (λ r. r.1 / 60 ≡ minute) requests
    → allowed key requests l ≡ min (requested key requests) (max l.limit 1 - used key minute l)
unfolding allowed requested
allowed-exact key minute [] l c h = omega arith
allowed-exact key minute ((k, now) ∷ requests) l c h =
    let l' = (allow k now l).1 in
    let ih = allowed-exact key minute requests l' (allow-IsCounted k now l c) h.1 in
    let (test, grown, same) = allow-used k now l c in
    elim (String_discrete k key) [
      | yes p ↦ ground (arith, h.0)
      | no p ↦ ground (arith, allow-other k key now minute l p)
    ]

-- A refused request is told to wait for 1 to 60 seconds, and it is let through then if nothing
-- else asked in between. A refusal changes nothing.
pub refused-retry :
    (key : String) (now : ℕ) (l : FixedWindowLimiter)
    → (allow key now l).0.0 ≡ false
    → (1 ≤ (allow key now l).0.1)
      × ((allow key now l).0.1 ≤ 60)
      × ((allow key now l).1 ≡ l)
      × ((allow key (now + (allow key now l).0.1) l).0 ≡ (true, 0))
unfolding allow
refused-retry key now l refused = elim (Option-cases (get String_discrete key l.buckets)) [
  | inl e ↦ absurd (ground arith)
  | inr ((bucket, count), e) ↦
      let later : (now + (60 - now % 60)) / 60 ≡ now / 60 + 1 = omega arith in
      let same : bucket ≡ now / 60 = ground arith in ground (arith, later, same)
]

-- What requests of one key do to the limiter is not seen by another key.
pub allow-independent :
    (key other : String) (now now' : ℕ) (l : FixedWindowLimiter)
    → key ≢ other
    → (allow other now' (allow key now l).1).0 ≡ (allow other now' l).0
unfolding allow
allow-independent key other now now' l ne =
    elim (Option-cases (get String_discrete key l.buckets)) [
      | inl e ↦ ground (arith, get-put_ne String_discrete key other (now / 60, 1) l.buckets ne)
      | inr ((bucket, count), e) ↦ ground (
        arith,
        get-put_ne String_discrete key other (now / 60, 1) l.buckets ne,
        get-put_ne String_discrete key other (now / 60, count + 1) l.buckets ne,
      )
    ]

-- In a limiter that holds each key once, pruning is not seen by any request that comes at that
-- time or later: each is answered as without it.
pub allow-prune :
    (key : String) (now later : ℕ) (l : FixedWindowLimiter)
    → IsDict String_discrete l.buckets
    → now ≤ later
    → (allow key later (prune now l)).0 ≡ (allow key later l).0
unfolding allow prune
allow-prune key now later l d h =
    let order : now / 60 ≤ later / 60 = omega arith in
    elim (Option-cases (get String_discrete key l.buckets)) [
      | inl e ↦ ground (
        arith,
        get-keep_if_value String_discrete (λ (e : String × (ℕ × ℕ)). not (ltb e.1.0 (now / 60))) key
            l.buckets d,
      )
      | inr ((bucket, count), e) ↦ ground (
        arith,
        order,
        get-keep_if_value String_discrete (λ (e : String × (ℕ × ℕ)). not (ltb e.1.0 (now / 60))) key
            l.buckets d,
      )
    ]
