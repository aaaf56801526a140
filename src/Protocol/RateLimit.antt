-- ===== src/Protocol/RateLimit.antt =====
-- app/protocol/ratelimit.py: a fixed one-minute window for each key. Times are whole seconds, the
-- `floor` of the clock.
pub mod Windows
use agentstrata.Prelude.{
  Bool, Option, String, String_discrete, false, if◌then◌else◌, keep_if, leb, ltb, max, none, not,
  some, true, ℕ, ◌%◌, ◌+◌, ◌-◌, ◌/◌, ◌==◌,
}
use agentstrata.Prelude.Dict.{Dict, get, put}

pub record FixedWindowLimiter : Type 0 where
  pub limit : ℕ
  pub buckets : Dict String (ℕ × ℕ)

-- The end of `allow`, with the key's entry at hand.
unfoldable pub admit :
    String → ℕ → Option (ℕ × ℕ) → FixedWindowLimiter → (Bool × ℕ) × FixedWindowLimiter
unfolding String_discrete
admit key current none l =
    ((true, 0), record l { buckets = put String_discrete key (current / 60, 1) l.buckets })
admit key current (some (bucket, count)) l =
    if bucket == current / 60
    then (if leb l.limit count then ((false, 60 - current % 60), l) else (
      (true, 0),
      record l { buckets = put String_discrete key (current / 60, count + 1) l.buckets },
    ))
    else ((true, 0), record l { buckets = put String_discrete key (current / 60, 1) l.buckets })

-- Whether the request is allowed, and after how many seconds to retry.
unfoldable pub allow : String → ℕ → FixedWindowLimiter → (Bool × ℕ) × FixedWindowLimiter
unfolding admit String_discrete
allow key now l = admit key now (get String_discrete key l.buckets) l

unfoldable pub set_requests_per_minute : ℕ → FixedWindowLimiter → FixedWindowLimiter
set_requests_per_minute rpm l = record l { limit = max rpm 1 }

unfoldable pub prune : ℕ → FixedWindowLimiter → FixedWindowLimiter
unfolding keep_if
prune now l = record l {
  buckets = keep_if (λ (e : String × (ℕ × ℕ)). not (ltb e.1.0 (now / 60))) l.buckets;
}
