-- ===== src/RateLimit/Examples.antt =====
-- Runs of the limiter.
use worker_harness.Base.{ℕ, ◌+◌, ◌-◌, ◌*◌, ◌≤◌, ◌≡◌, refl, some, String, List, [], ◌∷◌, arith}
use worker_harness.Dict.{get}
use worker_harness.RateLimit.{AgentRateLimiter, TokenBucket, try_consume, refill}
use worker_harness.RateLimit.Bounds.{Inv, accepted, check_limits}

-- Ticks of a second and whole tokens, with the defaults of the program.
abbrev limiter : AgentRateLimiter
limiter = record { capacity = 50; refill_rate = 1; token = 1; buckets = [] }

abbrev requests : List (String × ℕ)
requests = ("pi", 3) ∷ ("cli", 3) ∷ ("pi", 8) ∷ []

limiter-Inv : Inv limiter 0
unfolding get
limiter-Inv agent b there = absurd (cc)

check_limits_example :
    accepted "pi" requests limiter * limiter.token
    ≤ limiter.capacity + (9 - 0) * limiter.refill_rate
check_limits_example =
    check_limits "pi" requests 0 9 limiter limiter-Inv
      (omega arith, (omega arith, (omega arith, omega arith)))

abbrev empty_bucket : TokenBucket
empty_bucket = record { capacity = 5; refill_rate = 1; tokens = 0; last_refill_at = 4 }

abbrev empty_later : TokenBucket
empty_later = record { capacity = 5; refill_rate = 1; tokens = 2; last_refill_at = 6 }

empty_refused : try_consume 3 6 empty_bucket ≡ (some 1, empty_later)
unfolding try_consume refill
empty_refused = refl
