-- ===== src/RateLimit.antt =====
-- src/worker_harness/ratelimit.py: one token bucket per agent.
--
-- Times are ticks of the monotonic clock. Tokens are counted in parts such that a tick refills a whole
-- number of them, and `token` is the number of parts of one token; the float of the source is the
-- quotient. A bucket's lock makes each consumption one step.
pub mod Bounds
mod Examples
use worker_harness.Base.{
  ℕ, zero, suc, ◌+◌, ◌-◌, ◌*◌, ◌≤◌, String, Bool, true, false, Option, none, some, List, [], ◌∷◌,
  min, leb, strip, prefix, text_append, ◌==◌, string_eq, if◌then◌else◌,
}
use worker_harness.Dict.{Dict, get, put}

pub record TokenBucket : Type 0 where
  pub capacity : ℕ
  pub refill_rate : ℕ
  pub tokens : ℕ
  pub last_refill_at : ℕ

-- `TokenBucket.__init__`
unfoldable pub new_bucket : ℕ → ℕ → ℕ → TokenBucket
new_bucket capacity refill_rate now = record {
  capacity = capacity;
  refill_rate = refill_rate;
  tokens = capacity;
  last_refill_at = now;
}

unfoldable pub refill : ℕ → TokenBucket → TokenBucket
refill now b = record b {
  tokens = min b.capacity (b.tokens + (now - b.last_refill_at) * b.refill_rate);
  last_refill_at = now;
}

-- `some deficit` is a refusal; the source reports the seconds in which the deficit is refilled.
unfoldable pub try_consume : ℕ → ℕ → TokenBucket → Option ℕ × TokenBucket
unfolding refill
try_consume n now b =
    let r = refill now b in
    if leb n r.tokens then (none, record r { tokens = r.tokens - n }) else (some (n - r.tokens), r)

pub record AgentRateLimiter : Type 0 where
  pub capacity : ℕ
  pub refill_rate : ℕ
  pub token : ℕ
  pub buckets : Dict TokenBucket

-- `_get_or_create`, which stores a bucket that it has made.
unfoldable pub get_or_create : String → ℕ → AgentRateLimiter → TokenBucket
get_or_create agent now l = elim (get agent l.buckets) [
  | none ↦ new_bucket l.capacity l.refill_rate now
  | some b ↦ b
]

-- `check`: `some deficit` is the exception RateLimited.
unfoldable pub check : String → ℕ → AgentRateLimiter → Option ℕ × AgentRateLimiter
check agent now l =
    let (refused, bucket) = try_consume l.token now (get_or_create agent now l) in
    (refused, record l { buckets = put agent bucket l.buckets })

-- `headers.get("x-agent-name") or headers.get("X-Agent-Name")`: an empty text counts as none.
unfoldable pub header_or : Option String → Option String → Option String
header_or none b = b
header_or (some a) b = if a == "" then b else some a

unfoldable pub resolve_agent_name : Dict String → String → String
unfolding header_or
resolve_agent_name headers peer_ip =
    elim (header_or (get "x-agent-name" headers) (get "X-Agent-Name" headers)) [
      | none ↦ text_append "ip:" peer_ip
      | some name ↦ if name == "" then text_append "ip:" peer_ip else prefix 128 (strip name)
    ]
