-- ===== src/RateLimit/Bounds.antt =====
-- What the token buckets promise: how often an agent is let through, and when it is again.
use worker_harness.Base.{
  ℕ, zero, suc, ◌+◌, ◌-◌, ◌*◌, ◌≤◌, ◌≡◌, ◌≢◌, ◌↔◌, refl, sym, subst, ap, inl, inr, String, true,
  false, Option, none, some, List, [], ◌∷◌, arith, ◌==◌, string_eq, string_discrete, if◌then◌else◌,
  Option-cases,
}
use worker_harness.Dict.{get, put}
use worker_harness.Dict.Laws.{get-put, get-put-other}
use worker_harness.RateLimit.{
  TokenBucket, new_bucket, refill, try_consume, AgentRateLimiter, get_or_create, check,
}

-- Elapsed time adds up.
elapsed_add : (r a b c : ℕ) → a ≤ b → b ≤ c → (c - a) * r ≡ (b - a) * r + (c - b) * r
elapsed_add zero a b c h k = omega arith
elapsed_add (suc r) a b c h k = omega (arith, elapsed_add r a b c h k)

-- A bucket of the limiter at a time.
pub record IsBucket (capacity rate t : ℕ) (b : TokenBucket) : Type 0 where
  pub same_capacity : b.capacity ≡ capacity
  pub same_rate : b.refill_rate ≡ rate
  pub full_at_most : b.tokens ≤ capacity
  pub in_the_past : b.last_refill_at ≤ t

abbrev pub Inv : AgentRateLimiter → ℕ → Type 0
Inv l t =
    (agent : String) (b : TokenBucket)
    → get agent l.buckets ≡ some b
    → IsBucket l.capacity l.refill_rate t b

-- The requests come at times in order, between a first and a last one.
abbrev pub InOrder : ℕ → List (String × ℕ) → ℕ → Type 0
InOrder t [] e = t ≤ e
InOrder t ((agent, now) ∷ rest) e = (t ≤ now) × InOrder now rest e

abbrev pub passes : Option ℕ → ℕ
passes none = 1
passes (some deficit) = 0

-- How many requests of an agent are let through.
unfoldable pub accepted : String → List (String × ℕ) → AgentRateLimiter → ℕ
accepted agent [] l = 0
accepted agent ((a, now) ∷ rest) l =
    let (refused, after) = check a now l in
    let others = accepted agent rest after in if a == agent then passes refused + others else others

get_or_create-IsBucket :
    (agent : String) (t now : ℕ) (l : AgentRateLimiter)
    → Inv l t
    → t ≤ now
    → IsBucket l.capacity l.refill_rate now (get_or_create agent now l)
unfolding get_or_create new_bucket
get_or_create-IsBucket agent t now l inv later = elim (Option-cases (get agent l.buckets)) [
  | inl absent ↦
      rw (absent, get_or_create)
        (record {
          same_capacity = refl;
          same_rate = refl;
          full_at_most = omega arith;
          in_the_past = omega arith;
        })
  | inr (b, there) ↦
      let k = inv agent b there in
      rw (there, get_or_create)
        (record {
          same_capacity = k.same_capacity;
          same_rate = k.same_rate;
          full_at_most = k.full_at_most;
          in_the_past = omega (arith, k.in_the_past);
        })
]

try_consume-IsBucket :
    (capacity rate n now : ℕ) (b : TokenBucket)
    → IsBucket capacity rate now b
    → IsBucket capacity rate now (try_consume n now b).1
unfolding try_consume refill
try_consume-IsBucket capacity rate n now b k = record {
  same_capacity = ground (arith, k.same_capacity);
  same_rate = ground (arith, k.same_rate);
  full_at_most = ground (arith, k.same_capacity);
  in_the_past = ground arith;
}

check-Inv :
    (agent : String) (t now : ℕ) (l : AgentRateLimiter)
    → Inv l t
    → t ≤ now
    → Inv (check agent now l).1 now
unfolding check
check-Inv agent t now l inv later other b there =
    let next = (try_consume l.token now (get_or_create agent now l)).1 in
    elim (string_discrete agent other) [
      | yes same ↦
          let mine : next ≡ b = cc (
            get-put agent next l.buckets,
            subst (λ k. get k (put agent next l.buckets) ≡ some b) (sym same) there,
          ) in
          subst (IsBucket l.capacity l.refill_rate now) mine (
            try_consume-IsBucket l.capacity l.refill_rate l.token now (get_or_create agent now l)
              (get_or_create-IsBucket agent t now l inv later))
      | no ne ↦
          let k = inv other b (cc (get-put-other agent other next l.buckets ne, there)) in
          record {
            same_capacity = k.same_capacity;
            same_rate = k.same_rate;
            full_at_most = k.full_at_most;
            in_the_past = omega (arith, k.in_the_past);
          }
    ]

-- What a refill at a time leaves in the agent's bucket.
stock : String → ℕ → AgentRateLimiter → ℕ
stock agent t l = (refill t (get_or_create agent t l)).tokens

stock-grows :
    (agent : String) (t now : ℕ) (l : AgentRateLimiter)
    → Inv l t
    → t ≤ now
    → stock agent now l ≤ stock agent t l + (now - t) * l.refill_rate
unfolding stock get_or_create new_bucket refill
stock-grows agent t now l inv later = elim (Option-cases (get agent l.buckets)) [
  | inl absent ↦ ground (arith, absent)
  | inr (b, there) ↦
      let k = inv agent b there in
      let sum = elapsed_add l.refill_rate b.last_refill_at t now k.in_the_past later in
      ground (arith, there, k.same_capacity, k.same_rate, sum)
]

-- A consumption pays what it was asked for, if it passes.
consume_pays :
    (capacity rate n now : ℕ) (b : TokenBucket)
    → IsBucket capacity rate now b
    → (refill now (try_consume n now b).1).tokens + passes (try_consume n now b).0 * n
      ≤ (refill now b).tokens
unfolding try_consume refill
consume_pays capacity rate n now b k = ground (arith, k.same_capacity, k.full_at_most)

own_bucket :
    (agent : String) (now : ℕ) (l : AgentRateLimiter)
    → get_or_create agent now (check agent now l).1
      ≡ (try_consume l.token now (get_or_create agent now l)).1
unfolding check get_or_create
own_bucket agent now l =
    ground (arith, get-put agent (try_consume l.token now (get_or_create agent now l)).1 l.buckets)

other_bucket :
    (a agent : String) (now : ℕ) (l : AgentRateLimiter)
    → a ≢ agent
    → get_or_create agent now (check a now l).1 ≡ get_or_create agent now l
unfolding check get_or_create
other_bucket a agent now l ne =
    ground (
      arith,
      get-put-other a agent (try_consume l.token now (get_or_create a now l)).1 l.buckets ne,
    )

own_stock :
    (agent : String) (t now : ℕ) (l : AgentRateLimiter)
    → Inv l t
    → t ≤ now
    → stock agent now (check agent now l).1 + passes (check agent now l).0 * l.token
      ≤ stock agent now l
unfolding stock
own_stock agent t now l inv later =
    let b = get_or_create agent now l in
    let same = ap (λ c. (refill now c).tokens) (own_bucket agent now l) in
    let paid =
      consume_pays l.capacity l.refill_rate l.token now b
        (get_or_create-IsBucket agent t now l inv later) in
    let answer : (check agent now l).0 ≡ (try_consume l.token now b).0 = unfold check in refl in
    subst (λ r. stock agent now (check agent now l).1 + passes r * l.token ≤ stock agent now l)
      (sym answer)
      (subst (λ k. k + passes (try_consume l.token now b).0 * l.token ≤ stock agent now l)
        (sym same) paid)

other_stock :
    (a agent : String) (now : ℕ) (l : AgentRateLimiter)
    → a ≢ agent
    → stock agent now (check a now l).1 ≡ stock agent now l
unfolding stock
other_stock a agent now l ne = ap (λ c. (refill now c).tokens) (other_bucket a agent now l ne)

sum_mul : (p q n : ℕ) → (p + q) * n ≡ p * n + q * n
sum_mul zero q n = omega arith
sum_mul (suc p) q n = omega (arith, sum_mul p q n)

-- The requests of an agent that are let through, each with its token, are paid from what is in the
-- agent's bucket and what is refilled until the last of them.
accepted_bound :
    (agent : String) (requests : List (String × ℕ)) (t e : ℕ) (l : AgentRateLimiter)
    → Inv l t
    → InOrder t requests e
    → accepted agent requests l * l.token ≤ stock agent t l + (e - t) * l.refill_rate
unfolding accepted check stock
accepted_bound agent [] t e l inv order = omega arith
accepted_bound agent ((a, now) ∷ rest) t e l inv (later, order) =
    let after = (check a now l).1 in
    let others = accepted_bound agent rest now e after (check-Inv a t now l inv later) order in
    let grown = stock-grows agent t now l inv later in
    let sum = elapsed_add l.refill_rate t now e later (last rest now order) in
    elim (string_discrete a agent) [
      | yes same ↦
          let paid =
            subst
              (λ k.
                stock k now (check a now l).1 + passes (check a now l).0 * l.token ≤ stock k now l)
              same (own_stock a t now l inv later) in
          let hit : (a == agent) ≡ true = ground (arith, same) in
          rw hit (
            omega (
              arith,
              paid,
              others,
              grown,
              sum,
              sum_mul (passes (check a now l).0) (accepted agent rest after) l.token,
            ))
      | no ne ↦
          let kept = other_stock a agent now l ne in
          let miss : (a == agent) ≡ false = ground (arith, ne) in
          rw miss (omega (arith, kept, others, grown, sum))
    ]
  where
    last : (rs : List (String × ℕ)) (s : ℕ) → InOrder s rs e → s ≤ e
    last [] s h = h
    last ((_, u) ∷ rs) s h = omega (arith, h.0, last rs u h.1)

stock_at_most :
    (agent : String) (t : ℕ) (l : AgentRateLimiter) → Inv l t → stock agent t l ≤ l.capacity
unfolding stock refill
stock_at_most agent t l inv =
    let k = get_or_create-IsBucket agent t t l inv (omega arith) in ground (arith, k.same_capacity)

-- Whatever requests of whatever agents come between two times, one agent is let through at most as
-- often as its full bucket and the refill between the two times pay for.
pub check_limits :
    (agent : String) (requests : List (String × ℕ)) (t e : ℕ) (l : AgentRateLimiter)
    → Inv l t
    → InOrder t requests e
    → accepted agent requests l * l.token ≤ l.capacity + (e - t) * l.refill_rate
check_limits agent requests t e l inv order =
    omega (arith, accepted_bound agent requests t e l inv order, stock_at_most agent t l inv)

-- After a refusal, the same request passes at a later time exactly if the deficit that was reported
-- has been refilled by then, where the bucket can hold what is asked for.
pub try_consume_retry :
    (n now later deficit : ℕ) (b after : TokenBucket)
    → n ≤ b.capacity
    → now ≤ later
    → try_consume n now b ≡ (some deficit, after)
    → ((try_consume n later after).0 ≡ none) ↔ (deficit ≤ (later - now) * b.refill_rate)
unfolding try_consume refill
try_consume_retry n now later deficit b after fits order refused = ground (arith, refused)
