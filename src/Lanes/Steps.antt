-- ===== src/Lanes/Steps.antt =====
-- Every interleaving of the calls of one lane, as a relation: lanes.py's handlers in any order that
-- asyncio allows. A handler runs under `state.lock`, so each is one step.
use worker_harness.Base.{ℕ, ◌+◌, ◌≤◌, ◌<◌, ◌≡◌, refl, ◌∙◌, length, arith}
use worker_harness.Lanes.{
  finished, Lane, new_lane, future_of, enter, granted, timed_out, abandon_waiter, leave, shutdown,
  release_locked,
}
use worker_harness.Lanes.Calls.{count_finished}
use worker_harness.Lanes.Invariant.{
  Inv, new_lane-Inv, enter-Inv, granted-Inv, timed_out-Inv, abandon_waiter-Inv, leave-Inv,
  shutdown-Inv,
}

pub data Step : Lane → Lane → Type 0 where
  enters : (s : Lane) → Step s (enter s).0
  -- The loop resumes a call once its future has its result.
  wakes : (s : Lane) (w : ℕ) → future_of w s.calls ≡ finished → Step s (granted w s)
  -- A timer or a cancellation may win against a hand-over that has already been made.
  times_out : (s : Lane) (w : ℕ) → Step s (timed_out w s)
  is_cancelled : (s : Lane) (w : ℕ) → Step s (abandon_waiter w s)
  leaves : (s : Lane) → 0 < s.running → Step s (leave s)
  shuts_down : (s : Lane) → Step s (shutdown s)

pub data Reach (k q : ℕ) : Lane → Type 0 where
  start : Reach k q (new_lane k q)
  next : {s t : Lane} → Reach k q s → Step s t → Reach k q t

Step-Inv : {k : ℕ} {s t : Lane} → Step s t → Inv k s → Inv k t
Step-Inv (enters s) v = enter-Inv v
Step-Inv (wakes s w h) v = granted-Inv v w h
Step-Inv (times_out s w) v = timed_out-Inv v w
Step-Inv (is_cancelled s w) v = abandon_waiter-Inv v w
Step-Inv (leaves s h) v = leave-Inv v h
Step-Inv (shuts_down s) v = shutdown-Inv v

-- Whatever the interleaving of arrivals, wake-ups, timeouts, cancellations, releases and a
-- shutdown, a lane with `k` slots satisfies its invariant: each slot is free or owned by exactly
-- one call, the deque holds the waiting calls in their order of arrival and at most `max_queue` of
-- them, and nobody waits while a slot is free.
pub Reach-Inv : {k q : ℕ} {s : Lane} → Reach k q s → Inv k s
Reach-Inv {k} {q} start = new_lane-Inv k q
Reach-Inv (next r st) = Step-Inv st (Reach-Inv r)

Step-max_queue : {s t : Lane} → Step s t → t.max_queue ≡ s.max_queue
unfolding enter granted timed_out abandon_waiter leave release_locked shutdown
Step-max_queue (enters s) = ground arith
Step-max_queue (wakes s w h) = refl
Step-max_queue (times_out s w) = ground arith
Step-max_queue (is_cancelled s w) = ground arith
Step-max_queue (leaves s h) = ground arith
Step-max_queue (shuts_down s) = refl

Reach-max_queue : {k q : ℕ} {s : Lane} → Reach k q s → s.max_queue ≡ q
unfolding new_lane
Reach-max_queue start = refl
Reach-max_queue (next r st) = Step-max_queue st ∙ Reach-max_queue r

-- In every reachable state at most `max_concurrent` SSH round trips run at once, at most `max_queue`
-- calls wait in the deque, and the slots that are not free are exactly those of the calls that run
-- or have been granted one.
pub Reach-bounded :
    {k q : ℕ} {s : Lane}
    → Reach k q s
    → (s.running ≤ k)
      × (length s.waiters ≤ q)
      × (s.available + s.running + count_finished s.calls ≡ k)
Reach-bounded r =
    let v = Reach-Inv r in
    (
      omega (arith, v.capacity, v.owned),
      omega (arith, v.bounded, Reach-max_queue r),
      omega (arith, v.capacity, v.owned),
    )
