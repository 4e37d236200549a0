-- ===== src/Lanes/Examples.antt =====
-- lanes.py on concrete schedules.
use worker_harness.Base.{◌<◌, ◌↔◌, ◌+◌, ◌≤◌, ◌≡◌, refl, [], ◌∷◌, length, arith, nat_eq}
use worker_harness.Lanes.{
  owns_slot, Lane, new_lane, finished, future_of, set_future, forget, hand_off, release_locked,
  enter, leave, timed_out, abandon_waiter, contains,
}
use worker_harness.Lanes.Calls.{count_finished}
use worker_harness.Lanes.Invariant.{Inv}
use worker_harness.Lanes.Steps.{
  Reach, start, next, enters, times_out, leaves, Reach-Inv, Reach-bounded,
}
use worker_harness.Lanes.Fairness.{leave_serves_oldest, enter_never_overtakes}

-- One slot, taken; two calls wait.
abbrev contended : Lane
contended = (enter (enter (enter (new_lane 1 2)).0).0).0

contended-Reach : Reach 1 2 contended
contended-Reach = next (next (next start (enters _)) (enters _)) (enters _)

contended_waiters : contended.waiters ≡ 0 ∷ 1 ∷ []
unfolding enter new_lane
contended_waiters = refl

-- The first owner leaves, and the oldest waiter is granted its slot but times out at once.
abbrev raced : Lane
raced = timed_out 0 (leave contended)

raced-Reach : Reach 1 2 raced
unfolding enter new_lane
raced-Reach =
    next (next contended-Reach (leaves contended (omega arith))) (times_out (leave contended) 0)

-- The slot went on to the second waiter.
raced_passed_on : future_of 1 raced.calls ≡ finished
unfolding enter new_lane leave release_locked hand_off timed_out abandon_waiter contains future_of
    set_future forget
raced_passed_on = refl

Reach-Inv_example : Inv 1 raced
Reach-Inv_example = Reach-Inv raced-Reach

Reach-bounded_example :
    (raced.running ≤ 1)
    × (length raced.waiters ≤ 2)
    × (raced.available + raced.running + count_finished raced.calls ≡ 1)
Reach-bounded_example = Reach-bounded raced-Reach

leave_serves_oldest_example : (leave contended).waiters ≡ 1 ∷ []
leave_serves_oldest_example =
    (leave_serves_oldest 0 (1 ∷ []) (Reach-Inv contended-Reach) contended_waiters).1

enter_never_overtakes_example :
    ((enter contended).1 ≡ owns_slot) ↔ ((0 < contended.available) × (contended.waiters ≡ []))
enter_never_overtakes_example = (enter_never_overtakes contended).0
