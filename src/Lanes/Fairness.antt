-- ===== src/Lanes/Fairness.antt =====
-- Who gets a slot (`acquire` and `_release_locked` in lanes.py).
use worker_harness.Base.{ℕ, ◌≤◌, ◌<◌, ◌≡◌, ◌≢◌, ◌⊎◌, ◌↔◌, List, [], ◌∷◌, length, ◌++◌, arith}
use worker_harness.Lanes.{
  pending, finished, Lane, owns_slot, queued, queue_full, set_future, hand_off, release_locked,
  enter, leave,
}
use worker_harness.Lanes.Calls.{future_of_head}
use worker_harness.Lanes.Invariant.{Inv}

-- A release while calls wait hands the slot to the one that waits longest: it is granted, the
-- others keep their order, and neither `in_use` nor `available` changes in between.
pub leave_serves_oldest :
    {k : ℕ} {s : Lane} (w : ℕ) (ws : List ℕ)
    → Inv k s
    → s.waiters ≡ w ∷ ws
    → ((leave s).calls ≡ set_future w finished s.calls)
      × ((leave s).waiters ≡ ws)
      × ((leave s).in_use ≡ s.in_use)
      × ((leave s).available ≡ s.available)
unfolding leave release_locked hand_off
leave_serves_oldest {s} w ws v e =
    ground (arith, v.queue, future_of_head 0 s.next_waiter s.calls w ws v.numbered)

-- A new request gets a slot at once exactly if one is free and nobody waits, is refused exactly if
-- it cannot have one and the deque is full, and otherwise queues behind all that wait, as the last of
-- the deque and with a future that is pending: it never overtakes them. Where it does not queue, the
-- deque stays as it is, and where it gets no slot, so do the slots.
pub enter_never_overtakes :
    (s : Lane)
    → (((enter s).1 ≡ owns_slot) ↔ ((0 < s.available) × (s.waiters ≡ [])))
      × (((enter s).1 ≡ queue_full)
          ↔ (((s.available ≡ 0) ⊎ (0 < length s.waiters)) × (s.max_queue ≤ length s.waiters)))
      × ((w : ℕ)
          → (enter s).1 ≡ queued w
          → ((enter s).0.waiters ≡ s.waiters ++ w ∷ [])
            × ((enter s).0.calls ≡ s.calls ++ record { waiter = w; future = pending } ∷ [])
            × (w ≡ s.next_waiter)
            × (s.next_waiter < (enter s).0.next_waiter))
      × (((w : ℕ) → (enter s).1 ≢ queued w)
          → ((enter s).0.waiters ≡ s.waiters) × ((enter s).0.calls ≡ s.calls))
      × ((enter s).1 ≢ owns_slot
          → ((enter s).0.available ≡ s.available) × ((enter s).0.in_use ≡ s.in_use))
unfolding enter
enter_never_overtakes s = (
  (λ h. ground arith, λ h. ground arith),
  (λ h. ground arith, λ h. ground arith),
  (λ w h. ground arith),
  (λ h. ground (arith, h s.next_waiter)),
  (λ h. ground arith),
)
