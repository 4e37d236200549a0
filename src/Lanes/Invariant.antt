-- ===== src/Lanes/Invariant.antt =====
-- No handler of lanes.py loses a slot or makes one up, in any interleaving.
use worker_harness.Base.{
  ℕ, suc, ◌+◌, ◌-◌, ◌≤◌, ◌<◌, ◌≡◌, refl, sym, List, [], ◌∷◌, length, length-append, arith, true,
  false, inl, inr,
}
use worker_harness.Lanes.{
  pending, finished, cancelled, Lane, new_lane, is_pending, future_of, set_future, hand_off,
  release_locked, contains, abandon_waiter, enter, granted, timed_out, leave, shutdown,
}
use worker_harness.Lanes.Calls.{
  pending_ids, count_finished, Ascending, append-Ascending, set_future-Ascending, forget-Ascending,
  future_of_head, grant_head, future_of-set_finished, forget_finished, contains-pending_ids,
  length-remove_waiter, contains_of_nil, forget_pending, forget_cancelled, append_pending,
  cancel_all_lem, Future-cases,
}

-- What holds between two handlers of a lane with `k` slots.
pub record Inv (k : ℕ) (s : Lane) : Type 0 where
  -- Every slot is free or in use,
  pub capacity : s.available + s.in_use ≡ k
  -- and in use means owned: by a call in its body, or by one that has not woken up yet.
  pub owned : s.in_use ≡ s.running + count_finished s.calls
  -- The deque holds the waiting calls in the order in which they came.
  pub queue : s.waiters ≡ pending_ids s.calls
  -- Nobody waits while a slot is free.
  pub conserving : 0 < s.available → s.waiters ≡ []
  pub bounded : length s.waiters ≤ s.max_queue
  pub numbered : Ascending 0 s.next_waiter s.calls

pub new_lane-Inv : (k q : ℕ) → Inv k (new_lane k q)
unfolding new_lane pending_ids count_finished
new_lane-Inv k q = record {
  capacity = omega arith;
  owned = refl;
  queue = refl;
  conserving = λ _. refl;
  bounded = omega arith;
  numbered = omega arith;
}

-- The slot of one owner goes to the oldest waiter, or back to the free ones.
pub record Released (s t : Lane) : Type 0 where
  pub capacity : t.available + t.in_use ≡ s.available + s.in_use
  pub owners : t.in_use + suc (count_finished s.calls) ≡ s.in_use + count_finished t.calls
  pub queue : t.waiters ≡ pending_ids t.calls
  pub conserving : 0 < t.available → t.waiters ≡ []
  pub bounded : length t.waiters ≤ t.max_queue
  pub numbered : Ascending 0 t.next_waiter t.calls
  pub running : t.running ≡ s.running
  pub kept : (w : ℕ) → future_of w s.calls ≡ finished → future_of w t.calls ≡ finished

release_locked-Released :
    (s : Lane) (ws : List ℕ)
    → s.waiters ≡ ws
    → 0 < s.in_use
    → s.waiters ≡ pending_ids s.calls
    → (0 < s.available → s.waiters ≡ [])
    → length s.waiters ≤ s.max_queue
    → Ascending 0 s.next_waiter s.calls
    → Released s (release_locked s)
unfolding release_locked hand_off
release_locked-Released s [] e pos q c b n = record {
  capacity = ground arith;
  owners = ground arith;
  queue = ground arith;
  conserving = λ h. ground arith;
  bounded = ground arith;
  numbered = ground arith;
  running = ground arith;
  kept = λ w h. ground arith;
}
release_locked-Released s (w ∷ ws) e pos q c b n =
    let head = future_of_head 0 s.next_waiter s.calls w ws n (ground arith) in
    let grant = grant_head 0 s.next_waiter s.calls w ws n (ground arith) in
    record {
      capacity = ground (arith, head);
      owners = ground (arith, head, grant);
      queue = ground (arith, head, grant);
      conserving = λ h. ground (arith, head);
      bounded = ground (arith, head);
      numbered = ground (arith, head, set_future-Ascending w finished 0 s.next_waiter s.calls n);
      running = ground (arith, head);
      kept = λ v h. ground (arith, head, future_of-set_finished v w s.calls);
    }

module _ {k : ℕ} {s : Lane} (v : Inv k s) where
  released : 0 < s.in_use → Released s (release_locked s)
  released pos =
      release_locked-Released s s.waiters refl pos v.queue v.conserving v.bounded v.numbered

  pub enter-Inv : Inv k (enter s).0
  unfolding enter
  enter-Inv = record {
    capacity = ground (arith, v.capacity);
    owned = ground (arith, v.owned, append_pending s.next_waiter s.calls);
    queue = ground (arith, v.queue, append_pending s.next_waiter s.calls);
    conserving = λ h. ground (arith, v.conserving);
    bounded = ground (arith, v.bounded, length-append s.waiters (s.next_waiter ∷ []));
    numbered =
        ground (arith, v.numbered, append-Ascending 0 s.next_waiter s.calls pending v.numbered);
  }

  -- A call wakes up with its slot.
  pub granted-Inv : (w : ℕ) → future_of w s.calls ≡ finished → Inv k (granted w s)
  unfolding granted
  granted-Inv w h = record {
    capacity = v.capacity;
    owned = omega (arith, v.owned, (forget_finished w s.calls h).1);
    queue = ground (arith, v.queue, forget_finished w s.calls h);
    conserving = v.conserving;
    bounded = v.bounded;
    numbered = forget-Ascending w 0 s.next_waiter s.calls v.numbered;
  }

  pub leave-Inv : 0 < s.running → Inv k (leave s)
  unfolding leave
  leave-Inv pos =
      let r =
        release_locked-Released (record s { running = s.running - 1 }) s.waiters refl
          (omega (arith, v.owned)) v.queue v.conserving v.bounded v.numbered in
      record {
        capacity = omega (arith, r.capacity, v.capacity);
        owned = omega (arith, r.owners, r.running, v.owned);
        queue = r.queue;
        conserving = r.conserving;
        bounded = r.bounded;
        numbered = r.numbered;
      }

  in_deque : (w : ℕ) → contains w s.waiters ≡ is_pending (future_of w s.calls)
  in_deque w = rw v.queue (contains-pending_ids w 0 s.next_waiter s.calls v.numbered)

  abandon_pending-Inv : (w : ℕ) → future_of w s.calls ≡ pending → Inv k (abandon_waiter w s)
  unfolding abandon_waiter
  abandon_pending-Inv w h =
      let there : contains w s.waiters ≡ true = rw (in_deque w, h) in
      let gone = forget_pending w 0 s.next_waiter s.calls v.numbered h in
      record {
        capacity = ground (arith, there, v.capacity);
        owned = ground (arith, there, gone, v.owned);
        queue = ground (arith, there, gone, v.queue);
        conserving = λ p.
            absurd (cc (there, contains_of_nil w s.waiters (v.conserving (ground (arith, there)))));
        bounded = ground (arith, there, v.bounded, length-remove_waiter w s.waiters);
        numbered = ground (
          arith,
          there,
          forget-Ascending w 0 s.next_waiter (set_future w cancelled s.calls)
              (set_future-Ascending w cancelled 0 s.next_waiter s.calls v.numbered),
        );
      }

  abandon_finished-Inv : (w : ℕ) → future_of w s.calls ≡ finished → Inv k (abandon_waiter w s)
  unfolding abandon_waiter
  abandon_finished-Inv w h =
      let absent : contains w s.waiters ≡ false = rw (in_deque w, h) in
      let owner = (forget_finished w s.calls h).1 in
      let r = released (omega (arith, v.owned, owner)) in
      let gone = forget_finished w (release_locked s).calls (r.kept w h) in
      record {
        capacity = ground (arith, absent, r.capacity, v.capacity);
        owned = ground (arith, absent, r.owners, r.running, gone, v.owned);
        queue = ground (arith, absent, gone, r.queue);
        conserving = λ p. ground (arith, absent, r.conserving);
        bounded = ground (arith, absent, r.bounded);
        numbered = ground (
          arith,
          absent,
          forget-Ascending w 0 (release_locked s).next_waiter (release_locked s).calls r.numbered,
        );
      }

  abandon_cancelled-Inv : (w : ℕ) → future_of w s.calls ≡ cancelled → Inv k (abandon_waiter w s)
  unfolding abandon_waiter
  abandon_cancelled-Inv w h =
      let absent : contains w s.waiters ≡ false = rw (in_deque w, h) in
      let gone = forget_cancelled w s.calls h in
      record {
        capacity = ground (arith, absent, v.capacity);
        owned = ground (arith, absent, gone, v.owned);
        queue = ground (arith, absent, gone, v.queue);
        conserving = λ p. ground (arith, absent, v.conserving);
        bounded = ground (arith, absent, v.bounded);
        numbered = ground (arith, absent, forget-Ascending w 0 s.next_waiter s.calls v.numbered);
      }

  -- A call that gives up loses its place, or passes on the slot that was already its own.
  pub abandon_waiter-Inv : (w : ℕ) → Inv k (abandon_waiter w s)
  abandon_waiter-Inv w = elim (Future-cases (future_of w s.calls)) [
    | inl waits ↦ abandon_pending-Inv w waits
    | inr (inl owns) ↦ abandon_finished-Inv w owns
    | inr (inr gone) ↦ abandon_cancelled-Inv w gone
  ]

  pub timed_out-Inv : (w : ℕ) → Inv k (timed_out w s)
  unfolding timed_out
  timed_out-Inv w =
      let a = abandon_waiter-Inv w in
      record {
        capacity = a.capacity;
        owned = a.owned;
        queue = a.queue;
        conserving = a.conserving;
        bounded = a.bounded;
        numbered = a.numbered;
      }

  pub shutdown-Inv : Inv k (shutdown s)
  unfolding shutdown
  shutdown-Inv =
      let c = cancel_all_lem 0 s.next_waiter s.waiters s.calls v.numbered (sym v.queue) in
      record {
        capacity = v.capacity;
        owned = omega (arith, v.owned, c.1);
        queue = sym c.0;
        conserving = λ p. refl;
        bounded = omega arith;
        numbered = c.2;
      }
