-- ===== src/Lanes/Calls.antt =====
-- The list of suspended `acquire` calls: what the handlers of lanes.py do to the futures in it.
use worker_harness.Base.{
  ℕ, suc, ◌+◌, ◌≤◌, ◌<◌, ◌≡◌, refl, ◌⊎◌, inl, inr, List, [], ◌∷◌, ◌++◌, length, arith,
  if◌then◌else◌, false,
}
use worker_harness.Lanes.{
  Future, pending, finished, cancelled, Call, is_pending, is_finished, future_of, set_future,
  forget, remove_waiter, contains, cancel_all,
}

-- The futures of the queued calls, oldest first.
unfoldable pub pending_ids : List Call → List ℕ
pending_ids [] = []
pending_ids (c ∷ cs) = if is_pending c.future then c.waiter ∷ pending_ids cs else pending_ids cs

-- How many suspended calls already own a slot.
unfoldable pub count_finished : List Call → ℕ
count_finished [] = 0
count_finished (c ∷ cs) = (if is_finished c.future then 1 else 0) + count_finished cs

-- Calls stand in the order in which they began, under distinct numbers.
abbrev pub Ascending : ℕ → ℕ → List Call → Type 0
Ascending lo hi [] = lo ≤ hi
Ascending lo hi (c ∷ cs) = (lo ≤ c.waiter) × Ascending (suc c.waiter) hi cs

Ascending-le : (lo hi : ℕ) (cs : List Call) → Ascending lo hi cs → lo ≤ hi
Ascending-le lo hi [] h = h
Ascending-le lo hi (c ∷ cs) h = omega (arith, Ascending-le (suc c.waiter) hi cs h.1)

Ascending-lower :
    (lo lo' hi : ℕ) (cs : List Call) → lo' ≤ lo → Ascending lo hi cs → Ascending lo' hi cs
Ascending-lower lo lo' hi [] l h = omega arith
Ascending-lower lo lo' hi (c ∷ cs) l h = (omega arith, h.1)

pub append-Ascending :
    (lo hi : ℕ) (cs : List Call) (f : Future)
    → Ascending lo hi cs
    → Ascending lo (suc hi) (cs ++ record { waiter = hi; future = f } ∷ [])
append-Ascending lo hi [] f h = (h, omega arith)
append-Ascending lo hi (c ∷ cs) f h = (h.0, append-Ascending (suc c.waiter) hi cs f h.1)

pub set_future-Ascending :
    (w : ℕ) (f : Future) (lo hi : ℕ) (cs : List Call)
    → Ascending lo hi cs
    → Ascending lo hi (set_future w f cs)
unfolding set_future
set_future-Ascending w f lo hi [] h = h
set_future-Ascending w f lo hi (c ∷ cs) h =
    ground (arith, set_future-Ascending w f (suc c.waiter) hi cs h.1)

pub forget-Ascending :
    (w lo hi : ℕ) (cs : List Call) → Ascending lo hi cs → Ascending lo hi (forget w cs)
unfolding forget
forget-Ascending w lo hi [] h = h
forget-Ascending w lo hi (c ∷ cs) h =
    ground
      (arith, forget-Ascending w (suc c.waiter) hi cs h.1, Ascending-lower (suc c.waiter) lo hi cs)

-- A pending future is one of the calls', and so not below the first number.
future_of_low :
    (w lo hi : ℕ) (cs : List Call) → Ascending lo hi cs → w < lo → future_of w cs ≡ cancelled
unfolding future_of
future_of_low w lo hi [] h l = refl
future_of_low w lo hi (c ∷ cs) h l = ground (arith, future_of_low w (suc c.waiter) hi cs h.1)

head_pending :
    (lo hi : ℕ) (cs : List Call) (w : ℕ) (ws : List ℕ)
    → Ascending lo hi cs
    → pending_ids cs ≡ w ∷ ws
    → lo ≤ w
unfolding pending_ids
head_pending lo hi [] w ws h e = absurd (cc)
head_pending lo hi (c ∷ cs) w ws h e = ground (arith, head_pending (suc c.waiter) hi cs w ws h.1)

pub future_of_head :
    (lo hi : ℕ) (cs : List Call) (w : ℕ) (ws : List ℕ)
    → Ascending lo hi cs
    → pending_ids cs ≡ w ∷ ws
    → future_of w cs ≡ pending
unfolding pending_ids future_of
future_of_head lo hi [] w ws h e = absurd (cc)
future_of_head lo hi (c ∷ cs) w ws h e = ground (
  arith,
  future_of_head (suc c.waiter) hi cs w ws h.1,
  head_pending (suc c.waiter) hi cs w ws h.1,
)

-- The oldest waiter gets the slot: it leaves the queue, and one more call owns a slot.
pub grant_head :
    (lo hi : ℕ) (cs : List Call) (w : ℕ) (ws : List ℕ)
    → Ascending lo hi cs
    → pending_ids cs ≡ w ∷ ws
    → (pending_ids (set_future w finished cs) ≡ ws)
      × (count_finished (set_future w finished cs) ≡ suc (count_finished cs))
unfolding pending_ids count_finished set_future
grant_head lo hi [] w ws h e = absurd (cc)
grant_head lo hi (c ∷ cs) w ws h e =
    ground
      (arith, grant_head (suc c.waiter) hi cs w ws h.1, head_pending (suc c.waiter) hi cs w ws h.1)

pub future_of-set_finished :
    (w v : ℕ) (cs : List Call)
    → future_of w cs ≡ finished
    → future_of w (set_future v finished cs) ≡ finished
unfolding future_of set_future
future_of-set_finished w v [] h = absurd (cc)
future_of-set_finished w v (c ∷ cs) h = ground (arith, future_of-set_finished w v cs)

-- A call that owns a slot and ends takes its slot with it, and waits for nothing.
pub forget_finished :
    (w : ℕ) (cs : List Call)
    → future_of w cs ≡ finished
    → (pending_ids (forget w cs) ≡ pending_ids cs)
      × (suc (count_finished (forget w cs)) ≡ count_finished cs)
unfolding future_of forget pending_ids count_finished
forget_finished w [] h = absurd (cc)
forget_finished w (c ∷ cs) h = ground (arith, forget_finished w cs)

contains_low :
    (w lo hi : ℕ) (cs : List Call)
    → Ascending lo hi cs
    → w < lo
    → contains w (pending_ids cs) ≡ false
unfolding contains pending_ids
contains_low w lo hi [] h l = refl
contains_low w lo hi (c ∷ cs) h l = ground (arith, contains_low w (suc c.waiter) hi cs h.1)

-- Who stands in the deque is pending, and who is pending stands in the deque.
pub contains-pending_ids :
    (w lo hi : ℕ) (cs : List Call)
    → Ascending lo hi cs
    → contains w (pending_ids cs) ≡ is_pending (future_of w cs)
unfolding contains pending_ids future_of
contains-pending_ids w lo hi [] h = refl
contains-pending_ids w lo hi (c ∷ cs) h = ground (
  arith,
  contains-pending_ids w (suc c.waiter) hi cs h.1,
  contains_low w (suc c.waiter) hi cs h.1,
)

-- A call that gives up its place in the deque leaves the order of the others as it was.
pub forget_pending :
    (w lo hi : ℕ) (cs : List Call)
    → Ascending lo hi cs
    → future_of w cs ≡ pending
    → (remove_waiter w (pending_ids cs) ≡ pending_ids (forget w (set_future w cancelled cs)))
      × (count_finished (forget w (set_future w cancelled cs)) ≡ count_finished cs)
unfolding future_of forget set_future pending_ids count_finished remove_waiter
forget_pending w lo hi [] h e = absurd (cc)
forget_pending w lo hi (c ∷ cs) h e = ground (arith, forget_pending w (suc c.waiter) hi cs h.1)

-- Nothing is lost with a call whose future was cancelled.
pub forget_cancelled :
    (w : ℕ) (cs : List Call)
    → future_of w cs ≡ cancelled
    → (pending_ids (forget w cs) ≡ pending_ids cs)
      × (count_finished (forget w cs) ≡ count_finished cs)
unfolding future_of forget pending_ids count_finished
forget_cancelled w [] h = (refl, refl)
forget_cancelled w (c ∷ cs) h = ground (arith, forget_cancelled w cs)

pub append_pending :
    (w : ℕ) (cs : List Call)
    → (pending_ids (cs ++ record { waiter = w; future = pending } ∷ []) ≡ pending_ids cs ++ w ∷ [])
      × (count_finished (cs ++ record { waiter = w; future = pending } ∷ []) ≡ count_finished cs)
unfolding pending_ids count_finished
append_pending w [] = (refl, refl)
append_pending w (c ∷ cs) = ground (arith, append_pending w cs)

-- Shutdown cancels whoever waits, and takes no slot from those that own one.
pub cancel_head :
    (lo hi : ℕ) (cs : List Call) (w : ℕ) (ws : List ℕ)
    → Ascending lo hi cs
    → pending_ids cs ≡ w ∷ ws
    → (pending_ids (set_future w cancelled cs) ≡ ws)
      × (count_finished (set_future w cancelled cs) ≡ count_finished cs)
unfolding pending_ids count_finished set_future
cancel_head lo hi [] w ws h e = absurd (cc)
cancel_head lo hi (c ∷ cs) w ws h e =
    ground
      (arith, cancel_head (suc c.waiter) hi cs w ws h.1, head_pending (suc c.waiter) hi cs w ws h.1)

pub cancel_all_lem :
    (lo hi : ℕ) (ws : List ℕ) (cs : List Call)
    → Ascending lo hi cs
    → pending_ids cs ≡ ws
    → (pending_ids (cancel_all ws cs) ≡ [])
      × (count_finished (cancel_all ws cs) ≡ count_finished cs)
      × Ascending lo hi (cancel_all ws cs)
unfolding cancel_all
cancel_all_lem lo hi [] cs h e = (e, refl, h)
cancel_all_lem lo hi (w ∷ ws) cs h e = rw (future_of_head lo hi cs w ws h e) (
    ground (
      arith,
      cancel_head lo hi cs w ws h e,
      cancel_all_lem lo hi ws (set_future w cancelled cs)
          (set_future-Ascending w cancelled lo hi cs h) (cancel_head lo hi cs w ws h e).0,
    ))

pub Future-cases : (f : Future) → (f ≡ pending) ⊎ (f ≡ finished) ⊎ (f ≡ cancelled)
Future-cases pending = inl refl
Future-cases finished = inr (inl refl)
Future-cases cancelled = inr (inr refl)

pub length-remove_waiter : (w : ℕ) (ws : List ℕ) → length (remove_waiter w ws) ≤ length ws
unfolding remove_waiter
length-remove_waiter w [] = omega arith
length-remove_waiter w (v ∷ ws) = ground (arith, length-remove_waiter w ws)

pub contains_of_nil : (w : ℕ) (ws : List ℕ) → ws ≡ [] → contains w ws ≡ false
unfolding contains
contains_of_nil w ws e = rw e
