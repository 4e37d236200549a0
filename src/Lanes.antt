-- ===== src/Lanes.antt =====
-- src/worker_harness/lanes.py: one worker's bounded FIFO lane.
--
-- The asyncio futures of suspended `acquire` calls are entries of `calls`, each with the number of
-- its future and the future's state; `waiters` is the deque of future numbers. `running` counts the
-- calls that are inside the `yield` and own a slot. Every handler below is what one call runs
-- between two suspension points while it holds `state.lock`.
mod Calls
pub mod Invariant
pub mod Steps
pub mod Fairness
mod Examples
use worker_harness.Base.{
  ℕ, ◌+◌, ◌-◌, Bool, true, false, ◌&&◌, List, [], ◌∷◌, ◌++◌, length, ltb, leb, ◌==◌, nat_eq,
  if◌then◌else◌,
}

pub data Future : Type 0 where
  pending finished cancelled : Future

pub record Call : Type 0 where
  pub waiter : ℕ
  pub future : Future

pub record Lane : Type 0 where
  pub available : ℕ
  pub max_queue : ℕ
  pub waiters : List ℕ
  pub in_use : ℕ
  pub timeouts_total : ℕ
  pub acquires_total : ℕ
  pub calls : List Call
  pub running : ℕ
  pub next_waiter : ℕ

-- `WorkerLanes.__init__` and the state that `_state_for` makes.
pub new_lane : ℕ → ℕ → Lane
new_lane max_concurrent max_queue = record {
  available = max_concurrent;
  max_queue = max_queue;
  waiters = [];
  in_use = 0;
  timeouts_total = 0;
  acquires_total = 0;
  calls = [];
  running = 0;
  next_waiter = 0;
}

-- The state of a future: that of its call. A call that has ended left its future cancelled.
pub future_of : ℕ → List Call → Future
future_of w [] = cancelled
future_of w (c ∷ cs) = if c.waiter == w then c.future else future_of w cs

pub set_future : ℕ → Future → List Call → List Call
set_future w f [] = []
set_future w f (c ∷ cs) =
    if c.waiter == w then record c { future = f } ∷ cs else c ∷ set_future w f cs

pub forget : ℕ → List Call → List Call
forget w [] = []
forget w (c ∷ cs) = if c.waiter == w then cs else c ∷ forget w cs

abbrev pub is_pending : Future → Bool
is_pending pending = true
is_pending _ = false

-- The `while state.waiters` loop: what is left of the deque, and the waiter that got the slot.
pub record Handoff : Type 0 where
  pub rest : List ℕ
  pub calls : List Call
  pub handed : Bool

pub hand_off : List ℕ → List Call → Handoff
hand_off [] cs = record { rest = []; calls = cs; handed = false }
hand_off (w ∷ ws) cs =
    let other = hand_off ws cs in
    if is_pending (future_of w cs)
    then record { rest = ws; calls = set_future w finished cs; handed = true }
    else other

-- `_release_locked`
pub release_locked : Lane → Lane
release_locked s =
    let h = hand_off s.waiters s.calls in
    let t = record s { waiters = h.rest; calls = h.calls } in
    if h.handed then t else record t { in_use = s.in_use - 1; available = s.available + 1 }

pub remove_waiter : ℕ → List ℕ → List ℕ
remove_waiter w [] = []
remove_waiter w (v ∷ vs) = if v == w then vs else v ∷ remove_waiter w vs

pub contains : ℕ → List ℕ → Bool
contains w [] = false
contains w (v ∷ vs) = if v == w then true else contains w vs

abbrev pub is_finished : Future → Bool
is_finished finished = true
is_finished _ = false

-- `_abandon_waiter`. The call then ends by an exception, so its future is forgotten.
pub abandon_waiter : ℕ → Lane → Lane
abandon_waiter w s =
    let ended = λ (t : Lane). record t { calls = forget w t.calls } in
    if contains w s.waiters
    then ended
        (record s { waiters = remove_waiter w s.waiters; calls = set_future w cancelled s.calls })
    else if is_finished (future_of w s.calls)
    then ended (release_locked s)
    else ended s

pub data Entered : Type 0 where
  owns_slot : Entered
  queued : ℕ → Entered
  queue_full : Entered

abbrev is_empty {ℓ} : {A : Type ℓ} → List A → Bool
is_empty [] = true
is_empty (x ∷ xs) = false

-- `acquire`, from the lock to the first suspension.
pub enter : Lane → Lane × Entered
enter s =
    if ltb 0 s.available && is_empty s.waiters
    then (
      record s {
        available = s.available - 1;
        in_use = s.in_use + 1;
        acquires_total = s.acquires_total + 1;
        running = s.running + 1;
      },
      owns_slot,
    )
    else if leb s.max_queue (length s.waiters)
    then (record s { timeouts_total = s.timeouts_total + 1 }, queue_full)
    else (
      record s {
        waiters = s.waiters ++ s.next_waiter ∷ [];
        calls = s.calls ++ record { waiter = s.next_waiter; future = pending } ∷ [];
        next_waiter = s.next_waiter + 1;
      },
      queued s.next_waiter,
    )

-- `acquire`, after `wait_for` returned: the call enters the `yield`.
pub granted : ℕ → Lane → Lane
granted w s = record s {
  calls = forget w s.calls;
  running = s.running + 1;
  acquires_total = s.acquires_total + 1;
}

-- `except asyncio.TimeoutError`
pub timed_out : ℕ → Lane → Lane
timed_out w s = let t = abandon_waiter w s in record t { timeouts_total = t.timeouts_total + 1 }

-- The `finally` of a call that owns a slot.
pub leave : Lane → Lane
leave s = release_locked (record s { running = s.running - 1 })

-- `shutdown`: every queued waiter that is not done is cancelled.
pub cancel_all : List ℕ → List Call → List Call
cancel_all [] cs = cs
cancel_all (w ∷ ws) cs =
    cancel_all ws (if is_pending (future_of w cs) then set_future w cancelled cs else cs)

pub shutdown : Lane → Lane
shutdown s = record s { waiters = []; calls = cancel_all s.waiters s.calls }
