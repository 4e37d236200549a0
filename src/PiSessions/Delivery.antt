-- ===== src/PiSessions/Delivery.antt =====
-- How often a command of a session's mailbox is acknowledged, over all operations of db.py.
use worker_harness.Base.{ℕ, ◌+◌, ◌≤◌, ◌<◌, ◌≡◌, String, some, [], arith, nat_eq, string_eq}
use worker_harness.Table.{count_where}
use worker_harness.Table.Laws.{count_where_mono}
use worker_harness.PiSessions.{
  PiSessionState, PiSessionCommand, Store, finish_pi_session, set_pi_session_blocked,
}
use worker_harness.PiSessions.Commands.{
  enqueue_pi_session_command, claim_pi_session_commands, ack_pi_session_command,
}
use worker_harness.PiSessions.Bridge.{
  PiIngestEvent, PiBridgeRegister, register_interactive_pi_session,
}
use worker_harness.PiSessions.Frame.{sweep-commands, apply-commands, blocks-commands}
use worker_harness.PiSessions.Activity.{
  PiBridgeEventBatch, apply_interactive_pi_events, sweep_stale_interactive_pi_sessions,
}
use worker_harness.PiSessions.Mailbox.{
  successes, has_command_id, is_done, Inv, same-Inv, nothing_new, enqueue-Inv, claim-Inv, ack-Inv,
  register-Inv,
}

-- The operations of the store, with the number of acknowledgements of one command that they report.
pub data Step (id : String) (st : Store) : ℕ → Store → Type 0 where
  enqueued :
      (c : PiSessionCommand) (now : ℕ) {after : Store}
      → enqueue_pi_session_command c now st ≡ some after
      → Step id st 0 after
  claims :
      (x incarnation : String) (now lease_seconds : ℕ)
      → Step id st 0 (claim_pi_session_commands x incarnation now lease_seconds st).1
  acks :
      (x command_id incarnation : String) (now : ℕ)
      → 0 < now
      → Step id st
          (successes id command_id (ack_pi_session_command x command_id incarnation now st).0)
          (ack_pi_session_command x command_id incarnation now st).1
  registers :
      (fresh_id : PiIngestEvent → String) (p : PiBridgeRegister) (now : ℕ)
      → Step id st 0 (register_interactive_pi_session fresh_id p now st).1
  applies :
      (fresh_id : PiIngestEvent → String) (x : String) (p : PiBridgeEventBatch) (now : ℕ)
      → Step id st 0 (apply_interactive_pi_events fresh_id x p now st).1
  sweeps :
      (fresh_id : String → String) (cutoff_ts now : ℕ)
      → Step id st 0 (sweep_stale_interactive_pi_sessions fresh_id cutoff_ts now st).1
  finishes :
      (x : String) (state : PiSessionState) (detail : String) (now : ℕ)
      → Step id st 0 (finish_pi_session x state detail now st)
  blocks :
      (x question event_id : String) (now : ℕ)
      → Step id st 0 (set_pi_session_blocked x question event_id now st).1

pub data Reach (id : String) : ℕ → Store → Type 0 where
  start : Reach id 0 (record { sessions = []; events = []; commands = [] })
  next : {n m : ℕ} {st after : Store} → Reach id n st → Step id st m after → Reach id (m + n) after

Step-Inv :
    {id : String} {n : ℕ} {st : Store} {m : ℕ} {after : Store}
    → Step id st m after
    → Inv id n st.commands
    → Inv id (m + n) after.commands
Step-Inv {id} {n} {st} {m} {after} (enqueued c now e) inv =
    nothing_new (enqueue-Inv id n c now st after e inv)
Step-Inv {id} {n} {st} {m} (claims x incarnation now lease_seconds) inv =
    nothing_new (claim-Inv id n x incarnation now lease_seconds st inv)
Step-Inv {id} {n} {st} {m} (acks x command_id incarnation now positive) inv =
    ack-Inv id n x command_id incarnation now st positive inv
Step-Inv {id} {n} {st} {m} (registers fresh_id p now) inv =
    nothing_new (register-Inv id n fresh_id p now st inv)
Step-Inv {id} {n} {st} {m} (applies fresh_id x p now) inv =
    nothing_new (same-Inv (apply-commands fresh_id x p now st) inv)
Step-Inv {id} {n} {st} {m} (sweeps fresh_id cutoff_ts now) inv =
    nothing_new (same-Inv (sweep-commands fresh_id cutoff_ts now st) inv)
Step-Inv (finishes x state detail now) inv = nothing_new (unfold finish_pi_session in inv)
Step-Inv {id} {n} {st} {m} (blocks x question event_id now) inv =
    nothing_new (same-Inv (blocks-commands x question event_id now st) inv)

Reach-Inv : {id : String} {n : ℕ} {st : Store} → Reach id n st → Inv id n st.commands
Reach-Inv start = unfold count_where in record { unique = omega arith; counted = omega arith }
Reach-Inv (next r s) = Step-Inv s (Reach-Inv r)

-- Over any sequence of enqueues, claims, acknowledgements, registrations of new bridges, event
-- batches, sweeps, blocks and finishes, a command is acknowledged at most once, whichever
-- incarnations of the bridge have claimed it.
pub acknowledged_once : {id : String} {n : ℕ} {st : Store} → Reach id n st → n ≤ 1
acknowledged_once {id} {n} {st} r =
    let inv = Reach-Inv r in
    omega (
      arith,
      inv.unique,
      inv.counted,
      count_where_mono (is_done id) (has_command_id id) st.commands (λ c h. ground arith),
    )
