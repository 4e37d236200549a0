-- ===== src/PiSessions/Activity.antt =====
-- db.py: the event batches of the active bridge, and the sweep of bridges that are gone.
use worker_harness.Base.{
  ℕ, String, Bool, true, false, ◌&&◌, ◌||◌, not, Option, none, some, List, [], ◌∷◌, map, ltb, ◌==◌,
  nat_eq, string_eq, if◌then◌else◌,
}
use worker_harness.Table.{select, exists_where}
use worker_harness.PiSessions.{
  PiSession, PiSessionState, queued, starting, working, blocked, idle, stopped, failed,
  termination_unknown, PiSessionEvent, Store, Result, ok, raise, bridge_backed, is_over, is_blocked,
  update_session, insert_event,
}
use worker_harness.PiSessions.Commands.{check_bridge, is_undelivered}
use worker_harness.PiSessions.Bridge.{PiIngestEvent, persist_events}

pub record PiBridgeEventBatch : Type 0 where
  pub incarnation : String
  pub state : Option PiSessionState
  pub detail : String
  pub has_pending_messages : Option Bool
  pub events : List PiIngestEvent

abbrev state_code : PiSessionState → ℕ
state_code queued = 0
state_code starting = 1
state_code working = 2
state_code blocked = 3
state_code idle = 4
state_code stopped = 5
state_code failed = 6
state_code termination_unknown = 7

abbrev bool_code : Bool → ℕ
bool_code true = 1
bool_code false = 0

-- A blocked session takes a new state only from a report that it is over.
unfoldable pub next_state : Option PiSessionState → PiSessionState → PiSessionState
next_state none s = s
next_state (some r) s = if not (is_blocked s) || is_over r then r else s

-- `payload.has_pending_messages or bool(pending)`
unfoldable pub next_pending : Option Bool → String → Store → Bool → Bool
next_pending none x st old = old
next_pending (some b) x st old =
    b || exists_where (λ c. c.session_id == x && is_undelivered c) st.commands

-- The session as the batch leaves it, before it is written.
unfoldable pub advanced : PiBridgeEventBatch → String → ℕ → Store → Bool → PiSession → PiSession
advanced p x now st any_new s =
    let state = next_state p.state s.state in
    let pending = next_pending p.has_pending_messages x st s.has_pending_messages in
    let same_activity =
      state_code s.state == state_code state
      && s.detail == p.detail
      && bool_code s.has_pending_messages == bool_code pending in
    record s {
      state = state;
      question = if is_over state then "" else s.question;
      detail = p.detail;
      has_pending_messages = pending;
      last_seen = now;
      updated_at = if any_new || not same_activity then now else s.updated_at;
    }

abbrev pub is_empty_events : List PiSessionEvent → Bool
is_empty_events [] = true
is_empty_events (e ∷ es) = false

-- The UPDATE of the six columns.
abbrev pub written : PiSession → PiSession → PiSession
written s r = record r {
  state = s.state;
  detail = s.detail;
  question = s.question;
  has_pending_messages = s.has_pending_messages;
  last_seen = s.last_seen;
  updated_at = s.updated_at;
}

module _ (fresh_id : PiIngestEvent → String) where
  unfoldable pub apply_interactive_pi_events :
      String → PiBridgeEventBatch → ℕ → Store → Result (PiSession × List PiSessionEvent) × Store
  apply_interactive_pi_events x p now st = elim (check_bridge x p.incarnation st) [
    | raise e ↦ (raise e, st)
    | ok s ↦
        let (persisted, with_events) = persist_events fresh_id x now p.events st in
        let session = advanced p x now with_events (not (is_empty_events persisted)) s in
        (ok (session, persisted), update_session x (written session) with_events)
  ]

-- `state NOT IN ('stopped', 'failed') AND last_seen < cutoff` of a bridge-backed session
abbrev pub is_stale : ℕ → PiSession → Bool
is_stale cutoff_ts s =
    bridge_backed s.session_type
    && ltb s.last_seen cutoff_ts
    && not (state_code s.state == 5 || state_code s.state == 6)

unfoldable pub expire_session : (String → String) → ℕ → String → Store → Store
expire_session fresh_id now x st =
    let event : PiSessionEvent = record {
      id = fresh_id x;
      session_id = x;
      event_type = "bridge-stale";
      payload = record { rest = "{}"; message_id = none; question = none };
      created_at = now;
      sequence = 0;
    } in
    (insert_event event (
      update_session x
        (λ s. record s {
          state = stopped;
          detail = "bridge heartbeat expired";
          updated_at = now;
          question = "";
          token_hash = "";
          terminal_attachable = false;
        })
        st)).1

unfoldable pub expire_all : (String → String) → ℕ → List String → Store → Store
expire_all fresh_id now [] st = st
expire_all fresh_id now (x ∷ xs) st = expire_all fresh_id now xs (expire_session fresh_id now x st)

unfoldable pub sweep_stale_interactive_pi_sessions :
    (String → String) → ℕ → ℕ → Store → List String × Store
sweep_stale_interactive_pi_sessions fresh_id cutoff_ts now st =
    let session_ids = map (λ s. s.id) (select (is_stale cutoff_ts) st.sessions) in
    (session_ids, expire_all fresh_id now session_ids st)
