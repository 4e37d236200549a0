-- ===== src/PiSessions/Bridge.antt =====
-- db.py: the registration of a bridge, its event batches, and the sweep of bridges that are gone.
use worker_harness.Base.{
  ℕ, String, Bool, false, ◌&&◌, ◌||◌, not, Option, none, some, List, [], ◌∷◌, ◌++◌, ◌==◌, nat_eq,
  string_eq, if◌then◌else◌,
}
use worker_harness.Table.{update_where, exists_where}
use worker_harness.PiSessions.{
  empty_meta, PiSession, interactive, idle, PiSessionCommand, PiSessionEvent, Payload, Store,
  Result, ok, raise, value_error, bridge_backed, is_blocked, get_pi_session, update_session,
  insert_event,
}
use worker_harness.PiSessions.Commands.{is_undelivered, or_now}

pub record PiIngestEvent : Type 0 where
  pub id : Option String
  pub event_type : String
  pub payload : Payload
  pub created_at : ℕ

pub record PiBridgeRegister : Type 0 where
  pub session_id : String
  pub incarnation : String
  pub cwd : String
  pub resume_path : String
  pub name : String
  pub host : String
  pub agent : String
  pub terminal_attachable : Bool
  pub terminal_host : String
  pub terminal_port : ℕ
  pub terminal_protocol_version : ℕ
  pub has_pending_messages : Bool
  pub initial_events : List PiIngestEvent

abbrev pub or_text : String → String → String
or_text s t = if s == "" then t else s

-- The row that the INSERT makes of a registration.
abbrev pub registered : PiBridgeRegister → ℕ → PiSession
registered p now = record {
  id = p.session_id;
  worker_id = none;
  parent_session_id = none;
  session_type = interactive;
  state = idle;
  task = "";
  cwd = p.cwd;
  tmux_session = "";
  detail = "";
  role = "";
  token_hash = "";
  question = "";
  meta = empty_meta;
  name = p.name;
  host = p.host;
  agent = p.agent;
  bridge_incarnation = some p.incarnation;
  terminal_attachable = p.terminal_attachable;
  terminal_host = p.terminal_host;
  terminal_port = p.terminal_port;
  terminal_protocol_version = p.terminal_protocol_version;
  has_pending_messages = p.has_pending_messages;
  last_seen = now;
  created_at = now;
  updated_at = now;
}

-- ON CONFLICT(id) DO UPDATE: a blocked session stays blocked, and a role keeps its name and place.
unfoldable pub reregistered : PiBridgeRegister → ℕ → PiSession → PiSession
reregistered p now s = record s {
  state = if is_blocked s.state then s.state else idle;
  cwd = if not (s.role == "") && not (s.cwd == "") then s.cwd else p.cwd;
  detail = "";
  name = if p.name == "" || not (s.role == "") then s.name else p.name;
  host = if p.host == "" || not (s.role == "") then s.host else p.host;
  agent = p.agent;
  bridge_incarnation = some p.incarnation;
  terminal_attachable = p.terminal_attachable;
  terminal_host = p.terminal_host;
  terminal_port = p.terminal_port;
  terminal_protocol_version = p.terminal_protocol_version;
  has_pending_messages = p.has_pending_messages;
  last_seen = now;
  updated_at = now;
}

unfoldable pub upsert_session : PiBridgeRegister → ℕ → Store → Store
upsert_session p now st = elim (get_pi_session p.session_id st) [
  | none ↦ record st { sessions = st.sessions ++ registered p now ∷ [] }
  | some s ↦ update_session p.session_id (reregistered p now) st
]

-- A replacement bridge may reclaim what the old incarnation has not acknowledged.
abbrev pub is_orphan : String → String → PiSessionCommand → Bool
is_orphan x incarnation c =
    c.session_id == x && is_undelivered c && not (c.claimed_by == incarnation)

unfoldable pub release_claims : String → String → Store → Store
release_claims x incarnation st = record st {
  commands =
      update_where (is_orphan x incarnation) (λ c. record c { claimed_at = 0; claimed_by = "" })
        st.commands;
}

abbrev pub is_message : String → Bool
is_message t = t == "message-start" || t == "message-end"

-- `SELECT 1 ... WHERE json_extract(payload, '$.message_id') = ?`
abbrev pub same_message : String → String → String → PiSessionEvent → Bool
same_message x event_type message_id e =
    e.session_id == x
    && e.event_type == event_type
    && elim e.payload.message_id [ none ↦ false | some m ↦ m == message_id ]

-- `event.id or str(uuid4())`, where the UUIDs are a parameter.
abbrev pub event_of : String → (PiIngestEvent → String) → ℕ → PiIngestEvent → PiSessionEvent
event_of x fresh_id now e = record {
  id = elim e.id [ none ↦ fresh_id e | some i ↦ or_text i (fresh_id e) ];
  session_id = x;
  event_type = e.event_type;
  payload = e.payload;
  created_at = or_now e.created_at now;
  sequence = 0;
}

-- `existing and not existing.session_type.bridge_backed`
abbrev pub is_refused : PiBridgeRegister → Store → Bool
is_refused p st = elim (get_pi_session p.session_id st) [
  | none ↦ false
  | some s ↦ not (bridge_backed s.session_type)
]

module _ (fresh_id : PiIngestEvent → String) where
  unfoldable pub snapshot_event : String → ℕ → PiIngestEvent → Store → Store
  snapshot_event x now e st =
      if not (is_message e.event_type) then st else elim e.payload.message_id [
        | none ↦ st
        | some m ↦
            if m == "" || exists_where (same_message x e.event_type m) st.events
            then st
            else (insert_event (event_of x fresh_id now e) st).1
      ]

  unfoldable pub snapshot_events : String → ℕ → List PiIngestEvent → Store → Store
  snapshot_events x now [] st = st
  snapshot_events x now (e ∷ es) st = snapshot_events x now es (snapshot_event x now e st)

  -- The statements after the guard, in their order.
  unfoldable pub after_registration : PiBridgeRegister → ℕ → Store → Store
  after_registration p now st =
      let upserted = upsert_session p now st in
      let resumed =
        if p.resume_path == ""
        then upserted
        else update_session p.session_id
            (λ s. record s { meta = record (s.meta) { resume_path = some p.resume_path } })
            upserted in
      snapshot_events p.session_id now p.initial_events
        (release_claims p.session_id p.incarnation resumed)

  unfoldable pub register_interactive_pi_session :
      PiBridgeRegister → ℕ → Store → Result (Option PiSession) × Store
  register_interactive_pi_session p now st =
      let after = after_registration p now st in
      if is_refused p st
      then (raise value_error, st)
      else (ok (get_pi_session p.session_id after), after)

  -- The events that were new, in order, and the store with them.
  unfoldable pub persist_events :
      String → ℕ → List PiIngestEvent → Store → List PiSessionEvent × Store
  persist_events x now [] st = ([], st)
  persist_events x now (e ∷ es) st =
      let event = event_of x fresh_id now e in
      let (inserted, with_event) = insert_event event st in
      let (others, after) = persist_events x now es with_event in
      if inserted then (event ∷ others, after) else (others, after)
