-- ===== src/PiSessions.antt =====
-- src/worker_harness/db.py, the tables of Pi sessions, their events and their commands. The methods
-- run under `_pi_bridge_lock` and are steps on the three tables. Of a JSON value the model keeps what
-- the code reads of it; `now` is the argument or the clock.
pub mod Commands
pub mod Bridge
pub mod Activity
mod Frame
mod Mailbox
pub mod Claims
pub mod Blocking
pub mod Waiting
pub mod Delivery
pub mod Examples
use worker_harness.Base.{
  ℕ, ◌+◌, String, Bool, true, false, ◌&&◌, leb, not, Option, none, some, List, [], ◌∷◌, ◌++◌, ◌==◌,
  nat_eq, string_eq, if◌then◌else◌,
}
use worker_harness.Table.Order.{order_by}
use worker_harness.Table.{select, update_where, find_where, exists_where, max_where}

pub data PiSessionType : Type 0 where
  interactive global_router : PiSessionType

pub data PiSessionState : Type 0 where
  queued starting working blocked idle stopped failed termination_unknown : PiSessionState

-- `meta`; a text that is missing is `none` for the first two, and empty for the others.
pub record Meta : Type 0 where
  pub pane_sequence : ℕ
  pub project : Option String
  pub resume_path : Option String
  pub machine : String
  pub workspace_id : String
  pub pane_id : String
  pub repo : String
  pub remote : String
  pub worktree : String
  pub branch : String
  pub pr_url : String
  pub cache_dir : String
  pub paths_file : String
  pub prompt_file : String

-- `{}`
abbrev pub empty_meta : Meta
empty_meta = record {
  pane_sequence = 0;
  project = none;
  resume_path = none;
  machine = "";
  workspace_id = "";
  pane_id = "";
  repo = "";
  remote = "";
  worktree = "";
  branch = "";
  pr_url = "";
  cache_dir = "";
  paths_file = "";
  prompt_file = "";
}

pub record PiSession : Type 0 where
  pub id : String
  pub worker_id : Option String
  pub parent_session_id : Option String
  pub session_type : PiSessionType
  pub state : PiSessionState
  pub task : String
  pub cwd : String
  pub tmux_session : String
  pub detail : String
  pub role : String
  pub token_hash : String
  pub question : String
  pub meta : Meta
  pub name : String
  pub host : String
  pub agent : String
  pub bridge_incarnation : Option String
  pub terminal_attachable : Bool
  pub terminal_host : String
  pub terminal_port : ℕ
  pub terminal_protocol_version : ℕ
  pub has_pending_messages : Bool
  pub last_seen : ℕ
  pub created_at : ℕ
  pub updated_at : ℕ

-- A payload: `message_id` and `question` where they are texts, and the JSON of the rest.
pub record Payload : Type 0 where
  pub rest : String
  pub message_id : Option String
  pub question : Option String

pub record PiSessionEvent : Type 0 where
  pub id : String
  pub session_id : String
  pub event_type : String
  pub payload : Payload
  pub created_at : ℕ
  pub sequence : ℕ

pub record PiSessionCommand : Type 0 where
  pub id : String
  pub session_id : String
  pub kind : String
  pub message : String
  pub deliver_as : String
  pub payload : Payload
  pub created_at : ℕ
  pub claimed_at : ℕ
  pub claimed_by : String
  pub delivered_at : ℕ

pub record Store : Type 0 where
  pub sessions : List PiSession
  pub events : List PiSessionEvent
  pub commands : List PiSessionCommand

-- The exceptions of the methods.
pub data Error : Type 0 where
  key_error value_error permission_error integrity_error : Error

pub data Result {ℓ} (A : Type ℓ) : Type ℓ where
  ok : A → Result A
  raise : Error → Result A

abbrev pub bridge_backed : PiSessionType → Bool
bridge_backed interactive = true
bridge_backed global_router = true

-- `state IN ('stopped', 'failed', 'termination_unknown')`
abbrev pub is_over : PiSessionState → Bool
is_over stopped = true
is_over failed = true
is_over termination_unknown = true
is_over _ = false

abbrev pub is_blocked : PiSessionState → Bool
is_blocked blocked = true
is_blocked _ = false

abbrev pub has_session_id : String → PiSession → Bool
has_session_id x s = s.id == x

unfoldable pub get_pi_session : String → Store → Option PiSession
get_pi_session x st = find_where (has_session_id x) st.sessions

abbrev pub update_session : String → (PiSession → PiSession) → Store → Store
update_session x f st = record st { sessions = update_where (has_session_id x) f st.sessions }

-- `insert_pi_session`; `none` is the IntegrityError of a primary key that is taken.
unfoldable pub insert_pi_session : PiSession → Store → Option Store
insert_pi_session s st =
    if exists_where (has_session_id s.id) st.sessions
    then none
    else some (record st { sessions = st.sessions ++ s ∷ [] })

-- `list_pi_sessions_by_role`
unfoldable pub list_pi_sessions_by_role : String → Store → List PiSession
list_pi_sessions_by_role role st =
    order_by (λ a b. leb b.updated_at a.updated_at) (select (λ s. s.role == role) st.sessions)

-- SQL's `=` of two values of which either can be NULL, as a test.
abbrev pub same_project : Option String → Option String → Bool
same_project (some a) (some b) = a == b
same_project a b = false

-- `list_pi_sessions`
unfoldable pub list_pi_sessions : Option String → Store → List PiSession
list_pi_sessions none st = order_by (λ a b. leb b.updated_at a.updated_at) st.sessions
list_pi_sessions (some worker_id) st =
    order_by (λ a b. leb b.updated_at a.updated_at)
      (if worker_id == ""
        then st.sessions
        else select (λ s. same_project s.worker_id (some worker_id)) st.sessions)

unfoldable pub get_pi_session_by_token_hash : String → Store → Option PiSession
get_pi_session_by_token_hash hash st = find_where (λ s. s.token_hash == hash) st.sessions

-- `reparent_pi_session_children`
unfoldable pub reparent_pi_session_children : String → String → Store → Store
reparent_pi_session_children old_id new_id st =
    let project : Option String = elim (get_pi_session new_id st) [
      | none ↦ none
      | some s ↦ s.meta.project
    ] in
    record st {
      sessions =
          update_where
            (λ s.
              same_project s.parent_session_id (some old_id)
              && s.role == "task"
              && same_project s.meta.project project)
            (λ s. record s { parent_session_id = some new_id }) st.sessions;
    }

-- `INSERT OR IGNORE INTO pi_session_events`, with the trigger that numbers the events of a session;
-- whether a row was inserted.
unfoldable pub insert_event : PiSessionEvent → Store → Bool × Store
insert_event e st =
    let next = max_where (λ r. r.session_id == e.session_id) (λ r. r.sequence) st.events + 1 in
    if exists_where (λ r. r.id == e.id) st.events
    then (false, st)
    else (true, record st { events = st.events ++ record e { sequence = next } ∷ [] })

-- `finish_pi_session`
unfoldable pub finish_pi_session : String → PiSessionState → String → ℕ → Store → Store
finish_pi_session x state detail now = update_session x (λ s. record s {
  state = state;
  detail = detail;
  updated_at = now;
  question = "";
  token_hash = "";
  bridge_incarnation = none;
  terminal_attachable = false;
})

-- `set_pi_session_blocked`: the exception, or `none`; the event has a fresh UUID as its id.
unfoldable pub set_pi_session_blocked : String → String → String → ℕ → Store → Option Error × Store
unfolding insert_event
set_pi_session_blocked x question event_id now st =
    let active = λ (s : PiSession). has_session_id x s && not (is_over s.state) in
    let asked = record st {
      sessions =
          update_where active
            (λ s. record s { state = blocked; question = question; updated_at = now }) st.sessions;
    } in
    let event : PiSessionEvent = record {
      id = event_id;
      session_id = x;
      event_type = "blocked";
      payload = record { rest = "{}"; message_id = none; question = some question };
      created_at = now;
      sequence = 0;
    } in
    if exists_where active st.sessions
    then (none, (insert_event event asked).1)
    else (some value_error, st)

-- `next_pi_session_pane_sequence`
unfoldable pub next_pi_session_pane_sequence : String → Store → Result ℕ × Store
next_pi_session_pane_sequence x st =
    let after =
      update_session x
        (λ s. record s { meta = record (s.meta) { pane_sequence = s.meta.pane_sequence + 1 } })
        st in
    elim (get_pi_session x after) [
      | none ↦ (raise key_error, after)
      | some s ↦ (ok s.meta.pane_sequence, after)
    ]
