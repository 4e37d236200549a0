-- ===== src/PiSessions/Examples.antt =====
-- A mailbox with one command.
use worker_harness.Base.{
  String, Bool, ◌+◌, ◌≤◌, ◌≡◌, refl, true, false, none, some, [], ◌∷◌, arith, string_discrete,
}
use worker_harness.Table.{count_where, select, update_where, find_where, exists_where}
use worker_harness.Table.Order.{order_by, insert_by}
use worker_harness.PiSessions.{PiSessionCommand, Store, Result, ok, get_pi_session}
use worker_harness.PiSessions.Commands.{
  enqueue_pi_session_command, claim_pi_session_commands, ack_pi_session_command, check_bridge,
  is_claimable, claimed,
}
use worker_harness.PiSessions.Bridge.{
  PiIngestEvent, PiBridgeRegister, registered, register_interactive_pi_session, after_registration,
  upsert_session, release_claims, snapshot_events,
}
use worker_harness.PiSessions.Mailbox.{successes}
use worker_harness.PiSessions.Delivery.{
  start, next, enqueued, claims, acks, registers, acknowledged_once,
}
use worker_harness.PiSessions.{PiSession, blocked}
use worker_harness.PiSessions.Blocking.{IsWaiting}
use worker_harness.PiSessions.Waiting.{nothing, step, command_row, waits_for_answer}
use worker_harness.PiSessions.Waiting.{claims as quiet_claims}
use worker_harness.PiSessions.Commands.{is_prompt}
use worker_harness.PiSessions.Claims.{IsClaim, claim_pi_session_commands-IsClaim}

abbrev fresh_id : PiIngestEvent → String
fresh_id e = "uuid"

abbrev pub bridge : PiBridgeRegister
bridge = record {
  session_id = "s";
  incarnation = "first";
  cwd = "/home";
  resume_path = "";
  name = "pi";
  host = "host";
  agent = "pi";
  terminal_attachable = false;
  terminal_host = "";
  terminal_port = 0;
  terminal_protocol_version = 0;
  has_pending_messages = false;
  initial_events = [];
}

abbrev prompt : PiSessionCommand
prompt = record {
  id = "c";
  session_id = "s";
  kind = "prompt";
  message = "go on";
  deliver_as = "followUp";
  payload = record { rest = "{}"; message_id = none; question = none };
  created_at = 3;
  claimed_at = 0;
  claimed_by = "";
  delivered_at = 0;
}

abbrev empty : Store
empty = record { sessions = []; events = []; commands = [] }

abbrev live : Store
live = (register_interactive_pi_session fresh_id bridge 2 empty).1

abbrev asked : Store
asked = record {
  sessions = (record (registered bridge 2) { updated_at = 3; has_pending_messages = true }) ∷ [];
  events = [];
  commands = prompt ∷ [];
}

asked_by_enqueue : enqueue_pi_session_command prompt 3 live ≡ some asked
unfolding enqueue_pi_session_command register_interactive_pi_session after_registration
    upsert_session release_claims snapshot_events get_pi_session find_where update_where
    exists_where string_discrete
asked_by_enqueue = refl

abbrev given : Store
given = (claim_pi_session_commands "s" "first" 4 30 asked).1

given_row :
    (claim_pi_session_commands "s" "first" 4 30 asked).0 ≡ ok (claimed "first" 4 prompt ∷ [])
unfolding claim_pi_session_commands check_bridge is_claimable get_pi_session select update_where
    find_where order_by insert_by string_discrete
given_row = refl

claim_pi_session_commands-IsClaim_example :
    IsClaim "s" "first" 4 30 asked.commands (claimed "first" 4 prompt ∷ []) given.commands
claim_pi_session_commands-IsClaim_example =
    claim_pi_session_commands-IsClaim "s" "first" 4 30 asked (claimed "first" 4 prompt ∷ [])
      given_row

abbrev answer : Result Bool
answer = (ack_pi_session_command "s" "c" "first" 5 given).0

acknowledged_once_example : successes "c" "c" answer + (0 + (0 + (0 + 0))) ≤ 1
acknowledged_once_example = acknowledged_once (
    next
      (next (next (next start (registers fresh_id bridge 2)) (enqueued prompt 3 asked_by_enqueue))
        (claims "s" "first" 4 30))
      (acks "s" "c" "first" 5 (omega arith)))

abbrev waiting_session : PiSession
waiting_session = record (registered bridge 2) { state = blocked; question = "which branch?" }

abbrev waiting : Store
waiting = record {
  sessions = waiting_session ∷ [];
  events = [];
  commands = claimed "first" 4 prompt ∷ [];
}

asks_first : IsWaiting "s" "which branch?" waiting.sessions
unfolding find_where string_discrete
asks_first = record { row = waiting_session; found = refl; still = refl; asked = refl }

waits_for_answer_example :
    IsWaiting "s" "which branch?" (claim_pi_session_commands "s" "first" 5 30 waiting).1.sessions
waits_for_answer_example =
    waits_for_answer (step nothing (quiet_claims "s" "first" 5 30)) asks_first

abbrev resumed : Store
resumed = (ack_pi_session_command "s" "c" "first" 6 waiting).1

prompt_acked : (ack_pi_session_command "s" "c" "first" 6 waiting).0 ≡ ok true
unfolding ack_pi_session_command check_bridge get_pi_session find_where count_where string_discrete
prompt_acked = refl

prompt_row : is_prompt (command_row "s" "c" waiting) ≡ true
unfolding find_where string_discrete
prompt_row = refl
