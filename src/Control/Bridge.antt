-- ===== src/Control/Bridge.antt =====
-- src/worker_harness/heartbeat.py: the requests of the bridge of a session.
use worker_harness.Base.{
  ℕ, zero, suc, String, Bool, true, false, ◌&&◌, not, Option, none, some, List, [], ◌∷◌, ◌==◌,
  string_eq, if◌then◌else◌, is_empty,
}
use worker_harness.Dict
use worker_harness.PiSessions
use worker_harness.PiSessions.{
  PiSession, PiSessionCommand, PiSessionEvent, Store, key_error, value_error, permission_error,
  integrity_error,
}
use worker_harness.PiSessions.Activity.{PiBridgeEventBatch, apply_interactive_pi_events}
use worker_harness.PiSessions.Bridge.{
  PiIngestEvent, PiBridgeRegister, register_interactive_pi_session,
}
use worker_harness.PiSessions.Commands.{claim_pi_session_commands, ack_pi_session_command}
use worker_harness.Fleet.Action.{
  http_exception, Env, Action, Done, ok, pure, or_throw, unless, modify, ◌>>=◌, ◌>>◌,
}
use worker_harness.Fleet.Launch.{is_transcript}
use worker_harness.Fleet.Sessions.{machine_name, record_event}
use worker_harness.Control.Messages.{refuse}

-- `caller.id != session_id` of a caller that is a session.
unfoldable pub is_other : Option PiSession → String → Bool
is_other none x = false
is_other (some caller) x = not (caller.id == x)

unfoldable pub check_bridge_caller : Option PiSession → String → Action Done
check_bridge_caller caller x =
    unless (not (is_other caller x)) (refuse 403 "session token does not match bridge session")

-- The status that answers an exception of db.py.
abbrev status_of : PiSessions.Error → ℕ
status_of key_error = 404
status_of permission_error = 409
status_of value_error = 409
status_of integrity_error = 500

-- A method of db.py as a step of a handler.
unfoldable pub answered : {A : Type 0} → PiSessions.Result A × Store → Action A
answered (PiSessions.ok a, st) w = (ok a, record w { store = st })
answered (PiSessions.raise e, st) w = refuse (status_of e) "refused" (record w { store = st })

abbrev has_commands : List PiSessionCommand → Bool
has_commands [] = false
has_commands (c ∷ cs) = true

module _ (env : Env) where
  -- A resume path of a session must be a transcript of its machine.
  unfoldable pub is_foreign_path : Option PiSession → String → Bool
  is_foreign_path none path = false
  is_foreign_path (some caller) path =
      not (is_empty path) && elim (Dict.get (machine_name caller) env.machines) as (λ _. Bool) [
        | none ↦ true
        | some machine ↦ not (is_transcript machine path)
      ]

  unfoldable pub pi_bridge_register :
      (PiIngestEvent → String) → PiBridgeRegister → Option PiSession → Action PiSession
  unfolding check_bridge_caller answered
  pi_bridge_register fresh_id p caller = do
    check_bridge_caller caller p.session_id
    unless (not (is_foreign_path caller p.resume_path))
        (refuse 403 "transcript path is outside the agent session directory")
    registered ← λ w. answered (register_interactive_pi_session fresh_id p env.now w.store) w
    row ← or_throw (http_exception 500) "no row" registered
    record_event env row.id "bridge-registered"
        (("incarnation", p.incarnation) ∷ ("host", p.host) ∷ [])
    pure row

  unfoldable pub pi_bridge_events :
      (PiIngestEvent → String)
      → String
      → PiBridgeEventBatch
      → Option PiSession
      → Action (PiSession × List PiSessionEvent)
  unfolding check_bridge_caller answered
  pi_bridge_events fresh_id session_id p caller = do
    check_bridge_caller caller session_id
    λ w. answered (apply_interactive_pi_events fresh_id session_id p env.now w.store) w

  abbrev claim : String → String → Action (List PiSessionCommand)
  claim x incarnation w = answered (claim_pi_session_commands x incarnation env.now 30 w.store) w

  -- The polls that are left before the deadline.
  unfoldable pub claim_until : ℕ → String → String → Action (List PiSessionCommand)
  unfolding answered
  claim_until zero x incarnation = claim x incarnation
  claim_until (suc polls) x incarnation = do
    commands ← claim x incarnation
    let again = claim_until polls x incarnation
    if has_commands commands then pure commands else (modify (env.between polls) >> again)

  unfoldable pub pi_bridge_commands :
      String → String → Option PiSession → Action (List PiSessionCommand)
  unfolding check_bridge_caller claim_until
  pi_bridge_commands session_id incarnation caller = do
    check_bridge_caller caller session_id
    claim_until env.polls session_id incarnation

  unfoldable pub pi_bridge_command_ack : String → String → String → Option PiSession → Action Done
  unfolding check_bridge_caller answered
  pi_bridge_command_ack session_id command_id incarnation caller = do
    check_bridge_caller caller session_id
    acknowledged ←
        λ w. answered (ack_pi_session_command session_id command_id incarnation env.now w.store) w
    unless acknowledged (refuse 404 "pending command not found")
