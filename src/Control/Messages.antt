-- ===== src/Control/Messages.antt =====
-- src/worker_harness/heartbeat.py: the messages between sessions. A handler runs on the tables without
-- the writes of other requests between its statements; its HTTPException is an exception.
use worker_harness.Base.{
  ℕ, String, Bool, true, false, ◌&&◌, ◌||◌, not, Option, none, some, List, [], ◌∷◌, ◌==◌, string_eq,
  if◌then◌else◌, is_empty, strip, text_append,
}
use worker_harness.Dict
use worker_harness.PiSessions.{
  PiSession, PiSessionState, working, idle, blocked, stopped, failed, PiSessionCommand,
  bridge_backed, get_pi_session, list_pi_sessions_by_role, list_pi_sessions, same_project,
}
use worker_harness.Table.{select, find_where}
use worker_harness.Fleet.Action.{
  http_exception, key_error, Env, Action, Done, pure, throw, or_throw, gets, unless, catch, ◌>>=◌,
  ◌>>◌, new_id,
}
use worker_harness.Fleet.Managers.{ensure_pm, ensure_orchestrator}
use worker_harness.Fleet.Sessions.{record_event, enqueue_command, or_nothing}
use worker_harness.Fleet.Stopping.{is_exception}

-- `caller.id if caller else ""`
abbrev pub caller_id : Option PiSession → String
caller_id none = ""
caller_id (some caller) = caller.id

abbrev pub refuse : {A : Type 0} → ℕ → String → Action A
refuse status detail = throw (http_exception status) detail

-- `target.role == "task" and target.parent_session_id == caller.id`
unfoldable pub is_own_task : PiSession → PiSession → Bool
is_own_task caller target =
    target.role == "task"
    && elim target.parent_session_id as (λ _. Bool) [ none ↦ false | some p ↦ p == caller.id ]

-- The caller has a project, and the target has the same one.
unfoldable pub in_own_project : PiSession → PiSession → Bool
in_own_project caller target =
    not (is_empty (or_nothing caller.meta.project))
    && same_project target.meta.project caller.meta.project

-- Why a message is refused, if it is.
unfoldable pub send_refusal : Option PiSession → PiSession → Option String
send_refusal none target = none
send_refusal (some caller) target =
    if caller.role == "orchestrator"
    then (if target.role == "pm"
        then none
        else some "orchestrator may only message project managers")
    else if caller.role == "pm"
    then (if not (is_own_task caller target) && not (target.role == "orchestrator")
        then some "project manager may only message its own tasks or the orchestrator"
        else if is_own_task caller target && not (in_own_project caller target)
        then some "cross-project target"
        else none)
    else none

-- Why an interrupt is refused, if it is.
unfoldable pub interrupt_refusal : Option PiSession → PiSession → Option String
interrupt_refusal none target = none
interrupt_refusal (some caller) target =
    if caller.role == "orchestrator" && not (target.role == "pm")
    then some "orchestrator may only interrupt project managers"
    else if caller.role == "pm" && not (is_own_task caller target)
    then some "project manager may only interrupt its own tasks"
    else if caller.role == "pm" && not (in_own_project caller target)
    then some "cross-project target"
    else none

unfoldable pub guard_refusal : Option String → Action Done
guard_refusal none = pure tt
guard_refusal (some detail) = refuse 403 detail

abbrev takes_commands : PiSessionState → Bool
takes_commands working = true
takes_commands idle = true
takes_commands blocked = true
takes_commands _ = false

-- A bridge that is there to take a command.
unfoldable pub has_active_bridge : PiSession → Bool
has_active_bridge target =
    bridge_backed target.session_type
    && not (is_empty (or_nothing target.bridge_incarnation))
    && takes_commands target.state

abbrev is_answering : PiSession → Bool
is_answering s = elim s.state as (λ _. Bool) [ stopped ↦ false | failed ↦ false | _ ↦ true ]

-- `pi_sessions_list` without the attach info, which only the operator gets: what the caller may see.
unfoldable pub is_visible_to : PiSession → PiSession → Bool
is_visible_to caller s =
    s.id == caller.id
    || (is_own_task caller s && in_own_project caller s)
    || s.role == "orchestrator"

unfoldable pub visible_sessions : Option PiSession → List PiSession → List PiSession
visible_sessions none sessions = sessions
visible_sessions (some caller) sessions =
    if caller.role == "pm" then select (is_visible_to caller) sessions else sessions

unfoldable pub pi_sessions_list : Option String → Option PiSession → Action (List PiSession)
unfolding visible_sessions
pi_sessions_list worker_id caller = do
  sessions ← gets (list_pi_sessions worker_id)
  pure (visible_sessions caller sessions)

unfoldable pub pi_orchestrator_get : Action PiSession
pi_orchestrator_get = do
  sessions ← gets (list_pi_sessions_by_role "orchestrator")
  or_throw (http_exception 404) "no live orchestrator session" (find_where is_answering sessions)

module _ (env : Env) where
  abbrev pub new_command :
      String → String → String → String → List (String × String) → String → PiSessionCommand
  new_command x kind message deliver_as payload id = record {
    id = id;
    session_id = x;
    kind = kind;
    message = message;
    deliver_as = deliver_as;
    payload = record { rest = env.json payload; message_id = none; question = none };
    created_at = env.now;
    claimed_at = 0;
    claimed_by = "";
    delivered_at = 0;
  }

  -- A command for the mailbox of the session, and the event that it was queued.
  unfoldable pub queue_command :
      String
      → String
      → String
      → String
      → List (String × String)
      → String
      → List (String × String)
      → Action String
  queue_command x kind message deliver_as payload event_type noted = do
    id ← new_id env
    enqueue_command env (new_command x kind message deliver_as payload id)
    record_event env x event_type (("command_id", id) ∷ noted)
    pure id

  -- The id of the command.
  unfoldable pub enqueue_prompt : PiSession → String → String → Option PiSession → Action String
  unfolding queue_command
  enqueue_prompt target message deliver_as caller = do
    unless (not (is_empty (strip message))) (refuse 422 "message must not be empty")
    queue_command target.id "prompt" (strip message) deliver_as
        (("sender_session_id", caller_id caller) ∷ []) "prompt-queued"
        (("deliver_as", deliver_as) ∷ ("sender_session_id", caller_id caller) ∷ [])

  -- `except Exception`: an answer 503.
  unfoldable pub or_unavailable : {A : Type 0} → String → Action A → Action A
  or_unavailable what m = catch is_exception (λ e. refuse 503 (text_append what e.text)) m

  unfoldable pub pi_orchestrator_send : String → Option PiSession → Action String
  unfolding or_unavailable enqueue_prompt
  pi_orchestrator_send message caller = do
    session ← or_unavailable "could not launch orchestrator session: " (ensure_orchestrator env)
    enqueue_prompt session message "steer" caller

  -- A message to a manager goes to the live manager of its project.
  unfoldable pub deliver : PiSession → String → Option PiSession → Action String
  unfolding enqueue_prompt
  deliver target message caller =
      if target.role == "pm"
      then (do
        project ← or_throw key_error "project" target.meta.project
        manager ← ensure_pm env project
        enqueue_prompt manager message "steer" caller)
      else enqueue_prompt target message "steer" caller

  unfoldable pub send_to : Option PiSession → String → Option PiSession → Action String
  unfolding guard_refusal deliver
  send_to none message caller = refuse 404 "Pi session not found"
  send_to (some target) message caller = do
    guard_refusal (send_refusal caller target)
    deliver target message caller

  unfoldable pub pi_session_send : String → String → Option PiSession → Action String
  unfolding send_to
  pi_session_send session_id message caller = do
    target ← gets (get_pi_session session_id)
    send_to target message caller

  unfoldable pub interrupt_at : Option PiSession → Option PiSession → Action String
  unfolding guard_refusal queue_command
  interrupt_at none caller = refuse 404 "Pi session not found"
  interrupt_at (some target) caller = do
    guard_refusal (interrupt_refusal caller target)
    unless (has_active_bridge target) (refuse 409 "interactive Pi bridge is not active")
    queue_command target.id "interrupt" "" "followUp" [] "interrupt-queued"
        (("sender_session_id", caller_id caller) ∷ [])

  unfoldable pub pi_session_interrupt : String → Option PiSession → Action String
  unfolding interrupt_at
  pi_session_interrupt session_id caller = do
    target ← gets (get_pi_session session_id)
    interrupt_at target caller

  unfoldable pub pi_project_send : String → String → Option PiSession → Action String
  unfolding or_unavailable enqueue_prompt
  pi_project_send project message caller = do
    or_throw (http_exception 404) "project not found" (Dict.get project env.projects)
    or_unavailable "could not launch project manager: "
        (do manager ← ensure_pm env project; enqueue_prompt manager message "steer" caller)
