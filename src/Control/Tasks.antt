-- ===== src/Control/Tasks.antt =====
-- src/worker_harness/heartbeat.py: what a task asks of its manager, what a manager does to its tasks,
-- and the configuration of a session.
use worker_harness.Base.{
  String, Bool, false, ◌&&◌, ◌||◌, not, Option, none, some, List, [], ◌∷◌, ◌++◌, ltb, ◌==◌,
  string_eq, if◌then◌else◌, is_empty, strip, text_append,
}
use worker_harness.Dict
use worker_harness.Fleet.Grammar.{text_length}
use worker_harness.PiSessions
use worker_harness.PiSessions.{
  PiSession, Store, same_project, get_pi_session, set_pi_session_blocked,
}
use worker_harness.Fleet.Action.{
  http_exception, is_worktree, Env, Action, Done, ok, pure, or_throw, gets, unless, catch, ◌>>=◌,
  ◌>>◌, new_id,
}
use worker_harness.Fleet.Managers.{launch_task}
use worker_harness.Fleet.Sessions.{or_nothing}
use worker_harness.Fleet.Stopping.{teardown_task}
use worker_harness.Control.Messages.{
  refuse, is_own_task, in_own_project, has_active_bridge, queue_command, enqueue_prompt,
}

-- The manager of a task: the parent, where it is one and has the task's project.
unfoldable pub manager_of_task : PiSession → Option PiSession → Action PiSession
manager_of_task caller none = refuse 403 "task has no project manager"
manager_of_task caller (some parent) =
    if not (parent.role == "pm")
    then refuse 403 "task has no project manager"
    else if not (in_own_project caller parent)
    then refuse 403 "cross-project parent"
    else pure parent

-- `own_task`
unfoldable pub check_own_task : PiSession → PiSession → Action Done
check_own_task caller task =
    if not (is_own_task caller task)
    then refuse 403 "project manager does not own task"
    else if not (in_own_project caller task)
    then refuse 403 "cross-project task"
    else pure tt

unfoldable pub require_session : Option PiSession → Action PiSession
require_session target = or_throw (http_exception 404) "Pi session not found" target

-- A new configuration: what is missing is the empty text.
pub record PiConfigureRequest : Type 0 where
  pub provider : String
  pub model : String
  pub thinking_level : String

-- `len(value) > 256 or not value.strip()` of a value that is given.
unfoldable pub is_bad_name : String → Bool
is_bad_name value = not (is_empty value) && (ltb 256 (text_length value) || is_empty (strip value))

unfoldable pub configure_payload : PiConfigureRequest → List (String × String)
configure_payload p =
    (if not (is_empty p.provider) && not (is_empty p.model)
      then ("provider", strip p.provider) ∷ ("model", strip p.model) ∷ []
      else [])
    ++ (if is_empty p.thinking_level then [] else ("thinking_level", p.thinking_level) ∷ [])

unfoldable pub check_configuration : PiConfigureRequest → Action Done
check_configuration p =
    if not (is_empty p.provider) && is_empty p.model
      || is_empty p.provider && not (is_empty p.model)
    then refuse 422 "provider and model must be set together"
    else if is_empty p.provider && is_empty p.thinking_level
    then refuse 422 "model or thinking_level is required"
    else if is_bad_name p.provider
    then refuse 422 "invalid provider"
    else if is_bad_name p.model
    then refuse 422 "invalid model"
    else pure tt

unfoldable pub is_configurable : Option PiSession → Bool
is_configurable none = false
is_configurable (some target) = has_active_bridge target

-- `set_pi_session_blocked` as a step: its ValueError is an answer 409.
unfoldable pub blocked_step : Option PiSessions.Error × Store → Action Done
blocked_step (none, st) w = (ok tt, record w { store = st })
blocked_step (some e, st) w = refuse 409 "session is not active" (record w { store = st })

module _ (env : Env) where
  unfoldable pub pi_session_configure : String → PiConfigureRequest → Action String
  unfolding check_configuration
  pi_session_configure session_id p = do
    target ← gets (get_pi_session session_id)
    unless (is_configurable target) (refuse 409 "interactive Pi bridge is not active")
    check_configuration p
    queue_command env session_id "configure" "" "followUp" (configure_payload p) "configure-queued"
        (configure_payload p)

  unfoldable pub block_session : String → String → Action Done
  block_session x question = do
    id ← new_id env
    λ w. blocked_step (set_pi_session_blocked x question id env.now w.store) w

  -- The parent of a task, as a task that may only speak for itself reads it.
  unfoldable pub own_manager : String → PiSession → Action PiSession
  own_manager session_id caller = do
    unless (caller.id == session_id) (refuse 403 "task may only speak for its own session")
    parent ← gets (get_pi_session (or_nothing caller.parent_session_id))
    manager_of_task caller parent

  unfoldable pub pi_session_ask_pm : String → String → PiSession → Action String
  unfolding own_manager block_session
  pi_session_ask_pm session_id question caller = do
    parent ← own_manager session_id caller
    unless (not (is_empty (strip question))) (refuse 422 "question must not be empty")
    block_session caller.id (strip question)
    enqueue_prompt env parent
        (text_append "Task " (text_append caller.id (text_append " asks: " (strip question))))
        "followUp" (some caller)

  unfoldable pub pi_session_notify_pm : String → String → PiSession → Action String
  unfolding own_manager
  pi_session_notify_pm session_id note caller = do
    parent ← own_manager session_id caller
    unless (not (is_empty (strip note))) (refuse 422 "note must not be empty")
    enqueue_prompt env parent
        (text_append "Task " (text_append caller.id (text_append " reports: " (strip note))))
        "followUp" (some caller)

  unfoldable pub pi_project_task_create : String → String → String → PiSession → Action PiSession
  pi_project_task_create project branch briefing caller = do
    unless (same_project caller.meta.project (some project))
        (refuse 403 "cross-project task launch")
    project_config ←
        or_throw (http_exception 404) "project not found" (Dict.get project env.projects)
    unless (not (is_empty (strip branch)) && not (is_empty (strip briefing)))
        (refuse 422 "branch and briefing must not be empty")
    launch_task env project_config (strip branch) (strip briefing) caller.id

  -- A WorktreeError is an answer 409.
  unfoldable pub pi_session_teardown : String → Bool → PiSession → Action Done
  unfolding check_own_task
  pi_session_teardown session_id force caller = do
    found ← gets (get_pi_session session_id)
    task ← require_session found
    check_own_task caller task
    catch is_worktree (λ e. refuse 409 e.text) (teardown_task env task force)
