-- ===== src/Fleet/Stopping.antt =====
-- src/worker_harness/orchestration.py: `teardown_task`, `stop_session` and `poll`.
use worker_harness.Base.{
  ◌-◌, String, Bool, true, false, ◌&&◌, ◌||◌, not, Option, none, some, List, [], ◌∷◌, ◌++◌, ltb,
  leb, ◌==◌, nat_eq, string_eq, if◌then◌else◌, is_empty,
}
use worker_harness.Dict
use worker_harness.Machines.{Machine}
use worker_harness.PiSessions.{
  PiSession, PiSessionState, idle, stopped, finish_pi_session, get_pi_session,
  list_pi_sessions_by_role,
}
use worker_harness.Table.{exists_where}
use worker_harness.Fleet.Action.{
  Kind, worktree_error, key_error, or_throw, remove_file, pane_close, Env, Action, Done, pure,
  throw, rethrow, gets, modify, catch, unless, is_remote, is_worktree, is_cancelled, ◌>>=◌, ◌>>◌,
}
use worker_harness.Fleet.Launch.{is_terminal}
use worker_harness.Fleet.Sessions.{
  session_machine, ask, record_event, mark_failed, remote_cleanup_error, best_effort, release,
  report_state, or_nothing,
}
use worker_harness.Fleet.Worktrees.{destroy_worktree}

abbrev pub is_idle : PiSessionState → Bool
is_idle idle = true
is_idle _ = false

-- `except Exception`: a cancellation is none.
abbrev pub is_exception : Kind → Bool
is_exception k = not (is_cancelled k)

-- A live task of the manager.
abbrev pub is_child_of : String → PiSession → Bool
is_child_of x t =
    (elim t.parent_session_id as (λ _. Bool) [ none ↦ false | some p ↦ p == x ])
    && not (is_terminal t.state)

module _ (env : Env) where
  -- The pane of a task that is torn down must be closed.
  unfoldable pub close_pane_of : Machine → PiSession → Action Done
  close_pane_of m s = do
    catch is_remote
        (λ e. do
          remote_cleanup_error env s "pane-close" e
          throw worktree_error "refusing to remove a worktree while its pane may still run")
        (ask env m (pane_close s.meta.pane_id))
    release env m s

  abbrev remove_cache : Machine → PiSession → Action Done
  remove_cache m s = best_effort env s "remove-cache" (ask env m (remove_file s.meta.cache_dir))

  abbrev flag_text : Bool → String
  flag_text true = "true"
  flag_text false = "false"

  -- From the closed pane on.
  unfoldable pub dismantle : Machine → PiSession → Bool → Action Done
  dismantle m s force = do
    unless (is_empty s.meta.pane_id) (close_pane_of m s)
    catch is_worktree (λ e. do mark_failed env s e "teardown-failed"; rethrow e)
        (destroy_worktree env m s.meta.repo s.meta.worktree s.meta.branch)
    remove_cache m s
    modify (finish_pi_session s.id stopped "" env.now)
    record_event env s.id "stopped" (("force", flag_text force) ∷ [])

  unfoldable pub teardown_task : PiSession → Bool → Action Done
  unfolding dismantle close_pane_of
  teardown_task s force =
      if not (s.role == "task")
      then throw worktree_error "not a task session"
      else if is_empty s.meta.pr_url && not force
      then throw worktree_error "refusing to destroy a task session without a PR"
      else do m ← session_machine env s; dismantle m s force

  -- The pane of a session that is stopped is released and closed; a failure to close it is raised.
  unfoldable pub stop_pane : Machine → PiSession → Action Done
  stop_pane m s = do
    release env m s
    catch is_remote (λ e. do remote_cleanup_error env s "pane-close" e; rethrow e)
        (ask env m (pane_close s.meta.pane_id))

  unfoldable pub stop_session : PiSession → Action Done
  unfolding stop_pane
  stop_session s = do
    m ← session_machine env s
    unless (is_empty s.meta.pane_id) (stop_pane m s)
    remove_cache m s
    modify (finish_pi_session s.id stopped "" env.now)
    record_event env s.id "stopped" []

  -- The test of an idle manager, on a row and the tasks that were read with it. A row that was updated
  -- after `now` counts as updated now, and `poll` asks for `idle_seconds > 0` first.
  unfoldable pub can_retire : PiSession → List PiSession → Bool
  can_retire s tasks =
      is_idle s.state
      && leb env.idle_seconds (env.now - s.updated_at)
      && not s.has_pending_messages
      && not (exists_where (is_child_of s.id) tasks)

  -- The second reading, under the lock of the manager.
  unfoldable pub retire_current : Option PiSession → List PiSession → Action Done
  retire_current none tasks = pure tt
  retire_current (some current) tasks =
      if can_retire current tasks then stop_session current else pure tt

  unfoldable pub retire_locked : PiSession → Action Done
  unfolding retire_current
  retire_locked s = do
    modify env.locked
    current ← gets (get_pi_session s.id)
    tasks ← gets (list_pi_sessions_by_role "task")
    retire_current current tasks

  unfoldable pub retire : PiSession → Action Done
  unfolding retire_locked
  retire s = do
    or_throw key_error "project" (Dict.get (or_nothing s.meta.project) env.projects)
    retire_locked s

  abbrev state_name : PiSessionState → String
  state_name idle = "idle"
  state_name _ = "working"

  abbrev question_or_detail : PiSession → String
  question_or_detail s = if is_empty s.question then s.detail else s.question

  unfoldable pub poll_session : List PiSession → PiSession → Action Done
  unfolding retire
  poll_session tasks s =
      if is_terminal s.state || is_empty s.meta.pane_id
      then pure tt
      else catch is_exception (λ _. pure tt)
          (if s.role == "pm" && ltb 0 env.idle_seconds && can_retire s tasks
            then retire s
            else report_state env s (state_name s.state) (question_or_detail s))

  unfoldable pub poll_all : List PiSession → List PiSession → Action Done
  poll_all tasks [] = pure tt
  poll_all tasks (s ∷ ss) = do poll_session tasks s; poll_all tasks ss

  unfoldable pub poll : Action Done
  poll = do
    tasks ← gets (list_pi_sessions_by_role "task")
    routers ← gets (list_pi_sessions_by_role "orchestrator")
    managers ← gets (list_pi_sessions_by_role "pm")
    poll_all tasks (routers ++ managers ++ tasks)
