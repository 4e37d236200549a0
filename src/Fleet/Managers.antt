-- ===== src/Fleet/Managers.antt =====
-- src/worker_harness/orchestration.py: `ensure_orchestrator`, `ensure_pm` and `launch_task`.
use worker_harness.Base.{
  String, Bool, true, false, ◌&&◌, not, Option, none, some, List, [], ◌∷◌, ◌==◌, string_eq,
  if◌then◌else◌, is_empty, starts_with, text_append,
}
use worker_harness.Dict
use worker_harness.Machines.{Machine, Project}
use worker_harness.PiSessions.{
  PiSession, PiSessionState, starting, get_pi_session, list_pi_sessions_by_role,
  reparent_pi_session_children,
}
use worker_harness.Table.{select, find_where}
use worker_harness.Fleet.Action.{
  key_error, worktree_error, value_error, Env, Action, Done, pure, throw, or_throw, gets, modify,
  unless, ◌>>=◌, ◌>>◌,
}
use worker_harness.Fleet.Launch.{is_terminal, wait_for_bridge, launch}
use worker_harness.Fleet.Names.{orchestrator, pm, task, LaunchRequest}
use worker_harness.Fleet.Sessions.{session_machine, or_nothing}

abbrev pub is_live : PiSession → Bool
is_live s = not (is_terminal s.state)

abbrev pub is_starting : PiSessionState → Bool
is_starting starting = true
is_starting _ = false

abbrev resume_of : PiSession → String
resume_of s = or_nothing s.meta.resume_path

-- The first resume path that is given.
unfoldable pub last_transcript : List PiSession → String
last_transcript [] = ""
last_transcript (s ∷ ss) =
    let rest = last_transcript ss in if is_empty (resume_of s) then rest else resume_of s

abbrev pub of_project : String → PiSession → Bool
of_project name s = elim s.meta.project as (λ _. Bool) [ none ↦ false | some p ↦ p == name ]

unfoldable pub project_request : Project → Machine → Bool → LaunchRequest
project_request p m as_task = record {
  role = if as_task then task else pm;
  machine = m;
  cwd = p.repo;
  project_name = p.name;
  repo = p.repo;
  remote = p.remote;
  base_branch = p.base_branch;
}

unfoldable pub adopt : String → List PiSession → Action Done
adopt new_id [] = pure tt
adopt new_id (s ∷ ss) = do modify (reparent_pi_session_children s.id new_id); adopt new_id ss

-- The parent must be an active manager of the project.
unfoldable pub is_active_manager : Project → Option PiSession → Bool
is_active_manager p none = false
is_active_manager p (some s) = s.role == "pm" && of_project p.name s && is_live s

module _ (env : Env) where
  -- A session that is live: waited for while it starts.
  unfoldable pub use_live : PiSession → Action PiSession
  use_live s =
      if is_starting s.state
      then (do m ← session_machine env s; wait_for_bridge env m s)
      else pure s

  unfoldable pub router_request : Machine → LaunchRequest
  router_request m =
      let repo =
        if is_empty env.orchestrator_cwd
        then text_append m.home "/Work/agent-orchestrator"
        else env.orchestrator_cwd in
      record {
        role = orchestrator;
        machine = m;
        cwd = repo;
        project_name = "";
        repo = repo;
        remote = "";
        base_branch = "";
      }

  unfoldable pub launch_router : List PiSession → Action PiSession
  launch_router sessions = do
    m ←
        or_throw key_error "orchestrator machine is not configured"
          (Dict.get env.orchestrator_machine env.machines)
    unless (starts_with "/" (router_request m).cwd)
        (throw value_error "WH_ORCHESTRATOR_CWD must be an absolute remote path")
    launch env (router_request m) "" "" none (last_transcript sessions)

  unfoldable pub router_from : List PiSession → Option PiSession → Action PiSession
  unfolding launch_router
  router_from sessions none = launch_router sessions
  router_from sessions (some s) = use_live s

  unfoldable pub ensure_orchestrator : Action PiSession
  unfolding router_from
  ensure_orchestrator = do
    modify env.locked
    sessions ← gets (list_pi_sessions_by_role "orchestrator")
    router_from sessions (find_where is_live sessions)

  unfoldable pub project_machine : Project → Action Machine
  project_machine p =
      or_throw key_error "project references unknown machine" (Dict.get p.machine env.machines)

  unfoldable pub launch_manager : Project → List PiSession → Action PiSession
  unfolding adopt
  launch_manager p previous = do
    m ← project_machine p
    manager ← launch env (project_request p m false) "" "" none (last_transcript previous)
    adopt manager.id previous
    pure manager

  unfoldable pub manager_from : Project → List PiSession → Option PiSession → Action PiSession
  unfolding launch_manager
  manager_from p previous none = launch_manager p previous
  manager_from p previous (some s) = use_live s

  -- `_ensure_pm`, for a project that is known
  unfoldable pub manager_of : String → Project → Action PiSession
  unfolding manager_from
  manager_of project_name p = do
    modify env.locked
    sessions ← gets (list_pi_sessions_by_role "pm")
    let own = select (of_project project_name) sessions
    manager_from p own (find_where is_live own)

  unfoldable pub ensure_pm : String → Action PiSession
  unfolding manager_of
  ensure_pm project_name = do
    p ← or_throw key_error "unknown project" (Dict.get project_name env.projects)
    manager_of project_name p

  -- `_launch_task`
  unfoldable pub task_launch : Project → String → String → String → Action PiSession
  task_launch p branch briefing parent_session_id = do
    modify env.locked
    parent ← gets (get_pi_session parent_session_id)
    unless (is_active_manager p parent)
        (throw worktree_error "task parent must be the active manager of its project")
    m ← project_machine p
    launch env (project_request p m true) branch briefing (some parent_session_id) ""

  unfoldable pub launch_task : Project → String → String → String → Action PiSession
  unfolding task_launch
  launch_task p branch briefing parent_session_id = do
    or_throw key_error "project" (Dict.get p.name env.projects)
    task_launch p branch briefing parent_session_id
