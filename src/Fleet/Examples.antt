-- ===== src/Fleet/Examples.antt =====
-- One machine, one project, and machines that answer every call.
use worker_harness.Base.{
  ℕ, String, false, none, some, List, [], ◌∷◌, ◌≡◌, ◌⊎◌, refl, arith, string_discrete,
}
use worker_harness.Machines.{Machine, Project}
use worker_harness.PiSessions.{
  PiSession, interactive, idle, Store, empty_meta, insert_pi_session, insert_event,
  finish_pi_session, list_pi_sessions_by_role,
}
use worker_harness.Table.{find_where, exists_where, update_where, select, max_where}
use worker_harness.Table.Order.{order_by, insert_by}
use worker_harness.Fleet.Action.{
  ok, raise, Exception, runtime_error, Env, World, Reply, Sent, Call, request, new_id, bind,
  recover, unless,
}
use worker_harness.Fleet.Attempts.{Ends, create_worktree-Ends}
use worker_harness.Fleet.Fresh.{IsFree, launch-IsOver}
use worker_harness.Fleet.Closing.{IsOver}
use worker_harness.Fleet.Grammar.{IsAgentName, herdr_agent_name-IsAgentName}
use worker_harness.Fleet.Guards.{IsManager, launch_task-refused}
use worker_harness.Fleet.Kept.{launch-RunsLast}
use worker_harness.Fleet.Launch.{
  launch, launch_as, launch_at, check_request, new_token, start_in_pane, prompted, abandon,
}
use worker_harness.Fleet.Managers.{is_live, of_project, ensure_pm, launch_task}
use worker_harness.Fleet.Names.{pm, task, LaunchRequest, launch_spec, herdr_agent_name, prompt_path}
use worker_harness.Fleet.Phases.{RunsLast}
use worker_harness.Fleet.Retirement.{
  NoClose, OnlyPane, NoStart, IsRetirable, poll_session-Polls, ensure_pm-NoStart,
}
use worker_harness.Fleet.Sessions.{
  new_session, insert_session, written, mark_failed, record_event, close_after_failed_launch,
  best_effort,
}
use worker_harness.Fleet.Stopping.{poll_session}
use worker_harness.Fleet.Traces.{Extends}
use worker_harness.Fleet.Worktrees.{create_worktree, attempts}

abbrev pub desktop : Machine
desktop = record {
  name = "desktop";
  ssh_target = "me@desktop";
  home = "/home/me";
  herdr_session = "wh";
  key_path = "/key";
}

abbrev pub harness : Project
harness = record {
  name = "harness";
  machine = "desktop";
  repo = "/home/me/harness";
  remote = "me/harness";
  base_branch = "main";
}

abbrev pub reply : Reply
reply = record { text = ""; workspace_id = "w"; pane_id = "p" }

abbrev pub env : Env
env = record {
  answer = λ (before : Sent) (m : String) (call : Call). ok reply;
  between = λ (n : ℕ) (st : Store). st;
  locked = λ (st : Store). st;
  polls = 2;
  now = 5000;
  uuid = λ (n : ℕ). "id";
  token = λ (n : ℕ). "token";
  sha256 = λ (t : String). "hash";
  json = λ (l : List (String × String)). "{}";
  repr = λ (t : String). t;
  lower = λ (t : String). t;
  type_name = λ k. "Error";
  read_text = λ (p : String). none;
  prompts = "/prompts";
  base_url = "http://127.0.0.1:12889";
  orchestrator_machine = "desktop";
  orchestrator_cwd = "";
  idle_seconds = 1800;
  machines = ("desktop", desktop) ∷ [];
  projects = ("harness", harness) ∷ [];
}

abbrev pub manager : PiSession
manager = record {
  id = "m";
  worker_id = none;
  parent_session_id = none;
  session_type = interactive;
  state = idle;
  task = "";
  cwd = "/home/me/harness";
  tmux_session = "";
  detail = "";
  role = "pm";
  token_hash = "h";
  question = "";
  meta = record empty_meta { project = some "harness"; machine = "desktop"; pane_id = "p" };
  name = "pm-harness";
  host = "desktop";
  agent = "omp";
  bridge_incarnation = some "first";
  terminal_attachable = false;
  terminal_host = "";
  terminal_port = 0;
  terminal_protocol_version = 0;
  has_pending_messages = false;
  last_seen = 0;
  created_at = 0;
  updated_at = 100;
}

abbrev pub world : World
world = record {
  store = record { sessions = manager ∷ []; events = []; commands = [] };
  sent = [];
  drawn = 0;
}

abbrev a_task : LaunchRequest
a_task = record {
  role = task;
  machine = desktop;
  cwd = "/home/me/harness";
  project_name = "harness";
  repo = "/home/me/harness";
  remote = "me/harness";
  base_branch = "main";
}

launch-RunsLast_example : RunsLast (launch env a_task "fix" "do it" (some "m") "")
launch-RunsLast_example = launch-RunsLast env a_task "fix" "do it" (some "m") ""

create_worktree-Ends_example :
    let (r, after) = create_worktree env desktop "/home/me/harness" "fix" "main" world in
    Ends env desktop "/home/me/harness" "main" (attempts "fix") [] r after.sent
create_worktree-Ends_example =
    create_worktree-Ends env desktop "/home/me/harness" "fix" "main" world

herdr_agent_name-IsAgentName_example :
    IsAgentName (herdr_agent_name (λ (t : String). t) "task-worker/harness")
herdr_agent_name-IsAgentName_example =
    herdr_agent_name-IsAgentName (λ (t : String). t) "task-worker/harness"

abbrev reviewed_task : PiSession
reviewed_task = record manager {
  id = "t";
  role = "task";
  parent_session_id = some "m";
  meta = record (manager.meta) {
    pr_url = "https://github.com/me/harness/pull/1";
    worktree = "/w";
    branch = "fix";
  };
}

launch_task-refused_example :
    IsManager harness world.store "t"
    ⊎ (((e : Exception) × ((launch_task env harness "fix" "do it" "t" world).0 ≡ raise e))
        × ((launch_task env harness "fix" "do it" "t" world).1.sent ≡ []))
launch_task-refused_example = launch_task-refused env harness "fix" "do it" "t" world

poll_session-Polls_example :
    ((current : PiSession) × IsRetirable env world.store "m" manager current
      × Extends (OnlyPane current.meta.pane_id) [] (poll_session env [] manager world).1.sent)
    ⊎ Extends NoClose [] (poll_session env [] manager world).1.sent
poll_session-Polls_example = poll_session-Polls env [] manager world

one_manager :
    find_where is_live (select (of_project "harness") (list_pi_sessions_by_role "pm" world.store))
    ≡ some manager
unfolding find_where select list_pi_sessions_by_role order_by insert_by string_discrete
one_manager = refl

ensure_pm-NoStart_example : Extends NoStart [] (ensure_pm env "harness" world).1.sent
ensure_pm-NoStart_example = ensure_pm-NoStart env "harness" world one_manager

fresh : IsFree "id" world.store.sessions
unfolding exists_where string_discrete
fresh = refl

abbrev a_manager : LaunchRequest
a_manager = record a_task { role = pm }

abbrev unreadable : Exception
unreadable = record { kind = runtime_error; text = "cannot read required prompt: /prompts/pm.md" }

failed_launch : (launch env a_manager "" "" none "" world).0 ≡ raise unreadable
unfolding launch launch_as launch_at check_request new_token new_id unless bind recover request
    launch_spec start_in_pane insert_session written insert_pi_session prompted abandon mark_failed
    record_event insert_event finish_pi_session close_after_failed_launch best_effort prompt_path
    exists_where update_where max_where string_discrete new_session
failed_launch = refl

launch-IsOver_example : IsOver "id" (launch env a_manager "" "" none "" world).1.store.sessions
launch-IsOver_example =
    launch-IsOver env (λ before m pane e h. absurd (ground arith)) a_manager "" "" none "" world
      unreadable fresh failed_launch
