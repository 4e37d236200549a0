-- ===== src/Fleet/Sessions.antt =====
-- src/worker_harness/orchestration.py: what a launch and a stop do to the row of a session, and the
-- clean-up on its machine.
use worker_harness.Base.{
  ℕ, String, false, ◌||◌, Option, none, some, List, [], ◌∷◌, if◌then◌else◌, is_empty, text_append,
}
use worker_harness.Dict
use worker_harness.Machines.{Machine, session_dir}
use worker_harness.PiSessions
use worker_harness.PiSessions.{
  PiSession, PiSessionState, starting, failed, PiSessionCommand, Payload, Store, insert_event,
  insert_pi_session, finish_pi_session, next_pi_session_pane_sequence, empty_meta,
}
use worker_harness.PiSessions.Commands.{enqueue_pi_session_command}
use worker_harness.Fleet.Action.{
  key_error, integrity_error, Exception, ok, raise, Call, remove_file, pane_close, report_agent,
  release_agent, Env, Action, Done, pure, throw, or_throw, rethrow, modify, catch, is_remote,
  is_worktree, unless, ◌>>=◌, ◌>>◌, request, new_id,
}
use worker_harness.Fleet.Names.{role_name, LaunchSpec, herdr_agent_name}
use worker_harness.Fleet.Worktrees.{destroy_worktree}

-- `str(session.meta.get("machine") or session.host)`
abbrev pub machine_name : PiSession → String
machine_name s = if is_empty s.meta.machine then s.host else s.meta.machine

abbrev pub or_nothing : Option String → String
or_nothing none = ""
or_nothing (some text) = text

module _ (env : Env) where
  unfoldable pub session_machine : PiSession → Action Machine
  session_machine s =
      or_throw key_error (text_append "unknown machine " (env.repr (machine_name s)))
        (Dict.get (machine_name s) env.machines)

  abbrev pub agent_of : PiSession → String
  agent_of s = herdr_agent_name env.lower s.name

  abbrev insert_new : String → String → Payload → String → Action Done
  insert_new x event_type payload id = modify (λ st.
      (insert_event
        (record {
          id = id;
          session_id = x;
          event_type = event_type;
          payload = payload;
          created_at = env.now;
          sequence = 0;
        })
        st).1)

  unfoldable pub record_event : String → String → List (String × String) → Action Done
  record_event x event_type payload = do
    id ← new_id env
    insert_new x event_type (record { rest = env.json payload; message_id = none; question = none })
        id

  -- The row, and then the event.
  unfoldable pub mark_failed : PiSession → Exception → String → Action Done
  mark_failed s e event_type = do
    modify (finish_pi_session s.id failed e.text env.now)
    record_event s.id event_type (("detail", e.text) ∷ ("error_type", env.type_name e.kind) ∷ [])

  unfoldable pub remote_cleanup_error : PiSession → String → Exception → Action Done
  remote_cleanup_error s operation e =
      record_event s.id "herdr-error" (("operation", operation) ∷ ("detail", e.text) ∷ [])

  -- A remote call whose failure is recorded and then ignored.
  unfoldable pub best_effort : PiSession → String → Action Done → Action Done
  best_effort s operation m = catch is_remote (λ e. remote_cleanup_error s operation e) m

  abbrev pub ask : Machine → Call → Action Done
  ask m call = do request env m call; pure tt

  unfoldable pub close_after_failed_launch : Machine → PiSession → Action Done
  unfolding best_effort
  close_after_failed_launch m s = do
    unless (is_empty s.meta.pane_id)
        (best_effort s "pane-close" (ask m (pane_close s.meta.pane_id)))
    best_effort s "remove-cache" (ask m (remove_file s.meta.cache_dir))

  unfoldable pub cleanup_failed_worktree : PiSession → Action Done
  cleanup_failed_worktree s = unless (is_empty s.meta.worktree || is_empty s.meta.branch) (do
    m ← session_machine s
    catch is_worktree
        (λ e.
          record_event s.id "teardown-failed"
            (("operation", "destroy-worktree") ∷ ("detail", e.text) ∷ []))
        (destroy_worktree env m s.meta.repo s.meta.worktree s.meta.branch))

  unfoldable pub numbered : String → PiSessions.Result ℕ × Store → Action ℕ
  numbered x (PiSessions.ok n, st) w = (ok n, record w { store = st })
  numbered x (PiSessions.raise e, st) w =
      (raise (record { kind = key_error; text = env.repr x }), record w { store = st })

  unfoldable pub next_sequence : String → Action ℕ
  unfolding numbered
  next_sequence x w = numbered x (next_pi_session_pane_sequence x w.store) w

  unfoldable pub report_state : PiSession → String → String → Action Done
  report_state s state message = do
    m ← session_machine s
    sequence ← next_sequence s.id
    catch is_remote
        (λ e. do
          record_event s.id "herdr-error"
              (("operation", "report-state") ∷ ("state", state) ∷ ("detail", e.text) ∷ [])
          rethrow e)
        (ask m (
          report_agent s.meta.pane_id state (agent_of s) sequence message
            (or_nothing s.meta.resume_path)))

  -- `release_agent` with a fresh sequence number, best effort.
  unfoldable pub release : Machine → PiSession → Action Done
  unfolding best_effort
  release m s =
      best_effort s "release-agent" (do
        sequence ← next_sequence s.id
        ask m (release_agent s.meta.pane_id (agent_of s) sequence))

  unfoldable pub new_session :
      LaunchSpec
      → String
      → String
      → Option String
      → String
      → String
      → String
      → String
      → String
      → String
      → PiSession
  new_session spec x token_hash parent briefing worktree branch workspace_id pane_id resume_path =
      let cache_dir = session_dir spec.machine x in
      record {
        id = x;
        worker_id = none;
        parent_session_id = parent;
        session_type = spec.session_type;
        state = starting;
        task = briefing;
        cwd = spec.cwd;
        tmux_session = "";
        detail = "";
        role = role_name spec.role;
        token_hash = token_hash;
        question = "";
        meta = record {
          pane_sequence = 0;
          project = some spec.project_name;
          resume_path = some resume_path;
          machine = spec.machine.name;
          workspace_id = workspace_id;
          pane_id = pane_id;
          repo = spec.repo;
          remote = spec.remote;
          worktree = worktree;
          branch = branch;
          pr_url = "";
          cache_dir = cache_dir;
          paths_file = text_append cache_dir "/sandbox-paths";
          prompt_file =
              text_append cache_dir
                (text_append "/" (text_append (role_name spec.role) "-prompt.md"));
        };
        name = spec.name;
        host = spec.machine.name;
        agent = "omp";
        bridge_incarnation = none;
        terminal_attachable = false;
        terminal_host = "";
        terminal_port = 0;
        terminal_protocol_version = 0;
        has_pending_messages = false;
        last_seen = 0;
        created_at = env.now;
        updated_at = env.now;
      }

  -- The new tables, or the IntegrityError of a key that is taken.
  unfoldable pub written : String → Option Store → Action Done
  written key none = throw integrity_error key
  written key (some st) = modify (λ _. st)

  unfoldable pub insert_session : PiSession → Action Done
  insert_session s w = written s.id (insert_pi_session s w.store) w

  abbrev command_for : PiSession → String → String → PiSessionCommand
  command_for s briefing id = record {
    id = id;
    session_id = s.id;
    kind = "prompt";
    message = briefing;
    deliver_as = "steer";
    payload = record { rest = "{}"; message_id = none; question = none };
    created_at = env.now;
    claimed_at = 0;
    claimed_by = "";
    delivered_at = 0;
  }

  unfoldable pub enqueue_command : PiSessionCommand → Action Done
  enqueue_command c w = written c.id (enqueue_pi_session_command c env.now w.store) w

  unfoldable pub enqueue_briefing : PiSession → String → Action Done
  unfolding enqueue_command
  enqueue_briefing s briefing = do
    id ← new_id env
    enqueue_command (command_for s briefing id)
    record_event s.id "prompt-queued" (("command_id", id) ∷ ("deliver_as", "steer") ∷ [])
