-- ===== src/Fleet/Launch.antt =====
-- src/worker_harness/orchestration.py: `_launch` and `_wait_for_bridge`.
use Prim.Native.String.{◌∷◌ as cons}
use worker_harness.Base.{
  ℕ, zero, suc, ◌+◌, String, Bool, true, false, ◌&&◌, ◌||◌, not, Option, none, some, List, [], ◌∷◌,
  ◌++◌, ◌==◌, string_eq, if◌then◌else◌, is_empty, strip, text_append,
}
use worker_harness.Machines.{Machine}
use worker_harness.Paths.{parse_path, mem_text, is_relative_to}
use worker_harness.PiSessions.{
  PiSession, PiSessionState, stopped, failed, finish_pi_session, get_pi_session,
}
use worker_harness.Shell.{quote}
use worker_harness.Fleet.Action.{
  runtime_error, timeout_error, value_error, Exception, ok, workspace_create, write_file, pane_run,
  pane_read, agent_rename, report_metadata, Env, Action, Done, pure, throw, rethrow, gets, modify,
  catch, unless, is_remote, is_herdr, is_worktree, is_cancelled, any_kind, ◌>>=◌, ◌>>◌, request,
  new_id,
}
use worker_harness.Fleet.Names.{Role, orchestrator, task, LaunchRequest, LaunchSpec, launch_spec}
use worker_harness.Fleet.Sandbox.{paths_file_content, launch_command}
use worker_harness.Fleet.Sessions.{
  agent_of, ask, record_event, mark_failed, close_after_failed_launch, cleanup_failed_worktree,
  report_state, new_session, insert_session, enqueue_briefing,
}
use worker_harness.Fleet.Worktrees.{create_worktree}

-- `_TERMINAL_PM_STATES`
abbrev pub is_terminal : PiSessionState → Bool
is_terminal stopped = true
is_terminal failed = true
is_terminal _ = false

-- `s.endswith(t)`
unfoldable pub ends_with : String → String → Bool
ends_with t String.[] = is_empty t
ends_with t (cons c s) = cons c s == t || ends_with t s

-- `path.suffix == ".jsonl"`: the name has something in front of its last dot.
abbrev is_jsonl_name : String → Bool
is_jsonl_name String.[] = false
is_jsonl_name (cons c s) = ends_with ".jsonl" s

unfoldable pub is_jsonl : List String → Bool
is_jsonl [] = false
is_jsonl (x ∷ []) = is_jsonl_name x
is_jsonl (x ∷ y ∷ ys) = is_jsonl (y ∷ ys)

unfoldable pub is_transcript : Machine → String → Bool
is_transcript m path =
    let home = parse_path m.home in
    let root = record home { parts = home.parts ++ ".omp" ∷ "agent" ∷ "sessions" ∷ [] } in
    let transcript = parse_path path in
    is_relative_to transcript root
    && not (mem_text ".." transcript.parts)
    && is_jsonl transcript.parts

abbrev pub is_task : Role → Bool
is_task task = true
is_task _ = false

abbrev pub is_orchestrator : Role → Bool
is_orchestrator orchestrator = true
is_orchestrator _ = false

-- `if current.bridge_incarnation`
abbrev pub is_bridged : PiSession → Bool
is_bridged s = elim s.bridge_incarnation [ none ↦ false | some i ↦ not (is_empty i) ]

module _ (env : Env) where
  -- `secrets.token_urlsafe(32)`
  unfoldable pub new_token : Action String
  new_token w = (ok (env.token w.drawn), record w { drawn = w.drawn + 1 })

  -- What is left of a failed launch: the row is failed and the pane is closed; the worktree is
  -- removed only if the launch line cannot have run.
  unfoldable pub abandon : {A : Type 0} → Machine → PiSession → Bool → Exception → Action A
  abandon m s launch_attempted e = do
    mark_failed env s e "launch-failed"
    close_after_failed_launch env m s
    unless (is_empty s.meta.worktree || launch_attempted) (cleanup_failed_worktree env s)
    rethrow e

  -- A launch that fails before it has a pane: a failed row is inserted.
  unfoldable pub never_started : {A : Type 0} → PiSession → Exception → Action A
  never_started s e = do
    insert_session env s
    mark_failed env s e "launch-failed"
    unless (is_empty s.meta.worktree) (cleanup_failed_worktree env s)
    rethrow e

  -- The pane output for the event of a timeout.
  unfoldable pub read_pane : Machine → PiSession → Action String
  read_pane m s =
      catch is_remote
        (λ e. do
          record_event env s.id "herdr-error" (("operation", "pane-read") ∷ ("detail", e.text) ∷ [])
          pure (text_append "<pane read failed: " (text_append e.text ">")))
        (do r ← request env m (pane_read s.meta.pane_id); pure r.text)

  unfoldable pub bridge_timeout : Machine → PiSession → Action PiSession
  bridge_timeout m s = do
    output ← read_pane m s
    let text = text_append "agent session " (text_append s.id " did not register within 60 seconds")
    modify (finish_pi_session s.id failed text env.now)
    close_after_failed_launch env m s
    record_event env s.id "launch-failed" (("detail", text) ∷ ("pane_output", output) ∷ [])
    throw timeout_error text

  unfoldable pub stopped_early : Machine → PiSession → Action PiSession
  stopped_early m current = do
    close_after_failed_launch env m current
    throw runtime_error (
        if is_empty current.detail
        then text_append "agent session " (text_append current.id " stopped during launch")
        else current.detail)

  -- What one poll makes of the row; `sleep` is the rest of the loop.
  unfoldable pub polled : Machine → Action PiSession → Option PiSession → Action PiSession
  polled m sleep none = sleep
  polled m sleep (some current) =
      if is_terminal current.state
      then stopped_early m current
      else if is_bridged current
      then pure current
      else sleep

  -- The poll loop, with the polls left before the deadline and the number of the next sleep.
  unfoldable pub wait_polls : ℕ → ℕ → Machine → PiSession → Action PiSession
  unfolding polled
  wait_polls zero n m s = bridge_timeout m s
  wait_polls (suc left) n m s =
      let sleep : Action PiSession = modify (env.between n) >> wait_polls left (n + 1) m s in
      do found ← gets (get_pi_session s.id); polled m sleep found

  unfoldable pub wait_for_bridge : Machine → PiSession → Action PiSession
  wait_for_bridge m s = wait_polls env.polls 0 m s

  -- The part of the `try` block before `launch_attempted = True`.
  unfoldable pub write_files : Machine → PiSession → Role → String → String → Action Done
  write_files m s role prompt command = do
    ask env m (write_file s.meta.paths_file (paths_file_content role m.home))
    ask env m (write_file s.meta.prompt_file prompt)
    ask env m (write_file (text_append s.meta.cache_dir "/launch.sh") (text_append command "\n"))

  unfoldable pub rename_pane : Machine → PiSession → Action Done
  rename_pane m s =
      catch is_herdr
        (λ e.
          record_event env s.id "herdr-error"
            (("operation", "agent-rename") ∷ ("detail", e.text) ∷ []))
        (ask env m (agent_rename s.meta.pane_id (agent_of env s)))

  -- The part of the `try` block after it.
  unfoldable pub run_agent : Machine → PiSession → Role → String → Action Done
  unfolding rename_pane
  run_agent m s role briefing = do
    ask env m (
        pane_run s.meta.pane_id
          (text_append "exec /bin/sh " (quote (text_append s.meta.cache_dir "/launch.sh"))))
    unless (not (is_task role)) (enqueue_briefing env s briefing)
    rename_pane m s
    report_state env s "working" ""
    ask env m (report_metadata s.meta.pane_id (agent_of env s) (text_append "π " s.name))

  -- The row is inserted, and the agent is started in its pane and waited for.
  unfoldable pub start_agent :
      Machine → PiSession → Role → String → String → String → Action PiSession
  unfolding write_files run_agent
  start_agent m s role prompt command briefing = do
    catch any_kind (abandon m s false) (write_files m s role prompt command)
    catch any_kind (abandon m s true) (run_agent m s role briefing)
    catch is_cancelled (abandon m s true) (wait_for_bridge m s)

  abbrev prompt_error : LaunchSpec → String → Exception
  prompt_error spec what = record { kind = runtime_error; text = text_append what spec.prompt_path }

  abbrev resume_flag : String → String
  resume_flag path = if is_empty path then "" else text_append " --resume " (quote path)

  unfoldable pub prompted :
      LaunchSpec → PiSession → String → String → Option String → Action PiSession
  unfolding start_agent
  prompted spec s command briefing none =
      abandon spec.machine s false (prompt_error spec "cannot read required prompt: ")
  prompted spec s command briefing (some prompt) =
      if is_empty (strip prompt)
      then abandon spec.machine s false (prompt_error spec "required prompt is empty: ")
      else start_agent spec.machine s spec.role prompt command briefing

  unfoldable pub start_in_pane :
      LaunchSpec → PiSession → String → String → String → Action PiSession
  unfolding prompted
  start_in_pane spec s token briefing resume_path = do
    insert_session env s
    let command =
        launch_command spec.machine spec.role s.meta.paths_file s.id token env.base_url
          s.meta.prompt_file spec.add_dirs
    prompted spec s (text_append command (resume_flag resume_path)) briefing
        (env.read_text spec.prompt_path)

  -- From the workspace on, with the worktree of a task or none.
  unfoldable pub launch_at :
      LaunchSpec
      → String
      → String
      → Option String
      → String
      → String
      → String
      → String
      → Action PiSession
  launch_at spec x token parent briefing worktree branch resume_path = do
    let row = new_session env spec x (env.sha256 token) parent briefing worktree branch
    r ←
        catch is_remote (λ e. never_started (row "" "" "") e)
          (request env spec.machine (workspace_create spec.cwd spec.label))
    start_in_pane spec (row r.workspace_id r.pane_id resume_path) token briefing resume_path

  unfoldable pub check_request : LaunchRequest → String → Action Done
  check_request r resume_path = do
    unless (is_empty resume_path || is_transcript r.machine resume_path)
        (throw value_error "resume path must be a transcript under the agent sessions")
    unless (is_orchestrator r.role || not (is_empty r.project_name || is_empty r.repo))
        (throw value_error "launch requires project name and repository")

  -- From the fresh id and token on.
  unfoldable pub launch_as :
      LaunchRequest → String → String → Option String → String → String → String → Action PiSession
  launch_as r branch briefing parent resume_path x token =
      let spec = launch_spec env.prompts r r.cwd branch in
      if is_task r.role
      then (do
        (worktree, actual) ←
            catch is_worktree
              (never_started
                (new_session env spec x (env.sha256 token) parent briefing "" branch "" "" ""))
              (create_worktree env r.machine r.repo branch r.base_branch)
        launch_at (launch_spec env.prompts r worktree actual) x token parent briefing worktree
            actual resume_path)
      else if is_orchestrator r.role
      then launch_at spec x token none "" "" "" resume_path
      else launch_at spec x token parent briefing "" "" resume_path

  -- `_launch`; no resume path is the empty text.
  unfoldable pub launch :
      LaunchRequest → String → String → Option String → String → Action PiSession
  unfolding check_request launch_as
  launch r branch briefing parent resume_path = do
    check_request r resume_path
    x ← new_id env
    token ← new_token
    launch_as r branch briefing parent resume_path x token
