-- ===== src/Fleet/Kept.antt =====
-- A launch removes no worktree once the agent may run in it.
use worker_harness.Base.{
  String, Bool, true, false, ◌||◌, Option, none, some, List, [], ◌∷◌, refl, is_empty, strip,
}
use worker_harness.Machines.{Machine}
use worker_harness.PiSessions.{PiSession}
use worker_harness.Fleet.Action.{Exception, Env, Action, Done, unless}
use worker_harness.Fleet.Names.{LaunchRequest, LaunchSpec, Role}
use worker_harness.Fleet.Worktrees.{attempts, try_branches, create_worktree, destroy_worktree}
use worker_harness.Fleet.Sessions.{cleanup_failed_worktree}
use worker_harness.Fleet.Launch.{
  new_token, abandon, never_started, wait_for_bridge, write_files, rename_pane, run_agent,
  start_agent, prompted, start_in_pane, launch_at, check_request, launch_as, launch, is_task,
  is_orchestrator,
}
use worker_harness.Fleet.Waits.{wait_polls-Sends}
use worker_harness.Fleet.Phases.{
  NoRun, NoRemoval, neutral-NoRun, neutral-NoRemoval, RunsLast, RunsLast-before, RunsLast-after,
  RunsLast-bind, RunsLast-if,
}
use worker_harness.Fleet.Quiet.{
  session_machine-Sends, ask-Sends, record_event-Sends, mark_failed-Sends,
  close_after_failed_launch-Sends, report_state-Sends, insert_session-Sends, enqueue_briefing-Sends,
}
use worker_harness.Fleet.Traces.{
  Extends-refl, Sends, Sends-bind, Sends-catch, Sends-pure, Sends-raise, Sends-unless,
  Sends-request, Sends-new_id,
}

module _ (env : Env) where
  try_branches-NoRun :
      (m : Machine) (repo branch base : String) (names : List String)
      → Sends NoRun (try_branches env m repo branch base names)
  unfolding try_branches
  try_branches-NoRun m repo branch base [] = Sends-raise NoRun _
  try_branches-NoRun m repo branch base (name ∷ names) =
      Sends-catch NoRun _ (λ _. try_branches-NoRun m repo branch base names)
        (Sends-bind NoRun (Sends-request NoRun env m refl) (λ _. Sends-pure NoRun _))

  destroy_worktree-NoRun :
      (m : Machine) (repo path branch : String)
      → Sends NoRun (destroy_worktree env m repo path branch)
  unfolding destroy_worktree
  destroy_worktree-NoRun m repo path branch =
      Sends-bind NoRun
        (Sends-catch NoRun _ (λ e. Sends-raise NoRun _) (Sends-request NoRun env m refl))
        (λ _. Sends-catch NoRun _ (λ _. Sends-pure NoRun tt) (ask-Sends NoRun env m _ refl))

  cleanup_failed_worktree-NoRun : (s : PiSession) → Sends NoRun (cleanup_failed_worktree env s)
  unfolding cleanup_failed_worktree
  cleanup_failed_worktree-NoRun s = Sends-unless NoRun _ (
      Sends-bind NoRun (session_machine-Sends NoRun env s) (λ m.
        Sends-catch NoRun _ (λ e. record_event-Sends NoRun env _ _ _)
          (destroy_worktree-NoRun m _ _ _)))

  abandon-NoRun :
      {A : Type 0} (m : Machine) (s : PiSession) (attempted : Bool) (e : Exception)
      → Sends NoRun (abandon env {A = A} m s attempted e)
  unfolding abandon
  abandon-NoRun m s attempted e = Sends-bind NoRun (mark_failed-Sends NoRun env s e _) (λ _.
      Sends-bind NoRun (close_after_failed_launch-Sends NoRun neutral-NoRun env m s) (λ _.
        Sends-bind NoRun (Sends-unless NoRun _ (cleanup_failed_worktree-NoRun s))
          (λ _. Sends-raise NoRun e)))

  skipped-Sends : (b : Bool) (m : Action Done) → Sends NoRemoval (unless (b || true) m)
  unfolding unless
  skipped-Sends true m = record { extends = λ w. Extends-refl NoRemoval w.sent }
  skipped-Sends false m = record { extends = λ w. Extends-refl NoRemoval w.sent }

  -- After the launch line was sent the worktree stays.
  abandon-NoRemoval :
      {A : Type 0} (m : Machine) (s : PiSession) (e : Exception)
      → Sends NoRemoval (abandon env {A = A} m s true e)
  unfolding abandon unless
  abandon-NoRemoval m s e = Sends-bind NoRemoval (mark_failed-Sends NoRemoval env s e _) (λ _.
      Sends-bind NoRemoval (close_after_failed_launch-Sends NoRemoval neutral-NoRemoval env m s)
        (λ _.
          Sends-bind NoRemoval (skipped-Sends (is_empty s.meta.worktree) _)
            (λ _. Sends-raise NoRemoval e)))

  never_started-NoRun :
      {A : Type 0} (s : PiSession) (e : Exception) → Sends NoRun (never_started env {A = A} s e)
  unfolding never_started
  never_started-NoRun s e = Sends-bind NoRun (insert_session-Sends NoRun env s) (λ _.
      Sends-bind NoRun (mark_failed-Sends NoRun env s e _) (λ _.
        Sends-bind NoRun (Sends-unless NoRun _ (cleanup_failed_worktree-NoRun s))
          (λ _. Sends-raise NoRun e)))

  write_files-NoRun :
      (m : Machine) (s : PiSession) (role : Role) (prompt command : String)
      → Sends NoRun (write_files env m s role prompt command)
  unfolding write_files
  write_files-NoRun m s role prompt command =
      Sends-bind NoRun (ask-Sends NoRun env m _ refl)
        (λ _. Sends-bind NoRun (ask-Sends NoRun env m _ refl) (λ _. ask-Sends NoRun env m _ refl))

  run_agent-NoRemoval :
      (m : Machine) (s : PiSession) (role : Role) (briefing : String)
      → Sends NoRemoval (run_agent env m s role briefing)
  unfolding run_agent rename_pane
  run_agent-NoRemoval m s role briefing =
      Sends-bind NoRemoval (ask-Sends NoRemoval env m _ refl) (λ _.
        Sends-bind NoRemoval
          (Sends-unless NoRemoval _ (enqueue_briefing-Sends NoRemoval env s briefing))
          (λ _.
            Sends-bind NoRemoval
              (Sends-catch NoRemoval _ (λ e. record_event-Sends NoRemoval env _ _ _)
                (ask-Sends NoRemoval env m _ refl))
              (λ _.
                Sends-bind NoRemoval (report_state-Sends NoRemoval env (λ _ _ _ _ _ _. refl) s _ _)
                  (λ _. ask-Sends NoRemoval env m _ refl))))

  start_agent-RunsLast :
      (m : Machine) (s : PiSession) (role : Role) (prompt command briefing : String)
      → RunsLast (start_agent env m s role prompt command briefing)
  unfolding start_agent wait_for_bridge
  start_agent-RunsLast m s role prompt command briefing =
      RunsLast-bind
        (Sends-catch NoRun _ (abandon-NoRun m s false) (write_files-NoRun m s role prompt command))
        (λ _. RunsLast-after (
          Sends-bind NoRemoval
            (Sends-catch NoRemoval _ (abandon-NoRemoval m s)
              (run_agent-NoRemoval m s role briefing))
            (λ _.
              Sends-catch NoRemoval _ (abandon-NoRemoval m s)
                (wait_polls-Sends NoRemoval neutral-NoRemoval env env.polls 0 m s))))

  prompted-RunsLast :
      (spec : LaunchSpec) (s : PiSession) (command briefing : String) (o : Option String)
      → RunsLast (prompted env spec s command briefing o)
  unfolding prompted
  prompted-RunsLast spec s command briefing none = RunsLast-before (abandon-NoRun _ s false _)
  prompted-RunsLast spec s command briefing (some prompt) =
      RunsLast-if (is_empty (strip prompt)) (RunsLast-before (abandon-NoRun _ s false _))
        (start_agent-RunsLast _ s _ prompt command briefing)

  launch_at-RunsLast :
      (spec : LaunchSpec) (x token : String) (parent : Option String)
      (briefing worktree branch resume_path : String)
      → RunsLast (launch_at env spec x token parent briefing worktree branch resume_path)
  unfolding launch_at start_in_pane
  launch_at-RunsLast spec x token parent briefing worktree branch resume_path =
      RunsLast-bind
        (Sends-catch NoRun _ (λ e. never_started-NoRun _ e) (Sends-request NoRun env _ refl))
        (λ r.
          RunsLast-bind (insert_session-Sends NoRun env _)
            (λ _. prompted-RunsLast spec _ _ briefing _))

  check_request-NoRun : (r : LaunchRequest) (path : String) → Sends NoRun (check_request env r path)
  unfolding check_request
  check_request-NoRun r path =
      Sends-bind NoRun (Sends-unless NoRun _ (Sends-raise NoRun _))
        (λ _. Sends-unless NoRun _ (Sends-raise NoRun _))

  new_token-NoRun : Sends NoRun (new_token env)
  unfolding new_token
  new_token-NoRun = record { extends = λ w. Extends-refl NoRun w.sent }

  -- Of the calls that a launch sends, however it ends and whatever the machines answer, none removes
  -- a worktree or a branch after the call that starts the agent: once the launch line may have run,
  -- the checkout is kept.
  pub launch-RunsLast :
      (r : LaunchRequest) (branch briefing : String) (parent : Option String) (resume_path : String)
      → RunsLast (launch env r branch briefing parent resume_path)
  unfolding launch launch_as create_worktree
  launch-RunsLast r branch briefing parent resume_path =
      RunsLast-bind (check_request-NoRun r resume_path) (λ _.
        RunsLast-bind (Sends-new_id NoRun env) (λ x. RunsLast-bind new_token-NoRun (λ token.
          RunsLast-if (is_task r.role)
            (RunsLast-bind
              (Sends-catch NoRun _ (λ e. never_started-NoRun _ e)
                (try_branches-NoRun r.machine r.repo branch r.base_branch (attempts branch)))
              (λ made. launch_at-RunsLast _ x token parent briefing made.0 made.1 resume_path))
            (RunsLast-if (is_orchestrator r.role)
              (launch_at-RunsLast _ x token none "" "" "" resume_path)
              (launch_at-RunsLast _ x token parent briefing "" "" resume_path)))))
