-- ===== src/Fleet/Removals.antt =====
-- Which worktree a teardown can remove.
use worker_harness.Base.{Bool, not, ◌&&◌, ◌==◌, string_eq, is_empty, ◌≡◌, refl}
use worker_harness.Machines.{Machine}
use worker_harness.PiSessions.{PiSession}
use worker_harness.Fleet.Action.{Call, worktree_remove, branch_delete, Env}
use worker_harness.Fleet.Quiet.{
  session_machine-Sends, ask-Sends, record_event-Sends, mark_failed-Sends, best_effort-Sends,
  next_sequence-Sends,
}
use worker_harness.Fleet.Sessions.{release, remote_cleanup_error}
use worker_harness.Fleet.Stopping.{close_pane_of, dismantle, teardown_task}
use worker_harness.Fleet.Traces.{
  Sends, Sends-bind, Sends-catch, Sends-pure, Sends-raise, Sends-modify, Sends-unless, Sends-if,
  Sends-request,
}
use worker_harness.Fleet.Worktrees.{destroy_worktree}

-- The removal of the session's worktree or of its branch, or no removal.
abbrev pub OnlyWorktree : PiSession → Call → Type 0
OnlyWorktree s (worktree_remove repo path) = (repo ≡ s.meta.repo) × (path ≡ s.meta.worktree)
OnlyWorktree s (branch_delete repo branch) = (repo ≡ s.meta.repo) × (branch ≡ s.meta.branch)
OnlyWorktree s _ = Unit {0}

module _ (env : Env) (s : PiSession) where
  abbrev Own : Call → Type 0
  Own = OnlyWorktree s

  release-OnlyWorktree : (m : Machine) → Sends Own (release env m s)
  unfolding release
  release-OnlyWorktree m =
      best_effort-Sends Own env s _
        (Sends-bind Own (next_sequence-Sends Own env s.id) (λ n. ask-Sends Own env m _ tt))

  close_pane_of-OnlyWorktree : (m : Machine) → Sends Own (close_pane_of env m s)
  unfolding close_pane_of remote_cleanup_error
  close_pane_of-OnlyWorktree m =
      Sends-bind Own
        (Sends-catch Own _
          (λ e. Sends-bind Own (record_event-Sends Own env _ _ _) (λ _. Sends-raise Own _))
          (ask-Sends Own env m _ tt))
        (λ _. release-OnlyWorktree m)

  destroy_worktree-OnlyWorktree :
      (m : Machine) → Sends Own (destroy_worktree env m s.meta.repo s.meta.worktree s.meta.branch)
  unfolding destroy_worktree
  destroy_worktree-OnlyWorktree m =
      Sends-bind Own
        (Sends-catch Own _ (λ e. Sends-raise Own _) (Sends-request Own env m (refl, refl)))
        (λ _.
          Sends-catch Own _ (λ e. Sends-pure Own tt)
            (Sends-bind Own (Sends-request Own env m (refl, refl)) (λ _. Sends-pure Own tt)))

  dismantle-OnlyWorktree : (m : Machine) (force : Bool) → Sends Own (dismantle env m s force)
  unfolding dismantle
  dismantle-OnlyWorktree m force =
      Sends-bind Own (Sends-unless Own _ (close_pane_of-OnlyWorktree m)) (λ _.
        Sends-bind Own
          (Sends-catch Own _
            (λ e. Sends-bind Own (mark_failed-Sends Own env s e _) (λ _. Sends-raise Own e))
            (destroy_worktree-OnlyWorktree m))
          (λ _.
            Sends-bind Own (best_effort-Sends Own env s _ (ask-Sends Own env m _ tt))
              (λ _. Sends-bind Own (Sends-modify Own _) (λ _. record_event-Sends Own env _ _ _))))

  -- A teardown asks for no removal but that of the session's own worktree and branch.
  pub teardown_task-OnlyWorktree : (force : Bool) → Sends Own (teardown_task env s force)
  unfolding teardown_task
  teardown_task-OnlyWorktree force = Sends-if Own (not (s.role == "task")) (Sends-raise Own _) (
      Sends-if Own (is_empty s.meta.pr_url && not force) (Sends-raise Own _)
        (Sends-bind Own (session_machine-Sends Own env s) (λ m. dismantle-OnlyWorktree m force)))
