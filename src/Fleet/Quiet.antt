-- ===== src/Fleet/Quiet.antt =====
-- The actions on sessions send none of the calls that start an agent or remove a worktree.
use worker_harness.Base.{ℕ, String, Bool, true, false, ◌||◌, Option, none, some, List, ◌≡◌, refl}
use worker_harness.Machines.{Machine}
use worker_harness.PiSessions
use worker_harness.PiSessions.{PiSession, Store, insert_pi_session, next_pi_session_pane_sequence}
use worker_harness.Fleet.Action.{
  Kind, Exception, or_throw, Call, worktree_remove, branch_delete, pane_run, workspace_create,
  report_agent, Env, World, Action, Done,
}
use worker_harness.Fleet.Sessions.{
  session_machine, record_event, mark_failed, remote_cleanup_error, best_effort, ask,
  close_after_failed_launch, next_sequence, report_state, release, insert_session, enqueue_briefing,
  numbered, written,
}
use worker_harness.Fleet.Traces.{
  Extends-refl, Sends, Sends-bind, Sends-catch, Sends-pure, Sends-raise, Sends-modify, Sends-unless,
  Sends-request, Extends, Sends-new_id,
}

-- `git worktree remove` and `git branch -D`
abbrev pub is_removal : Call → Bool
is_removal (worktree_remove repo path) = true
is_removal (branch_delete repo branch) = true
is_removal _ = false

abbrev pub is_run : Call → Bool
is_run (pane_run pane command) = true
is_run _ = false

abbrev pub is_create : Call → Bool
is_create (workspace_create cwd label) = true
is_create _ = false

abbrev pub IsNeutral : Call → Type 0
IsNeutral c = (is_removal c || is_run c || is_create c) ≡ false

module _ (P : Call → Type 0) (env : Env) where
  Sends-or_throw :
      {A : Type 0} (kind : Kind) (text : String) (o : Option A) → Sends P (or_throw kind text o)
  unfolding or_throw
  Sends-or_throw kind text none = Sends-raise P _
  Sends-or_throw kind text (some a) = Sends-pure P a

  pub session_machine-Sends : (s : PiSession) → Sends P (session_machine env s)
  unfolding session_machine
  session_machine-Sends s = Sends-or_throw _ _ _

  pub ask-Sends : (m : Machine) (call : Call) → P call → Sends P (ask env m call)
  ask-Sends m call p = Sends-bind P (Sends-request P env m p) (λ _. Sends-pure P tt)

  pub record_event-Sends :
      (x event_type : String) (payload : List (String × String))
      → Sends P (record_event env x event_type payload)
  unfolding record_event
  record_event-Sends x event_type payload =
      Sends-bind P (Sends-new_id P env) (λ id. Sends-modify P _)

  pub mark_failed-Sends :
      (s : PiSession) (e : Exception) (t : String) → Sends P (mark_failed env s e t)
  unfolding mark_failed
  mark_failed-Sends s e t = Sends-bind P (Sends-modify P _) (λ _. record_event-Sends _ _ _)

  pub best_effort-Sends :
      (s : PiSession) (operation : String) {m : Action Done}
      → Sends P m
      → Sends P (best_effort env s operation m)
  unfolding best_effort remote_cleanup_error
  best_effort-Sends s operation h = Sends-catch P _ (λ e. record_event-Sends _ _ _) h

  numbered-Extends :
      (x : String) (r : PiSessions.Result ℕ × Store) (w : World)
      → Extends P w.sent (numbered env x r w).1.sent
  unfolding numbered
  numbered-Extends x (PiSessions.ok n, st) w = Extends-refl P w.sent
  numbered-Extends x (PiSessions.raise e, st) w = Extends-refl P w.sent

  pub next_sequence-Sends : (x : String) → Sends P (next_sequence env x)
  unfolding next_sequence
  next_sequence-Sends x = record { extends = λ w. numbered-Extends x _ w }

  written-Extends :
      (key : String) (o : Option Store) (w : World) → Extends P w.sent (written env key o w).1.sent
  unfolding written
  written-Extends key none w = Extends-refl P w.sent
  written-Extends key (some st) w = Extends-refl P w.sent

  pub insert_session-Sends : (s : PiSession) → Sends P (insert_session env s)
  unfolding insert_session
  insert_session-Sends s = record { extends = λ w. written-Extends s.id _ w }

  pub enqueue_briefing-Sends :
      (s : PiSession) (briefing : String) → Sends P (enqueue_briefing env s briefing)
  unfolding enqueue_briefing
  enqueue_briefing-Sends s briefing = Sends-bind P (Sends-new_id P env) (λ id.
      Sends-bind P (record { extends = λ w. written-Extends id _ w })
        (λ _. record_event-Sends _ _ _))

  pub report_state-Sends :
      ((pane state agent : String) (n : ℕ) (message path : String)
        → P (report_agent pane state agent n message path))
      → (s : PiSession) (state message : String) → Sends P (report_state env s state message)
  unfolding report_state
  report_state-Sends reports s state message = Sends-bind P (session_machine-Sends s) (λ m.
      Sends-bind P (next_sequence-Sends s.id) (λ n.
        Sends-catch P _ (λ e. Sends-bind P (record_event-Sends _ _ _) (λ _. Sends-raise P e))
          (ask-Sends m _ (reports _ _ _ _ _ _))))

module _ (P : Call → Type 0) (neutral : (c : Call) → IsNeutral c → P c) (env : Env) where
  pub close_after_failed_launch-Sends :
      (m : Machine) (s : PiSession) → Sends P (close_after_failed_launch env m s)
  unfolding close_after_failed_launch
  close_after_failed_launch-Sends m s =
      Sends-bind P
        (Sends-unless P _ (best_effort-Sends P env s _ (ask-Sends P env m _ (neutral _ refl))))
        (λ _. best_effort-Sends P env s _ (ask-Sends P env m _ (neutral _ refl)))

  pub release-Sends : (m : Machine) (s : PiSession) → Sends P (release env m s)
  unfolding release
  release-Sends m s =
      best_effort-Sends P env s _
        (Sends-bind P (next_sequence-Sends P env s.id) (λ n. ask-Sends P env m _ (neutral _ refl)))
