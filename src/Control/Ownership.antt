-- ===== src/Control/Ownership.antt =====
-- Whose worktree a manager can tear down.
use worker_harness.Base.{
  String, Bool, true, Option, none, some, ◌≡◌, ◌⊎◌, inl, inr, refl, Bool-cases,
}
use worker_harness.PiSessions.{PiSession, get_pi_session}
use worker_harness.Fleet.Action.{
  Outcome, ok, raise, Env, World, Action, Done, bind, recover, is_worktree, or_throw,
}
use worker_harness.Fleet.Guards.{MayRemove, teardown_task-Removes}
use worker_harness.Fleet.Phases.{NoRemoval}
use worker_harness.Fleet.Removals.{OnlyWorktree, teardown_task-OnlyWorktree}
use worker_harness.Fleet.Stopping.{teardown_task}
use worker_harness.Fleet.Traces.{Extends, Extends-refl}
use worker_harness.Control.Messages.{is_own_task, in_own_project, refuse}
use worker_harness.Control.Tasks.{check_own_task, require_session, pi_session_teardown}

-- What a teardown over HTTP may rest on when it removes a worktree.
pub record MayTearDown (env : Env) (x : String) (force : Bool) (caller : PiSession) (w : World)
    : Type 0 where
  pub target : PiSession
  pub found : get_pi_session x w.store ≡ some target
  pub own : is_own_task caller target ≡ true
  pub own_project : in_own_project caller target ≡ true
  pub removable : MayRemove env w.sent target force

-- An answer 409 leaves everything as the refusal left it.
recover_unchanged :
    (r : Outcome Done × World) → (recover is_worktree (λ e. refuse 409 e.text) r).1 ≡ r.1
unfolding recover
recover_unchanged (ok a, w) = refl
recover_unchanged (raise e, w) = elim (Bool-cases (is_worktree e.kind)) [
  | inl refused ↦ rw refused refl
  | inr other ↦ rw other refl
]

module _ (env : Env) (x : String) (force : Bool) (caller : PiSession) (w : World) where
  TearsDown : Outcome Done × World → Type 0
  TearsDown r =
      ((may : MayTearDown env x force caller w) × Extends (OnlyWorktree may.target) w.sent r.1.sent)
      ⊎ Extends NoRemoval w.sent r.1.sent

  abbrev torn : PiSession → Outcome Done × World
  torn t = recover is_worktree (λ e. refuse 409 e.text) (teardown_task env t force w)

  own_torn :
      (t : PiSession)
      → get_pi_session x w.store ≡ some t
      → is_own_task caller t ≡ true
      → in_own_project caller t ≡ true
      → TearsDown (torn t)
  unfolding TearsDown
  own_torn t found own own_project = elim (teardown_task-Removes env t force w) [
    | inl may ↦ inl (
      record { target = t; found = found; own = own; own_project = own_project; removable = may },
      rw (recover_unchanged (teardown_task env t force w))
          ((teardown_task-OnlyWorktree env t force).extends w),
    )
    | inr sent ↦ inr (rw (recover_unchanged (teardown_task env t force w)) sent)
  ]

  abbrev attempt : PiSession → Action Done
  attempt t v = recover is_worktree (λ e. refuse 409 e.text) (teardown_task env t force v)

  found_torn :
      (t : PiSession)
      → get_pi_session x w.store ≡ some t
      → TearsDown (bind (check_own_task caller t w) (λ _. attempt t))
  unfolding check_own_task bind TearsDown
  found_torn t found = elim (Bool-cases (is_own_task caller t)) [
    | inr other ↦ rw other (inr (Extends-refl NoRemoval w.sent))
    | inl own ↦ elim (Bool-cases (in_own_project caller t)) [
      | inr foreign ↦ rw (own, foreign) (inr (Extends-refl NoRemoval w.sent))
      | inl own_project ↦
          rw (own, own_project) (unfold TearsDown in own_torn t found own own_project)
    ]
  ]

  target_by :
      (o : Option PiSession)
      → get_pi_session x w.store ≡ o
      → TearsDown
          (bind (require_session o w) (λ t v. bind (check_own_task caller t v) (λ _. attempt t)))
  unfolding require_session or_throw bind TearsDown
  target_by none e = inr (Extends-refl NoRemoval w.sent)
  target_by (some t) e = found_torn t e

  pub pi_session_teardown-Removes :
      ((may : MayTearDown env x force caller w) × Extends
          (OnlyWorktree may.target)
          w.sent
          (pi_session_teardown env x force caller w).1.sent)
      ⊎ Extends NoRemoval w.sent (pi_session_teardown env x force caller w).1.sent
  unfolding pi_session_teardown TearsDown bind
  pi_session_teardown-Removes = target_by (get_pi_session x w.store) refl
