-- ===== src/Fleet/Rows.antt =====
-- Actions that leave the rows of the sessions alone.
use worker_harness.Base.{
  String, Bool, true, false, Option, none, some, List, [], ◌∷◌, ◌≡◌, refl, ◌∙◌, arith, inl, inr,
  Bool-cases,
}
use worker_harness.Machines.{Machine}
use worker_harness.PiSessions.{PiSession, insert_event}
use worker_harness.Fleet.Action.{
  Kind, Exception, Outcome, ok, raise, Call, or_throw, Env, World, Action, Done, pure, rethrow,
  recover, catch, bind, unless, ◌>>=◌, request, new_id,
}
use worker_harness.Fleet.Sessions.{
  session_machine, record_event, remote_cleanup_error, best_effort, ask, close_after_failed_launch,
  cleanup_failed_worktree,
}
use worker_harness.Fleet.Worktrees.{try_branches, destroy_worktree}
use worker_harness.Fleet.Launch.{read_pane, check_request, new_token}
use worker_harness.Fleet.Names.{LaunchRequest}

pub record SameRows {A : Type 0} (m : Action A) : Type 0 where
  pub same : (w : World) → (m w).1.store.sessions ≡ w.store.sessions

bind-same :
    {A B : Type 0} (rows : List PiSession) (r : Outcome A × World) (f : A → Action B)
    → r.1.store.sessions ≡ rows
    → ((a : A) → SameRows (f a))
    → (bind r f).1.store.sessions ≡ rows
unfolding bind
bind-same rows (ok a, w) f h k = (k a).same w ∙ h
bind-same rows (raise e, w) f h k = h

pub SameRows-bind :
    {A B : Type 0} {m : Action A} {f : A → Action B}
    → SameRows m
    → ((a : A) → SameRows (f a))
    → SameRows (m >>= f)
SameRows-bind {m = m} {f = f} h k = record { same = λ w. bind-same _ (m w) f (h.same w) k }

recover-same :
    {A : Type 0} (rows : List PiSession) (r : Outcome A × World) (handles : Kind → Bool)
    (handler : Exception → Action A)
    → r.1.store.sessions ≡ rows
    → ((e : Exception) → SameRows (handler e))
    → (recover handles handler r).1.store.sessions ≡ rows
unfolding recover
recover-same rows (ok a, w) handles handler h k = h
recover-same rows (raise e, w) handles handler h k = elim (Bool-cases (handles e.kind)) [
  | inl yes_it ↦ rw yes_it ((k e).same w ∙ h)
  | inr no_it ↦ rw no_it h
]

pub SameRows-catch :
    {A : Type 0} (handles : Kind → Bool) {handler : Exception → Action A} {m : Action A}
    → ((e : Exception) → SameRows (handler e))
    → SameRows m
    → SameRows (catch handles handler m)
SameRows-catch handles {handler} {m} k h = record {
  same = λ w. recover-same _ (m w) handles handler (h.same w) k;
}

pub SameRows-pure : {A : Type 0} (a : A) → SameRows (pure a)
SameRows-pure a = record { same = λ w. refl }

pub SameRows-raise : {A : Type 0} (e : Exception) → SameRows (rethrow {A = A} e)
SameRows-raise e = record { same = λ w. refl }

pub SameRows-unless : (b : Bool) {m : Action Done} → SameRows m → SameRows (unless b m)
unfolding unless
SameRows-unless true h = record { same = λ w. refl }
SameRows-unless false h = record { same = h.same }

SameRows-or_throw :
    {A : Type 0} (kind : Kind) (text : String) (o : Option A) → SameRows (or_throw kind text o)
unfolding or_throw
SameRows-or_throw kind text none = record { same = λ w. refl }
SameRows-or_throw kind text (some a) = record { same = λ w. refl }

module _ (env : Env) where
  pub request-SameRows : (m : Machine) (call : Call) → SameRows (request env m call)
  unfolding request
  request-SameRows m call = record { same = λ w. refl }

  ask-SameRows : (m : Machine) (call : Call) → SameRows (ask env m call)
  ask-SameRows m call = SameRows-bind (request-SameRows m call) (λ _. SameRows-pure tt)

  pub new_id-SameRows : SameRows (new_id env)
  unfolding new_id
  new_id-SameRows = record { same = λ w. refl }

  pub record_event-SameRows :
      (x t : String) (p : List (String × String)) → SameRows (record_event env x t p)
  unfolding record_event insert_event
  record_event-SameRows x t p =
      SameRows-bind new_id-SameRows (λ id. record { same = λ w. ground arith })

  best_effort-SameRows :
      (s : PiSession) (operation : String) {m : Action Done}
      → SameRows m
      → SameRows (best_effort env s operation m)
  unfolding best_effort remote_cleanup_error
  best_effort-SameRows s operation h = SameRows-catch _ (λ e. record_event-SameRows _ _ _) h

  pub close_after_failed_launch-SameRows :
      (m : Machine) (s : PiSession) → SameRows (close_after_failed_launch env m s)
  unfolding close_after_failed_launch
  close_after_failed_launch-SameRows m s =
      SameRows-bind (SameRows-unless _ (best_effort-SameRows s _ (ask-SameRows m _)))
        (λ _. best_effort-SameRows s _ (ask-SameRows m _))

  destroy_worktree-SameRows :
      (m : Machine) (repo path branch : String) → SameRows (destroy_worktree env m repo path branch)
  unfolding destroy_worktree
  destroy_worktree-SameRows m repo path branch =
      SameRows-bind (SameRows-catch _ (λ e. SameRows-raise _) (request-SameRows m _))
        (λ _. SameRows-catch _ (λ _. SameRows-pure tt) (ask-SameRows m _))

  pub cleanup_failed_worktree-SameRows : (s : PiSession) → SameRows (cleanup_failed_worktree env s)
  unfolding cleanup_failed_worktree session_machine
  cleanup_failed_worktree-SameRows s = SameRows-unless _ (
      SameRows-bind (SameRows-or_throw _ _ _) (λ m.
        SameRows-catch _ (λ e. record_event-SameRows _ _ _) (destroy_worktree-SameRows m _ _ _)))

  pub read_pane-SameRows : (m : Machine) (s : PiSession) → SameRows (read_pane env m s)
  unfolding read_pane
  read_pane-SameRows m s =
      SameRows-catch _ (λ e. SameRows-bind (record_event-SameRows _ _ _) (λ _. SameRows-pure _))
        (SameRows-bind (request-SameRows m _) (λ r. SameRows-pure _))

  pub try_branches-SameRows :
      (m : Machine) (repo branch base : String) (names : List String)
      → SameRows (try_branches env m repo branch base names)
  unfolding try_branches
  try_branches-SameRows m repo branch base [] = SameRows-raise _
  try_branches-SameRows m repo branch base (name ∷ names) =
      SameRows-catch _ (λ _. try_branches-SameRows m repo branch base names)
        (SameRows-bind (request-SameRows m _) (λ _. SameRows-pure _))

  pub check_request-SameRows :
      (r : LaunchRequest) (path : String) → SameRows (check_request env r path)
  unfolding check_request
  check_request-SameRows r path =
      SameRows-bind (SameRows-unless _ (SameRows-raise _))
        (λ _. SameRows-unless _ (SameRows-raise _))

  pub new_token-SameRows : SameRows (new_token env)
  unfolding new_token
  new_token-SameRows = record { same = λ w. refl }
