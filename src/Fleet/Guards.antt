-- ===== src/Fleet/Guards.antt =====
-- What the guards of teardown and of task launches refuse, and what a teardown needs.
use worker_harness.Base.{
  String, Option, ◌≢◌, ap, Bool, true, false, ◌&&◌, not, Option, none, some, [], ◌∷◌, ◌++◌, ◌≡◌,
  ◌⊎◌, inl, inr, refl, arith, ◌==◌, string_eq, is_empty, Bool-cases,
}
use worker_harness.Dict
use worker_harness.Machines.{Machine, Project}
use worker_harness.PiSessions.{PiSession, Store, stopped, failed, get_pi_session}
use worker_harness.Fleet.Action.{
  Exception, Outcome, ok, raise, Kind, worktree_error, key_error, Call, pane_close, Reply, Sent,
  Env, World, Action, Done, bind, recover, unless, or_throw, request, is_remote, ◌>>◌, pure, throw,
}
use worker_harness.Fleet.Managers.{is_active_manager, task_launch, launch_task}
use worker_harness.Fleet.Phases.{NoRemoval}
use worker_harness.Fleet.Quiet.{record_event-Sends}
use worker_harness.Fleet.Sessions.{machine_name, session_machine, remote_cleanup_error, release}
use worker_harness.Fleet.Stopping.{close_pane_of, dismantle, teardown_task}
use worker_harness.Fleet.Traces.{Extends, Extends-refl, Extends-trans}

-- The pane of the session is closed, as the machine of the session answers, or there is none.
abbrev pub IsClosed : Env → Sent → PiSession → Type 0
IsClosed env before s =
    (is_empty s.meta.pane_id ≡ true)
    ⊎ ((m : Machine) × (reply : Reply) × (Dict.get (machine_name s) env.machines ≡ some m)
        × (env.answer before m.name (pane_close s.meta.pane_id) ≡ ok reply))

-- What a teardown may rest on when it removes the worktree.
pub record MayRemove (env : Env) (before : Sent) (s : PiSession) (force : Bool) : Type 0 where
  pub is_task : s.role ≡ "task"
  pub reviewed : (is_empty s.meta.pr_url ≡ false) ⊎ (force ≡ true)
  pub closed : IsClosed env before s

IsRaise : {A : Type 0} → Outcome A × World → Type 0
IsRaise r = (e : Exception) × (r.0 ≡ raise e)

-- After a raise nothing more is done.
bind-IsRaise :
    {A B : Type 0} (r : Outcome A × World) (f : A → Action B)
    → IsRaise r
    → IsRaise (bind r f) × ((bind r f).1 ≡ r.1)
unfolding IsRaise bind
bind-IsRaise (ok a, w) f (e, h) = absurd (ground arith)
bind-IsRaise (raise x, w) f h = ((x, refl), refl)

throw-IsRaise :
    (r : Outcome Done × World) (kind : Kind) (text : String)
    → IsRaise (bind r (λ (_ : Done). throw {A = Done} kind text))
      × ((bind r (λ (_ : Done). throw {A = Done} kind text)).1 ≡ r.1)
unfolding IsRaise bind
throw-IsRaise (ok a, w) kind text = ((_, refl), refl)
throw-IsRaise (raise e, w) kind text = ((e, refl), refl)

module _ (env : Env) (s : PiSession) (m : Machine) (w : World) where
  abbrev closing : Call
  closing = pane_close s.meta.pane_id

  abbrev closed : World
  closed = record w { sent = w.sent ++ (m.name, closing) ∷ [] }

  closed-Extends : Extends NoRemoval w.sent closed.sent
  closed-Extends = record { new = (m.name, closing) ∷ []; appended = refl; allowed = (refl, tt) }

  abbrev refuse : Exception → Action Done
  refuse e =
      remote_cleanup_error env s "pane-close" e
      >> throw worktree_error "refusing to remove a worktree while its pane may still run"

  abbrev attempt : Outcome Reply → Outcome Done × World
  attempt r = recover is_remote refuse (bind (r, closed) (λ _. pure tt))

  refuse-Extends : (e : Exception) → Extends NoRemoval w.sent (refuse e closed).1.sent
  unfolding remote_cleanup_error
  refuse-Extends e =
      let (_, same) =
        throw-IsRaise (remote_cleanup_error env s "pane-close" e closed) worktree_error
          "refusing to remove a worktree while its pane may still run" in
      rw same (
        Extends-trans NoRemoval w.sent closed.sent _ closed-Extends (
          (record_event-Sends NoRemoval env s.id "herdr-error"
              (("operation", "pane-close") ∷ ("detail", e.text) ∷ [])).extends
            closed))

  attempt-IsRaise :
      (e : Exception)
      → IsRaise (attempt (raise e)) × Extends NoRemoval w.sent (attempt (raise e)).1.sent
  unfolding recover bind
  attempt-IsRaise e = elim (Bool-cases (is_remote e.kind)) [
    | inl remote ↦ rw remote (
      (throw-IsRaise (remote_cleanup_error env s "pane-close" e closed) worktree_error
          "refusing to remove a worktree while its pane may still run").0,
      refuse-Extends e,
    )
    | inr other ↦ rw other (unfold IsRaise in (e, refl), closed-Extends)
  ]

  -- Closing the pane succeeded, or nothing more is sent.
  closing_by :
      (r : Outcome Reply) (f : Done → Action Done)
      → Dict.get (machine_name s) env.machines ≡ some m
      → env.answer w.sent m.name closing ≡ r
      → IsClosed env w.sent s
        ⊎ (IsRaise (bind (attempt r) f) × Extends NoRemoval w.sent (bind (attempt r) f).1.sent)
  closing_by (ok reply) f home e = inl (inr (m, reply, home, e))
  closing_by (raise x) f home e =
      let (raised, sent) = attempt-IsRaise x in
      let (again, same) = bind-IsRaise (attempt (raise x)) f raised in inr (again, rw same sent)

  -- The rest of the teardown, where it is reached.
  close_pane_of-closes :
      (f : Done → Action Done)
      → Dict.get (machine_name s) env.machines ≡ some m
      → IsClosed env w.sent s ⊎ Extends NoRemoval w.sent (bind (close_pane_of env m s w) f).1.sent
  unfolding close_pane_of request
  close_pane_of-closes f home =
      elim (closing_by (env.answer w.sent m.name closing) (λ _. release env m s) home refl) [
        | inl c ↦ inl c
        | inr (raised, sent) ↦
            let (_, same) = bind-IsRaise (close_pane_of env m s w) f raised in inr (rw same sent)
      ]

  unless-closes :
      (b : Bool) (f : Done → Action Done)
      → Dict.get (machine_name s) env.machines ≡ some m
      → is_empty s.meta.pane_id ≡ b
      → IsClosed env w.sent s
        ⊎ Extends NoRemoval w.sent (bind (unless b (close_pane_of env m s) w) f).1.sent
  unfolding unless
  unless-closes true f home e = inl (inl e)
  unless-closes false f home e = close_pane_of-closes f home

  dismantle-closes :
      (force : Bool)
      → Dict.get (machine_name s) env.machines ≡ some m
      → IsClosed env w.sent s ⊎ Extends NoRemoval w.sent (dismantle env m s force w).1.sent
  unfolding dismantle
  dismantle-closes force home = unless-closes (is_empty s.meta.pane_id) _ home refl

module _ (env : Env) (s : PiSession) (force : Bool) (w : World) where
  Removes : Outcome Done × World → Type 0
  Removes r = MayRemove env w.sent s force ⊎ Extends NoRemoval w.sent r.1.sent

  machine_by :
      (o : Option Machine) (text : String)
      → Dict.get (machine_name s) env.machines ≡ o
      → s.role ≡ "task"
      → (is_empty s.meta.pr_url ≡ false) ⊎ (force ≡ true)
      → Removes (bind (or_throw key_error text o w) (λ m. dismantle env m s force))
  unfolding Removes or_throw bind
  machine_by none text home t r = inr (Extends-refl NoRemoval w.sent)
  machine_by (some m) text home t r = elim (dismantle-closes env s m w force home) [
    | inl c ↦ inl (record { is_task = t; reviewed = r; closed = c })
    | inr sent ↦ inr sent
  ]

  reviewed_by :
      (is_empty s.meta.pr_url && not force) ≡ false
      → (is_empty s.meta.pr_url ≡ false) ⊎ (force ≡ true)
  reviewed_by h = ground arith

  -- A teardown removes a worktree or a branch only for a task session with a pull request, or by
  -- force, and only after its machine has closed the pane of the session, where it has one.
  pub teardown_task-Removes :
      MayRemove env w.sent s force ⊎ Extends NoRemoval w.sent (teardown_task env s force w).1.sent
  unfolding teardown_task session_machine Removes
  teardown_task-Removes = elim (Bool-cases (s.role == "task")) [
    | inr other ↦ rw other (inr (Extends-refl NoRemoval w.sent))
    | inl own ↦ elim (Bool-cases (is_empty s.meta.pr_url && not force)) [
      | inl unreviewed ↦ rw (own, unreviewed) (inr (Extends-refl NoRemoval w.sent))
      | inr reviewed ↦
          rw (own, reviewed)
            (machine_by (Dict.get (machine_name s) env.machines) _ refl
              ((string_eq.eq?_iff s.role "task").0 own) (reviewed_by reviewed))
    ]
  ]

-- A manager of the project that is not over, in the tables when the lock is got.
pub record IsManager (p : Project) (st : Store) (x : String) : Type 0 where
  pub parent : PiSession
  pub found : get_pi_session x st ≡ some parent
  pub is_pm : parent.role ≡ "pm"
  pub same_project : parent.meta.project ≡ some p.name
  pub not_stopped : parent.state ≢ stopped
  pub not_failed : parent.state ≢ failed

project_named :
    (o : Option String) (name : String)
    → (elim o as (λ _. Bool) [ none ↦ false | some q ↦ q == name ]) ≡ true
    → o ≡ some name
project_named none name h = absurd (ground arith)
project_named (some q) name h = ap (λ t. some t) ((string_eq.eq?_iff q name).0 h)

is_active_manager-IsManager :
    (p : Project) (st : Store) (x : String) (o : Option PiSession)
    → get_pi_session x st ≡ o
    → is_active_manager p o ≡ true
    → IsManager p st x
unfolding is_active_manager
is_active_manager-IsManager p st x none e h = absurd (ground arith)
is_active_manager-IsManager p st x (some s) e h = record {
  parent = s;
  found = e;
  is_pm = (string_eq.eq?_iff s.role "pm").0 (ground arith);
  same_project = project_named s.meta.project p.name (ground arith);
  not_stopped = λ over. absurd (ground (arith, over));
  not_failed = λ over. absurd (ground (arith, over));
}

refused_by :
    (env : Env) (p : Project) (branch briefing parent : String) (w : World) (o : Option Project)
    → is_active_manager p (get_pi_session parent (env.locked w.store)) ≡ false
    → let r =
        bind (or_throw key_error "project" o w) (λ _. task_launch env p branch briefing parent) in
      ((e : Exception) × (r.0 ≡ raise e)) × (r.1.sent ≡ w.sent)
unfolding or_throw bind task_launch unless
refused_by env p branch briefing parent w none h = ((_, refl), refl)
refused_by env p branch briefing parent w (some q) h = rw h ((_, refl), refl)

-- A task is launched, and any machine is asked for anything, only for a parent that is in the tables
-- when the lock is got, has the role of a manager and the project of the task, and has neither stopped
-- nor failed; for any other parent the launch raises, and no call is sent.
pub launch_task-refused :
    (env : Env) (p : Project) (branch briefing parent : String) (w : World)
    → IsManager p (env.locked w.store) parent
      ⊎ (((e : Exception) × ((launch_task env p branch briefing parent w).0 ≡ raise e))
          × ((launch_task env p branch briefing parent w).1.sent ≡ w.sent))
unfolding launch_task
launch_task-refused env p branch briefing parent w =
    elim (Bool-cases (is_active_manager p (get_pi_session parent (env.locked w.store)))) [
      | inl manager ↦ inl (is_active_manager-IsManager p (env.locked w.store) parent _ refl manager)
      | inr other ↦
          inr (refused_by env p branch briefing parent w (Dict.get p.name env.projects) other)
    ]
