-- ===== src/Fleet/Retirement.antt =====
-- Which managers are retired, and when a manager is used again.
use worker_harness.Base.{
  ◌-◌, ◌≤◌, String, Bool, true, false, ◌||◌, Option, none, some, List, ◌≡◌, ◌⊎◌, inl, inr, refl,
  arith, string_eq, if◌then◌else◌, is_empty, Bool-cases,
}
use worker_harness.Dict
use worker_harness.Machines.{Machine, Project}
use worker_harness.PiSessions.{PiSession, Store, get_pi_session, list_pi_sessions_by_role}
use worker_harness.Table.{select, find_where, exists_where}
use worker_harness.Fleet.Action.{
  Outcome, ok, raise, key_error, or_throw, Call, pane_close, Env, World, Done, bind, recover, pure,
  ◌>>=◌,
}
use worker_harness.Fleet.Launch.{is_terminal, wait_for_bridge}
use worker_harness.Fleet.Managers.{
  of_project, is_live, use_live, manager_from, manager_of, ensure_pm, is_starting,
}
use worker_harness.Fleet.Quiet.{
  is_create, is_run, IsNeutral, session_machine-Sends, report_state-Sends, record_event-Sends,
  ask-Sends, best_effort-Sends, next_sequence-Sends,
}
use worker_harness.Fleet.Sessions.{session_machine, report_state, release, remote_cleanup_error}
use worker_harness.Fleet.Stopping.{
  is_idle, is_exception, is_child_of, can_retire, retire_current, retire_locked, retire,
  poll_session, stop_pane, stop_session,
}
use worker_harness.Fleet.Traces.{
  Extends, Extends-refl, Sends, Sends-bind, Sends-pure, Sends-catch, Sends-raise, Sends-unless,
  Sends-modify,
}
use worker_harness.Fleet.Waits.{wait_polls-Sends}

abbrev pub is_close : Call → Bool
is_close (pane_close pane) = true
is_close _ = false

abbrev pub NoClose : Call → Type 0
NoClose c = is_close c ≡ false

-- A close of this pane, or no close.
abbrev pub OnlyPane : String → Call → Type 0
OnlyPane pane (pane_close other) = other ≡ pane
OnlyPane pane _ = Unit {0}

-- A manager that may go: it idles since long, has no message waiting and no live task.
pub record IsRetirable (env : Env) (st : Store) (x : String) (polled s : PiSession) : Type 0 where
  pub is_pm : polled.role ≡ "pm"
  pub row : get_pi_session x st ≡ some s
  pub idles : is_idle s.state ≡ true
  pub long : env.idle_seconds ≤ env.now - s.updated_at
  pub quiet : s.has_pending_messages ≡ false
  pub childless : exists_where (is_child_of s.id) (list_pi_sessions_by_role "task" st) ≡ false

module _ (env : Env) (s : PiSession) where
  abbrev OwnPane : Call → Type 0
  OwnPane = OnlyPane s.meta.pane_id

  release-OnlyPane : (m : Machine) → Sends OwnPane (release env m s)
  unfolding release
  release-OnlyPane m = best_effort-Sends OwnPane env s _ (
      Sends-bind OwnPane (next_sequence-Sends OwnPane env s.id) (λ n. ask-Sends OwnPane env m _ tt))

  stop_pane-OnlyPane : (m : Machine) → Sends OwnPane (stop_pane env m s)
  unfolding stop_pane remote_cleanup_error
  stop_pane-OnlyPane m = Sends-bind OwnPane (release-OnlyPane m) (λ _.
      Sends-catch OwnPane _
        (λ e.
          Sends-bind OwnPane (record_event-Sends OwnPane env _ _ _) (λ _. Sends-raise OwnPane e))
        (ask-Sends OwnPane env m _ refl))

  -- A session that is stopped has no pane closed but its own.
  stop_session-OnlyPane : Sends OwnPane (stop_session env s)
  unfolding stop_session
  stop_session-OnlyPane = Sends-bind OwnPane (session_machine-Sends OwnPane env s) (λ m.
      Sends-bind OwnPane (Sends-unless OwnPane _ (stop_pane-OnlyPane m)) (λ _.
        Sends-bind OwnPane (best_effort-Sends OwnPane env s _ (ask-Sends OwnPane env m _ tt)) (λ _.
          Sends-bind OwnPane (Sends-modify OwnPane _) (λ _. record_event-Sends OwnPane env _ _ _))))

module _ (env : Env) (tasks : List PiSession) (s : PiSession) (w : World) where
  abbrev after_lock : Store
  after_lock = env.locked w.store

  abbrev Polls : Outcome Done × World → Type 0
  Polls r =
      ((current : PiSession) × IsRetirable env after_lock s.id s current
        × Extends (OnlyPane current.meta.pane_id) w.sent r.1.sent)
      ⊎ Extends NoClose w.sent r.1.sent

  retire_by :
      (o : Option PiSession)
      → s.role ≡ "pm"
      → get_pi_session s.id after_lock ≡ o
      → Polls (
          retire_current env o
            (list_pi_sessions_by_role "task" after_lock)
            (record w { store = after_lock }))
  unfolding retire_current
  retire_by none pm e = inr (Extends-refl NoClose w.sent)
  retire_by (some current) pm e =
      elim (Bool-cases (can_retire env current (list_pi_sessions_by_role "task" after_lock))) [
        | inl may ↦ inl (
          current,
          unfold can_retire in
              record {
                is_pm = pm;
                row = e;
                idles = ground arith;
                long = ground arith;
                quiet = ground arith;
                childless = ground arith;
              },
          rw may ((stop_session-OnlyPane env current).extends (record w { store = after_lock })),
        )
        | inr other ↦ rw other (inr (Extends-refl NoClose w.sent))
      ]

  retire_in :
      (o : Option Project) (text : String)
      → s.role ≡ "pm"
      → Polls (bind (or_throw key_error text o w) (λ _. retire_locked env s))
  unfolding or_throw bind retire_locked
  retire_in none text pm = inr (Extends-refl NoClose w.sent)
  retire_in (some p) text pm = retire_by (get_pi_session s.id after_lock) pm refl

  Polls-recover :
      (r : Outcome Done × World) → Polls r → Polls (recover is_exception (λ _. pure tt) r)
  unfolding recover
  Polls-recover (ok a, w') h = h
  Polls-recover (raise e, w') h = elim (Bool-cases (is_exception e.kind)) [
    | inl caught ↦ rw caught h
    | inr passes ↦ rw passes h
  ]

  polled_by :
      (b : Bool) (state message : String)
      → (b ≡ true → s.role ≡ "pm")
      → Polls ((if b then retire env s else report_state env s state message) w)
  unfolding retire
  polled_by true state message pm = retire_in _ _ (pm refl)
  polled_by false state message pm =
      inr ((report_state-Sends NoClose env (λ _ _ _ _ _ _. refl) s state message).extends w)

  -- A poll of a session closes a pane only if the session is a manager, and its row, when the lock of
  -- its project is held, idles since `idle_seconds`, has no message waiting and no live task; and then
  -- it closes no pane but that of the row.
  pub poll_session-Polls : Polls (poll_session env tasks s w)
  unfolding poll_session
  poll_session-Polls = elim (Bool-cases (is_terminal s.state || is_empty s.meta.pane_id)) [
    | inl skipped ↦ rw skipped (inr (Extends-refl NoClose w.sent))
    | inr polled ↦ rw polled (
        Polls-recover _
          (polled_by _ _ _ (λ b. (string_eq.eq?_iff s.role "pm").0 (ground (arith, b)))))
  ]

-- Calls that start an agent.
abbrev pub NoStart : Call → Type 0
NoStart c = (is_create c || is_run c) ≡ false

neutral-NoStart : (c : Call) → IsNeutral c → NoStart c
neutral-NoStart c h = ground arith

module _ (env : Env) where
  use_live-NoStart : (s : PiSession) → Sends NoStart (use_live env s)
  unfolding use_live wait_for_bridge
  use_live-NoStart s = by_state (is_starting s.state)
    where
      by_state :
          (b : Bool)
          → Sends NoStart
              (if b then (session_machine env s >>= λ m. wait_for_bridge env m s) else pure s)
      by_state true =
          Sends-bind NoStart (session_machine-Sends NoStart env s)
            (λ m. wait_polls-Sends NoStart neutral-NoStart env env.polls 0 m s)
      by_state false = Sends-pure NoStart s

  reuse_by :
      (name : String) (o : Option Project) (w : World) {s : PiSession}
      → find_where is_live
          (select (of_project name) (list_pi_sessions_by_role "pm" (env.locked w.store)))
        ≡ some s
      → Extends NoStart w.sent
          (bind (or_throw key_error "unknown project" o w) (λ p. manager_of env name p)).1.sent
  unfolding or_throw bind manager_of manager_from
  reuse_by name none w e = Extends-refl NoStart w.sent
  reuse_by name (some p) w {s} e =
      rw e ((use_live-NoStart s).extends (record w { store = env.locked w.store }))

  -- While a manager of the project is live no second one is started: none of the calls that make a
  -- workspace or run an agent is sent.
  pub ensure_pm-NoStart :
      (name : String) (w : World) {s : PiSession}
      → find_where is_live
          (select (of_project name) (list_pi_sessions_by_role "pm" (env.locked w.store)))
        ≡ some s
      → Extends NoStart w.sent (ensure_pm env name w).1.sent
  unfolding ensure_pm
  ensure_pm-NoStart name w e = reuse_by name (Dict.get name env.projects) w e
