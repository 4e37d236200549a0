-- ===== src/Fleet/Failing.antt =====
-- A launch that fails leaves no live session behind.
use worker_harness.Base.{
  ℕ, zero, suc, ◌+◌, String, Bool, true, false, ◌||◌, Option, none, some, List, [], ◌∷◌, ◌++◌, ◌≡◌,
  ◌⊎◌, inl, inr, refl, sym, subst, arith, string_eq, is_empty, text_append, strip, Bool-cases,
}
use worker_harness.Machines.{Machine}
use worker_harness.PiSessions.{
  PiSession, has_session_id, is_over, failed, finish_pi_session, insert_pi_session, get_pi_session,
}
use worker_harness.Table.{find_where, exists_where, update_where}
use worker_harness.Fleet.Action.{
  Exception, Outcome, ok, raise, pane_read, Reply, Env, World, Action, pure, request, new_id, Sent,
  modify, recover, bind, is_remote, is_cancelled, ◌>>◌,
}
use worker_harness.Fleet.Closing.{
  IsOver, Ends, Closes, never, Ends-bind, Ends-Closes, Closes-bind, Closes-catch, Closes-any,
  Closes-if,
}
use worker_harness.Fleet.Launch.{
  abandon, read_pane, bridge_timeout, stopped_early, polled, wait_polls, wait_for_bridge,
  start_agent, prompted, is_terminal, is_bridged,
}
use worker_harness.Fleet.Names.{LaunchSpec, Role}
use worker_harness.Fleet.Rows.{
  SameRows, SameRows-bind, SameRows-raise, SameRows-unless, record_event-SameRows,
  close_after_failed_launch-SameRows, cleanup_failed_worktree-SameRows,
}
use worker_harness.Fleet.Sessions.{mark_failed, insert_session, written, record_event}

finished-IsOver :
    (x detail : String) (now : ℕ) (rows : List PiSession) (s : PiSession)
    → find_where (has_session_id x) (
        update_where
          (has_session_id x)
          (λ (r : PiSession). record r {
            state = failed;
            detail = detail;
            updated_at = now;
            question = "";
            token_hash = "";
            bridge_incarnation = none;
            terminal_attachable = false;
          })
          rows)
      ≡ some s
    → is_over s.state ≡ true
unfolding find_where update_where
finished-IsOver x detail now [] s e = absurd (ground arith)
finished-IsOver x detail now (r ∷ rs) s e = ground (arith, finished-IsOver x detail now rs s)

pub exists_where_none :
    (x : String) (rows : List PiSession)
    → exists_where (has_session_id x) rows ≡ false
    → IsOver x rows
unfolding exists_where find_where
exists_where_none x [] h s e = absurd (ground arith)
exists_where_none x (r ∷ rs) h s e = exists_where_none x rs (ground arith) s (ground arith)

module _ (env : Env) where
  finish-Ends : (x detail : String) → Ends x (modify (finish_pi_session x failed detail env.now))
  unfolding finish_pi_session
  finish-Ends x detail = record { ends = λ w. finished-IsOver x detail env.now w.store.sessions }

  pub mark_failed-Ends :
      (s : PiSession) (e : Exception) (t : String) → Ends s.id (mark_failed env s e t)
  unfolding mark_failed
  mark_failed-Ends s e t =
      Ends-bind s.id (finish-Ends s.id e.text) (λ _. record_event-SameRows env _ _ _)

  abandon-Ends :
      {A : Type 0} (m : Machine) (s : PiSession) (attempted : Bool) (e : Exception)
      → Ends s.id (abandon env {A = A} m s attempted e)
  unfolding abandon
  abandon-Ends m s attempted e = Ends-bind s.id (mark_failed-Ends s e _) (λ _.
      SameRows-bind (close_after_failed_launch-SameRows env m s) (λ _.
        SameRows-bind (SameRows-unless _ (cleanup_failed_worktree-SameRows env s))
          (λ _. SameRows-raise e)))

  stopped_early-SameRows : (m : Machine) (s : PiSession) → SameRows (stopped_early env m s)
  unfolding stopped_early
  stopped_early-SameRows m s =
      SameRows-bind (close_after_failed_launch-SameRows env m s) (λ _. SameRows-raise _)

  terminal-IsOver :
      (x : String) (rows : List PiSession) (current : PiSession)
      → find_where (has_session_id x) rows ≡ some current
      → is_terminal current.state ≡ true
      → IsOver x rows
  terminal-IsOver x rows current found h s e = ground arith

  polled-Closes :
      (m : Machine) (x : String) {sleep : Action PiSession} (o : Option PiSession) (w : World)
      (e : Exception)
      → get_pi_session x w.store ≡ o
      → Closes x is_cancelled sleep
      → (polled env m sleep o w).0 ≡ raise e
      → IsOver x (polled env m sleep o w).1.store.sessions ⊎ (is_cancelled e.kind ≡ true)
  unfolding polled get_pi_session
  polled-Closes m x none w e found h same = h.closes w e same
  polled-Closes m x (some current) w e found h same =
      elim (Bool-cases (is_terminal current.state)) [
        | inl over ↦ rw over (
            inl (
              subst (IsOver x) (sym ((stopped_early-SameRows m current).same w))
                (terminal-IsOver x w.store.sessions current found over)))
        | inr runs ↦ elim (Bool-cases (is_bridged current)) [
          | inl bridged ↦ absurd (ground arith)
          | inr waits ↦ rw (runs, waits) (h.closes w e (rw (runs, waits) at same))
        ]
      ]

  -- Reading a pane fails as a remote call or is cancelled.
  abbrev pub ReadsPanes : Type 0
  ReadsPanes =
      (before : Sent) (m pane : String) (e : Exception)
      → env.answer before m (pane_read pane) ≡ raise e
      → (is_remote e.kind || is_cancelled e.kind) ≡ true

  read_by :
      (s : PiSession) (r : Outcome Reply) (w : World) (e : Exception)
      → ((e' : Exception) → r ≡ raise e' → (is_remote e'.kind || is_cancelled e'.kind) ≡ true)
      → (recover is_remote
          (λ e.
            record_event env s.id "herdr-error"
              (("operation", "pane-read") ∷ ("detail", e.text) ∷ [])
            >> pure (text_append "<pane read failed: " (text_append e.text ">")))
          (bind (r, w) (λ r. pure r.text))).0
        ≡ raise e
      → is_cancelled e.kind ≡ true
  unfolding recover bind record_event new_id
  read_by s (ok reply) w e h same = absurd (ground arith)
  read_by s (raise x) w e h same = ground (arith, h x refl)

  bridge_timeout-Closes :
      ReadsPanes → (m : Machine) (s : PiSession) → Closes s.id is_cancelled (bridge_timeout env m s)
  unfolding bridge_timeout read_pane request
  bridge_timeout-Closes reads m s =
      Closes-bind s.id is_cancelled
        (record {
          closes = λ w e same.
              inr (read_by s _ _ e (λ e' a. reads w.sent m.name s.meta.pane_id e' a) same);
        })
        (λ output. Ends-Closes s.id is_cancelled (
          Ends-bind s.id (finish-Ends s.id _) (λ _.
            SameRows-bind (close_after_failed_launch-SameRows env m s)
              (λ _. SameRows-bind (record_event-SameRows env _ _ _) (λ _. SameRows-raise _)))))

  wait_polls-Closes :
      ReadsPanes
      → (left n : ℕ) (m : Machine) (s : PiSession)
      → Closes s.id is_cancelled (wait_polls env left n m s)
  unfolding wait_polls bind
  wait_polls-Closes reads zero n m s = bridge_timeout-Closes reads m s
  wait_polls-Closes reads (suc left) n m s =
      let later = wait_polls-Closes reads left (n + 1) m s in
      record {
        closes = λ w e same.
            polled-Closes m s.id (get_pi_session s.id w.store) w e refl
              (record {
                closes = λ w' e' same'.
                    later.closes (record w' { store = env.between n w'.store }) e' same';
              })
              same;
      }

  start_agent-Closes :
      ReadsPanes
      → (m : Machine) (s : PiSession) (role : Role) (prompt command briefing : String)
      → Closes s.id never (start_agent env m s role prompt command briefing)
  unfolding start_agent wait_for_bridge
  start_agent-Closes reads m s role prompt command briefing =
      Closes-bind s.id never
        (Closes-catch s.id never _ (λ e. Ends-Closes s.id never (abandon-Ends m s false e))
          (Closes-any s.id))
        (λ _.
          Closes-bind s.id never
            (Closes-catch s.id never _ (λ e. Ends-Closes s.id never (abandon-Ends m s true e))
              (Closes-any s.id))
            (λ _.
              Closes-catch s.id never _ (λ e. Ends-Closes s.id never (abandon-Ends m s true e))
                (wait_polls-Closes reads env.polls 0 m s)))

  pub prompted-Closes :
      ReadsPanes
      → (spec : LaunchSpec) (s : PiSession) (command briefing : String) (o : Option String)
      → Closes s.id never (prompted env spec s command briefing o)
  unfolding prompted
  prompted-Closes reads spec s command briefing none =
      Ends-Closes s.id never (abandon-Ends _ s false _)
  prompted-Closes reads spec s command briefing (some prompt) =
      Closes-if s.id (is_empty (strip prompt)) (Ends-Closes s.id never (abandon-Ends _ s false _))
        (start_agent-Closes reads _ s _ prompt command briefing)

  pub inserted : PiSession → World → World
  inserted s w = record w { store = record (w.store) { sessions = w.store.sessions ++ s ∷ [] } }

  pub insert_session_lem :
      (s : PiSession) (w : World)
      → exists_where (has_session_id s.id) w.store.sessions ≡ false
      → insert_session env s w ≡ (ok tt, inserted s w)
  unfolding insert_session written insert_pi_session inserted
  insert_session_lem s w h = rw h refl
