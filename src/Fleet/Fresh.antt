-- ===== src/Fleet/Fresh.antt =====
-- A launch under a fresh id: where it raises, no live session has that id.
use worker_harness.Base.{
  ◌+◌, String, Bool, true, false, ◌||◌, not, Option, none, List, ◌≡◌, ◌⊎◌, inl, inr, refl, sym,
  subst, arith, is_empty, if◌then◌else◌, Bool-cases,
}
use worker_harness.Machines.{}
use worker_harness.PiSessions.{PiSession, has_session_id}
use worker_harness.Table.{exists_where}
use worker_harness.Fleet.Action.{
  Kind, Exception, Outcome, ok, raise, value_error, Env, World, Action, rethrow, recover, catch,
  bind, unless, new_id, ◌>>=◌, ◌>>◌,
}
use worker_harness.Fleet.Closing.{IsOver, Ends, Ends-bind}
use worker_harness.Fleet.Failing.{
  exists_where_none, ReadsPanes, mark_failed-Ends, prompted-Closes, inserted, insert_session_lem,
}
use worker_harness.Fleet.Launch.{
  never_started, start_in_pane, launch_at, launch_as, launch, new_token, check_request,
  is_transcript, is_task, is_orchestrator,
}
use worker_harness.Fleet.Names.{LaunchRequest, LaunchSpec}
use worker_harness.Fleet.Rows.{
  SameRows, SameRows-bind, SameRows-raise, SameRows-unless, cleanup_failed_worktree-SameRows,
  request-SameRows, try_branches-SameRows,
}
use worker_harness.Fleet.Sessions.{new_session, mark_failed, cleanup_failed_worktree}
use worker_harness.Fleet.Worktrees.{attempts, create_worktree}

-- No session has the id.
abbrev pub IsFree : String → List PiSession → Type 0
IsFree x rows = exists_where (has_session_id x) rows ≡ false

record Raises {A : Type 0} (m : Action A) : Type 0 where
  raises : (w : World) → (e : Exception) × ((m w).0 ≡ raise e)

bind-Raises :
    {A B : Type 0} (r : Outcome A × World) (f : A → Action B)
    → ((a : A) → Raises (f a))
    → (e : Exception) × ((bind r f).0 ≡ raise e)
unfolding bind
bind-Raises (ok a, w) f k = (k a).raises w
bind-Raises (raise e, w) f k = (e, refl)

Raises-bind :
    {A B : Type 0} (m : Action A) (f : A → Action B) → ((a : A) → Raises (f a)) → Raises (m >>= f)
Raises-bind m f k = record { raises = λ w. bind-Raises (m w) f k }

-- From tables where the id is free.
record FromFree (x : String) {A : Type 0} (m : Action A) : Type 0 where
  from_free :
      (w : World) (e : Exception)
      → IsFree x w.store.sessions
      → (m w).0 ≡ raise e
      → IsOver x (m w).1.store.sessions

module _ (x : String) where
  free-bind :
      {A B : Type 0} (r : Outcome A × World) (f : A → Action B) (e : Exception)
      → IsFree x r.1.store.sessions
      → ((a : A) → FromFree x (f a))
      → (bind r f).0 ≡ raise e
      → IsOver x (bind r f).1.store.sessions
  unfolding bind
  free-bind (ok a, w) f e free k same = (k a).from_free w e free same
  free-bind (raise e', w) f e free k same = exists_where_none x w.store.sessions free

  FromFree-bind :
      {A B : Type 0} {m : Action A} {f : A → Action B}
      → SameRows m
      → ((a : A) → FromFree x (f a))
      → FromFree x (m >>= f)
  FromFree-bind {m = m} {f = f} h k = record {
    from_free =
        λ w e free same. free-bind (m w) f e (subst (IsFree x) (sym (h.same w)) free) k same;
  }

  raised-bind :
      {A B : Type 0} (r : Outcome A × World) (f : A → Action B) (e : Exception)
      → r.0 ≡ raise e
      → IsOver x r.1.store.sessions
      → IsOver x (bind r f).1.store.sessions
  unfolding bind
  raised-bind (ok a, w) f e h over = absurd (ground arith)
  raised-bind (raise e', w) f e h over = over

  caught-bind :
      {A B : Type 0} (r : Outcome A × World) (handles : Kind → Bool)
      (handler : Exception → Action A) (f : A → Action B) (e : Exception)
      → IsFree x r.1.store.sessions
      → ((e' : Exception) → Raises (handler e'))
      → ((e' : Exception) → FromFree x (handler e'))
      → ((a : A) → FromFree x (f a))
      → (bind (recover handles handler r) f).0 ≡ raise e
      → IsOver x (bind (recover handles handler r) f).1.store.sessions
  unfolding recover
  caught-bind (ok a, w) handles handler f e free always h k same =
      free-bind (ok a, w) f e free k same
  caught-bind (raise e', w) handles handler f e free always h k same =
      elim (Bool-cases (handles e'.kind)) [
        | inl taken ↦
            let (e'', raised) = (always e').raises w in
            rw taken (raised-bind (handler e' w) f e'' raised ((h e').from_free w e'' free raised))
        | inr left ↦ rw left (free-bind (raise e', w) f e free k (rw left at same))
      ]

  FromFree-caught :
      {A B : Type 0} (handles : Kind → Bool) {handler : Exception → Action A} {m : Action A}
      {f : A → Action B}
      → SameRows m
      → ((e' : Exception) → Raises (handler e'))
      → ((e' : Exception) → FromFree x (handler e'))
      → ((a : A) → FromFree x (f a))
      → FromFree x (catch handles handler m >>= f)
  FromFree-caught handles {handler} {m} {f} h always k l = record {
    from_free = λ w e free same.
        caught-bind (m w) handles handler f e (subst (IsFree x) (sym (h.same w)) free) always k l
          same;
  }

  FromFree-if :
      {A : Type 0} (b : Bool) {m k : Action A}
      → FromFree x m
      → FromFree x k
      → FromFree x (if b then m else k)
  FromFree-if true h k = h
  FromFree-if false h k = k

module _ (env : Env) where
  never_started-Raises :
      {A : Type 0} (s : PiSession) (e : Exception) → Raises (never_started env {A = A} s e)
  unfolding never_started
  never_started-Raises s e =
      Raises-bind _ _
        (λ _. Raises-bind _ _ (λ _. Raises-bind _ _ (λ _. record { raises = λ w. (e, refl) })))

  finished-Ends :
      {A : Type 0} (s : PiSession) (e : Exception)
      → Ends s.id (λ w.
        bind {B = A}
          (mark_failed env s e "launch-failed" w)
          (λ _. unless (is_empty s.meta.worktree) (cleanup_failed_worktree env s) >> rethrow e))
  finished-Ends s e = Ends-bind s.id (mark_failed-Ends env s e "launch-failed") (λ _.
      SameRows-bind (SameRows-unless _ (cleanup_failed_worktree-SameRows env s))
        (λ _. SameRows-raise e))

  never_started-FromFree :
      {A : Type 0} (s : PiSession) (e : Exception) → FromFree s.id (never_started env {A = A} s e)
  unfolding never_started bind
  never_started-FromFree {A} s e = record {
    from_free = λ w e' free same.
        rw (insert_session_lem env s w free) ((finished-Ends {A = A} s e).ends (inserted env s w));
  }

  start_in_pane-FromFree :
      ReadsPanes env
      → (spec : LaunchSpec) (s : PiSession) (token briefing resume_path : String)
      → FromFree s.id (start_in_pane env spec s token briefing resume_path)
  unfolding start_in_pane bind
  start_in_pane-FromFree reads spec s token briefing resume_path = record {
    from_free = λ w e free same.
        elim ((prompted-Closes env reads spec s _ briefing (env.read_text spec.prompt_path)).closes
          (inserted env s w) e (rw (insert_session_lem env s w free) at same)) [
            | inl over ↦ rw (insert_session_lem env s w free) over
            | inr no_kind ↦ absurd (ground arith)
          ];
  }

  launch_at-FromFree :
      ReadsPanes env
      → (spec : LaunchSpec) (x token : String) (parent : Option String)
        (briefing worktree branch resume_path : String)
      → FromFree x (launch_at env spec x token parent briefing worktree branch resume_path)
  unfolding launch_at new_session
  launch_at-FromFree reads spec x token parent briefing worktree branch resume_path =
      FromFree-caught x _ (request-SameRows env _ _) (λ e. never_started-Raises _ e)
        (λ e. never_started-FromFree _ e)
        (λ r. start_in_pane-FromFree reads spec _ token briefing resume_path)

  launch_as-FromFree :
      ReadsPanes env
      → (r : LaunchRequest) (branch briefing : String) (parent : Option String)
        (resume_path x token : String)
      → FromFree x (launch_as env r branch briefing parent resume_path x token)
  unfolding launch_as create_worktree
  launch_as-FromFree reads r branch briefing parent resume_path x token =
      FromFree-if x (is_task r.role)
        (FromFree-caught x _
          (try_branches-SameRows env r.machine r.repo branch r.base_branch (attempts branch))
          (λ e. never_started-Raises _ e) (λ e. unfold new_session in never_started-FromFree _ e)
          (λ made. launch_at-FromFree reads _ x token parent briefing made.0 made.1 resume_path))
        (FromFree-if x (is_orchestrator r.role)
          (launch_at-FromFree reads _ x token none "" "" "" resume_path)
          (launch_at-FromFree reads _ x token parent briefing "" "" resume_path))

  check_request-cases :
      (r : LaunchRequest) (path : String) (w : World)
      → ((e : Exception) × (check_request env r path w ≡ (raise e, w)))
        ⊎ (check_request env r path w ≡ (ok tt, w))
  unfolding check_request bind unless
  check_request-cases r path w = elim (Bool-cases (is_empty path || is_transcript r.machine path)) [
    | inr bad_path ↦ inl (
      record {
        kind = value_error;
        text = "resume path must be a transcript under the agent sessions";
      },
      rw bad_path refl,
    )
    | inl fine ↦
        elim (Bool-cases
          (is_orchestrator r.role || not (is_empty r.project_name || is_empty r.repo))) [
            | inr nameless ↦ inl (
              record { kind = value_error; text = "launch requires project name and repository" },
              rw (fine, nameless) refl,
            )
            | inl named ↦ inr (rw (fine, named) refl)
          ]
  ]

  module _ (reads : ReadsPanes env) (r : LaunchRequest) (branch briefing : String)
      (parent : Option String) (resume_path : String) (w : World) where
    abbrev launched : Outcome PiSession × World
    launched = launch env r branch briefing parent resume_path w

    -- A launch that raises leaves the id that it drew with a session that is over or with none,
    -- whichever step failed and whatever the machines answered, where the id was free before and
    -- reading a pane fails only as a remote call or is cancelled.
    pub launch-IsOver :
        (e : Exception)
        → IsFree (env.uuid w.drawn) w.store.sessions
        → launched.0 ≡ raise e
        → IsOver (env.uuid w.drawn) launched.1.store.sessions
    unfolding launch new_id new_token bind
    launch-IsOver e free same = elim (check_request-cases r resume_path w) [
      | inl (x, refused) ↦ rw refused (exists_where_none (env.uuid w.drawn) w.store.sessions free)
      | inr accepted ↦ rw accepted (
          (launch_as-FromFree reads r branch briefing parent resume_path (env.uuid w.drawn)
              (env.token (w.drawn + 1))).from_free
            (record w { drawn = w.drawn + 1 + 1 }) e free (rw accepted at same))
    ]
