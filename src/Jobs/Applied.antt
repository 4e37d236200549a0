-- ===== src/Jobs/Applied.antt =====
-- `upsert_reported_worker_job` in db.py: which reports are applied, and which change nothing.
use mathlib.Core.Option.{some-injective}
use worker_harness.Base.{
  ◌∙◌, ◌≤◌, ◌<◌, ◌≡◌, ◌≢◌, ◌⊎◌, refl, sym, subst, ap, inl, inr, String, Bool, true, false, Option,
  none, some, List, [], ◌∷◌, ◌++◌, arith, string_eq, Bool-cases, Option-cases,
}
use worker_harness.Models.{Job, WorkerJobReport, is_delegated}
use worker_harness.Table.{find_where, exists_where}
use worker_harness.Table.Laws.{find_where-update_where, find_where_sound}
use worker_harness.Jobs.{Jobs, equals_sql, has_id, get_job}
use worker_harness.Jobs.Pending.{Result, ok, raise, Error, key_error, value_error}
use worker_harness.Jobs.Exclusive.{Valid}
use worker_harness.Jobs.Reports.{
  is_origin, is_outdated, reported, report_row, upsert_report, apply_report,
  upsert_reported_worker_job,
}
use worker_harness.Jobs.Replays.{
  Written, inserted, updated, kept, upsert_report-Written, kept_table,
}
use worker_harness.Jobs.Revisions.{IsReport, upsert_reported_worker_job-IsReport}
use worker_harness.PiSessions.{PiSession, has_session_id}

-- The row has the contents of the report.
pub record Shows (r : WorkerJobReport) (job : Job) : Type 0 where
  pub id : job.id ≡ r.id
  pub tmux_session : job.tmux_session ≡ r.tmux_session
  pub command : job.command ≡ r.command
  pub status : job.status ≡ r.status
  pub exit_code : job.exit_code ≡ r.exit_code
  pub started_at : job.started_at ≡ r.started_at
  pub finished_at : job.finished_at ≡ r.finished_at
  pub revision : job.report_revision ≡ r.report_revision

-- The report is a later revision of the job that the row shows, by the same worker and session.
pub record IsNewer (worker_id : String) (r : WorkerJobReport) (row : Job) : Type 0 where
  pub same_worker : row.worker_id ≡ some worker_id
  pub same_session : row.origin_session_id ≡ some r.origin_session_id
  pub delegated : is_delegated row.kind ≡ true
  pub older : row.report_revision < r.report_revision

-- The session that the report names is one of the worker.
pub record IsOwner (worker_id : String) (r : WorkerJobReport) (sessions : List PiSession)
    : Type 0 where
  pub session : PiSession
  pub found : find_where (has_session_id r.origin_session_id) sessions ≡ some session
  pub own : session.worker_id ≡ some worker_id

pub record IsApplied (worker_id : String) (r : WorkerJobReport) (sessions : List PiSession)
    (jobs : Jobs) (result : Result (Job × Bool)) (after : Jobs) : Type 0 where
  -- A report of an owner about a new job, or with a later revision, is written.
  pub applied :
      IsOwner worker_id r sessions
      → (find_where (has_id r.id) jobs ≡ none)
        ⊎ ((row : Job) × (find_where (has_id r.id) jobs ≡ some row) × IsNewer worker_id r row)
      → (job : Job) × (result ≡ ok (job, true))
        × (find_where (has_id r.id) after ≡ some job)
        × Shows r job
  -- A report of no later revision changes nothing,
  pub stale :
      (row : Job)
      → find_where (has_id r.id) jobs ≡ some row
      → r.report_revision ≤ row.report_revision
      → after ≡ jobs
  -- nor does one about a job of another worker or session, which is refused.
  pub foreign :
      (row : Job)
      → find_where (has_id r.id) jobs ≡ some row
      → (row.worker_id ≢ some worker_id) ⊎ (row.origin_session_id ≢ some r.origin_session_id)
      → ((e : Error) × (result ≡ raise e)) × (after ≡ jobs)

equals_some : (o : Option String) (x : String) → (equals_sql o (some x) ≡ true) → o ≡ some x
equals_some none x h = absurd (ground arith)
equals_some (some y) x h = ap (λ t. some t) ((string_eq.eq?_iff y x).0 h)

some_equals : (o : Option String) (x : String) → o ≡ some x → equals_sql o (some x) ≡ true
some_equals o x e = rw e ((string_eq.eq?_iff x x).1 refl)

found_last :
    (x : String) (j : Job) (jobs : Jobs)
    → exists_where (has_id x) jobs ≡ false
    → j.id ≡ x
    → find_where (has_id x) (jobs ++ j ∷ []) ≡ some j
unfolding exists_where find_where
found_last x j [] free e = ground (arith, (string_eq.eq?_iff j.id x).1 e)
found_last x j (k ∷ ks) free e = ground (arith, free, found_last x j ks (ground (arith, free)) e)

module _ (worker_id : String) (r : WorkerJobReport) (jobs : Jobs) where
  newer_outdated :
      (row : Job)
      → find_where (has_id r.id) jobs ≡ some row
      → IsNewer worker_id r row
      → is_outdated worker_id r row ≡ true
  unfolding is_outdated
  newer_outdated row found n = ground (
    arith,
    find_where_sound (has_id r.id) jobs row found,
    some_equals row.worker_id worker_id n.same_worker,
    some_equals row.origin_session_id r.origin_session_id n.same_session,
    n.delegated,
    n.older,
  )

  stale_kept :
      (row : Job) → r.report_revision ≤ row.report_revision → is_outdated worker_id r row ≡ false
  unfolding is_outdated
  stale_kept row late = ground (arith, late)

  foreign_row :
      (row : Job)
      → (row.worker_id ≢ some worker_id) ⊎ (row.origin_session_id ≢ some r.origin_session_id)
      → is_origin worker_id r row ≡ false
  foreign_row row f = ground (
    arith,
    f,
    equals_some row.worker_id worker_id,
    equals_some row.origin_session_id r.origin_session_id,
  )

  foreign_kept :
      (row : Job) → is_origin worker_id r row ≡ false → is_outdated worker_id r row ≡ false
  unfolding is_outdated
  foreign_kept row f = ground (arith, f)

  outdated_origin : (j : Job) → is_outdated worker_id r j ≡ true → is_origin worker_id r j ≡ true
  unfolding is_outdated
  outdated_origin j hit = ground arith

  written_by :
      {changed : Bool} {after : Jobs}
      → Written worker_id r jobs changed after
      → (find_where (has_id r.id) jobs ≡ none)
        ⊎ ((row : Job) × (find_where (has_id r.id) jobs ≡ some row) × IsNewer worker_id r row)
      → (changed ≡ true)
        × ((job : Job) × (find_where (has_id r.id) after ≡ some job)
            × Shows r job
            × (is_origin worker_id r job ≡ true))
  written_by (inserted free) new = (
    refl,
    (
      report_row worker_id r,
      found_last r.id (report_row worker_id r) jobs free refl,
      record {
        id = refl;
        tmux_session = refl;
        command = refl;
        status = refl;
        exit_code = refl;
        started_at = refl;
        finished_at = refl;
        revision = refl;
      },
      ground (
        arith,
        (string_eq.eq?_iff worker_id worker_id).1 refl,
        (string_eq.eq?_iff r.origin_session_id r.origin_session_id).1 refl,
      ),
    ),
  )
  written_by (updated j found hit) new =
      let row =
        find_where-update_where (is_outdated worker_id r) (has_id r.id) (reported r) jobs
          (λ k h. refl) in
      (
        refl,
        (
          reported r j,
          ground (arith, row, found, hit),
          record {
            id = (string_eq.eq?_iff j.id r.id).0 (find_where_sound (has_id r.id) jobs j found);
            tmux_session = refl;
            command = refl;
            status = refl;
            exit_code = refl;
            started_at = refl;
            finished_at = refl;
            revision = refl;
          },
          outdated_origin j hit,
        ),
      )
  written_by (kept j found miss) (inl gone) = absurd (ground (arith, found, gone))
  written_by (kept j found miss) (inr (row, same, newer)) =
      let hit = newer_outdated row same newer in
      absurd (
        cc (
          subst (λ k. is_outdated worker_id r k ≡ true) (some-injective row j (sym same ∙ found))
              hit,
          miss,
        ))

  -- A report that no row is outdated by leaves the table.
  unchanged_by :
      (row : Job)
      → Valid jobs
      → find_where (has_id r.id) jobs ≡ some row
      → is_outdated worker_id r row ≡ false
      → (apply_report worker_id r jobs).1 ≡ jobs
  unfolding apply_report get_job
  unchanged_by row v found miss =
      let same = kept_table worker_id r jobs row (v.unique r.id) found miss in
      elim (Bool-cases (is_origin worker_id r row)) [
        | inl mine ↦ ground (arith, same, found, mine)
        | inr foreign ↦ ground (arith, same, found, foreign)
      ]

  module _ (sessions : List PiSession) where
    abbrev outcome : Result (Job × Bool) × Jobs
    outcome = upsert_reported_worker_job worker_id r sessions jobs

    owner_applies : IsOwner worker_id r sessions → outcome ≡ apply_report worker_id r jobs
    unfolding upsert_reported_worker_job
    owner_applies o =
        let own = some_equals o.session.worker_id worker_id o.own in
        let session = o.found in ground (arith, session, own)

    -- The result of another is a refusal.
    session_cases :
        (outcome ≡ apply_report worker_id r jobs) ⊎ ((e : Error) × (outcome ≡ (raise e, jobs)))
    unfolding upsert_reported_worker_job
    session_cases = elim (Option-cases (find_where (has_session_id r.origin_session_id) sessions)) [
      | inl missing ↦ inr (key_error, ground (arith, missing))
      | inr (s, session) ↦ elim (Bool-cases (equals_sql s.worker_id (some worker_id))) [
        | inl own ↦ inl (ground (arith, session, own))
        | inr foreign ↦ inr (value_error, ground (arith, session, foreign))
      ]
    ]

    applied_by :
        Valid jobs
        → IsOwner worker_id r sessions
        → (find_where (has_id r.id) jobs ≡ none)
          ⊎ ((row : Job) × (find_where (has_id r.id) jobs ≡ some row) × IsNewer worker_id r row)
        → (job : Job) × (outcome.0 ≡ ok (job, true))
          × (find_where (has_id r.id) outcome.1 ≡ some job)
          × Shows r job
    applied_by v owner new =
        let (changed, (job, there, shows, mine)) =
          written_by (upsert_report-Written worker_id r jobs (v.unique r.id)) new in
        let e : apply_report worker_id r jobs
            ≡ (ok (job, true), (upsert_report worker_id r jobs).1) =
          unfold apply_report get_job in ground (arith, changed, there, mine) in
        rw (owner_applies owner, e) (job, refl, there, shows)

    kept_by :
        (row : Job)
        → Valid jobs
        → find_where (has_id r.id) jobs ≡ some row
        → is_outdated worker_id r row ≡ false
        → outcome.1 ≡ jobs
    kept_by row v found miss = elim session_cases [
      | inl applied ↦ rw applied (unchanged_by row v found miss)
      | inr (e, refused) ↦ rw refused refl
    ]

    refused_by :
        (row : Job)
        → Valid jobs
        → find_where (has_id r.id) jobs ≡ some row
        → is_origin worker_id r row ≡ false
        → (e : Error) × (outcome.0 ≡ raise e)
    refused_by row v found foreign = elim session_cases [
      | inr (e, refused) ↦ (e, rw refused refl)
      | inl applied ↦
          let same =
            kept_table worker_id r jobs row (v.unique r.id) found (foreign_kept row foreign) in
          (
            value_error,
            rw applied (unfold apply_report get_job in ground (arith, same, found, foreign)),
          )
    ]

    pub upsert_reported_worker_job-IsApplied :
        Valid jobs
        → IsApplied worker_id r sessions jobs
            (upsert_reported_worker_job worker_id r sessions jobs).0
            (upsert_reported_worker_job worker_id r sessions jobs).1
          × IsReport worker_id r sessions jobs
              (upsert_reported_worker_job worker_id r sessions jobs).0
              (upsert_reported_worker_job worker_id r sessions jobs).1
    upsert_reported_worker_job-IsApplied v = (
      record {
        applied = λ owner new. applied_by v owner new;
        stale = λ row found late. kept_by row v found (stale_kept row late);
        foreign = λ row found f.
            let other = foreign_row row f in
            (refused_by row v found other, kept_by row v found (foreign_kept row other));
      },
      upsert_reported_worker_job-IsReport worker_id r sessions jobs v,
    )
