-- ===== src/Jobs/Revisions.antt =====
-- `upsert_reported_worker_job` in db.py: what a report does to the table, and what its replay does.
use worker_harness.Base.{
  ◌≤◌, ◌≡◌, subst, sym, inl, inr, String, Bool, true, false, some, List, arith, string_eq,
  Bool-cases, Option-cases,
}
use worker_harness.Models.{Job, WorkerJobReport}
use worker_harness.Table.{find_where}
use worker_harness.Jobs.{Jobs, equals_sql, has_id, get_job}
use worker_harness.Jobs.Pending.{Result, ok, raise, key_error, value_error, runtime_error}
use worker_harness.Jobs.Exclusive.{Valid}
use worker_harness.Jobs.Reports.{is_origin, upsert_report, apply_report, upsert_reported_worker_job}
use worker_harness.Jobs.Replays.{
  Written, upsert_report-Written, settled, Written-Valid, Written-settled, Written-monotone,
}
use worker_harness.PiSessions.{PiSession, has_session_id}

-- What a report has done.
pub record IsReport (worker_id : String) (r : WorkerJobReport) (sessions : List PiSession)
    (jobs : Jobs) (result : Result (Job × Bool)) (after : Jobs) : Type 0 where
  pub valid : Valid after
  -- No row goes back to an earlier revision, and none disappears.
  pub monotone :
      (x : String) (row : Job)
      → find_where (has_id x) jobs ≡ some row
      → (later : Job) × (find_where (has_id x) after ≡ some later)
        × (row.report_revision ≤ later.report_revision)
  -- The same report again is acknowledged with the same row, and changes nothing.
  pub replay :
      (job : Job) (changed : Bool)
      → result ≡ ok (job, changed)
      → upsert_reported_worker_job worker_id r sessions after ≡ (ok (job, false), after)

module _ (worker_id : String) (r : WorkerJobReport) (sessions : List PiSession) (jobs : Jobs)
    (v : Valid jobs) where
  Reported : Result (Job × Bool) × Jobs → Type 0
  Reported x = IsReport worker_id r sessions jobs x.0 x.1

  refused : (e : _) → Reported (raise e, jobs)
  unfolding Reported
  refused e = record {
    valid = v;
    monotone = λ x row found. (row, found, omega arith);
    replay = λ job changed h. absurd (cc);
  }

  after : Jobs
  after = (upsert_report worker_id r jobs).1

  changed : Bool
  changed = (upsert_report worker_id r jobs).0

  written : Written worker_id r jobs changed after
  unfolding after changed
  written = upsert_report-Written worker_id r jobs (v.unique r.id)

  done_report :
      (s : PiSession)
      → find_where (has_session_id r.origin_session_id) sessions ≡ some s
      → equals_sql s.worker_id (some worker_id) ≡ true
      → (job : Job) → find_where (has_id r.id) after ≡ some job
      → is_origin worker_id r job ≡ true
      → Reported (ok (job, changed), after)
  unfolding Reported
  done_report s session own job there mine =
      let valid = Written-Valid worker_id r written v in
      let again : apply_report worker_id r after ≡ (ok (job, false), after) =
        settled worker_id r after job (valid.unique r.id) there
          (Written-settled worker_id r job written there) mine in
      record {
        valid = valid;
        monotone = Written-monotone worker_id r written;
        replay = λ job' c e.
            let same : job ≡ job' = ground (arith, e) in
            unfold upsert_reported_worker_job in ground (arith, session, own, again, same);
      }

  accepted :
      (s : PiSession)
      → find_where (has_session_id r.origin_session_id) sessions ≡ some s
      → equals_sql s.worker_id (some worker_id) ≡ true
      → Reported (apply_report worker_id r jobs)
  accepted s session own = elim (Option-cases (find_where (has_id r.id) after)) [
    | inl gone ↦
        let e : apply_report worker_id r jobs ≡ (raise runtime_error, jobs) =
          unfold apply_report get_job after in ground (arith, gone) in
        subst Reported (sym e) (refused runtime_error)
    | inr (job, there) ↦ elim (Bool-cases (is_origin worker_id r job)) [
      | inr foreign ↦
          let e : apply_report worker_id r jobs ≡ (raise value_error, jobs) =
            unfold apply_report get_job after in ground (arith, there, foreign) in
          subst Reported (sym e) (refused value_error)
      | inl mine ↦
          let e : apply_report worker_id r jobs ≡ (ok (job, changed), after) =
            unfold apply_report get_job after changed in ground (arith, there, mine) in
          subst Reported (sym e) (done_report s session own job there mine)
    ]
  ]

  -- Every report, refused or not, leaves the table valid and every revision where it was or later,
  -- and a report that was acknowledged is acknowledged again without a change.
  pub upsert_reported_worker_job-IsReport :
      IsReport worker_id r sessions jobs
        (upsert_reported_worker_job worker_id r sessions jobs).0
        (upsert_reported_worker_job worker_id r sessions jobs).1
  unfolding upsert_reported_worker_job Reported
  upsert_reported_worker_job-IsReport =
      elim (Option-cases (find_where (has_session_id r.origin_session_id) sessions)) [
        | inl missing ↦ rw (missing, upsert_reported_worker_job) (refused key_error)
        | inr (s, session) ↦ elim (Bool-cases (equals_sql s.worker_id (some worker_id))) [
          | inl own ↦
              rw (session, upsert_reported_worker_job)
                (rw (own, upsert_reported_worker_job) (accepted s session own))
          | inr foreign ↦
              rw (session, upsert_reported_worker_job)
                (rw (foreign, upsert_reported_worker_job) (refused value_error))
        ]
      ]
