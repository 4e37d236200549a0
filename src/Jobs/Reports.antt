-- ===== src/Jobs/Reports.antt =====
-- `upsert_reported_worker_job` in db.py: the reports of workers about the jobs of their sessions.
use worker_harness.Base.{
  String, Bool, true, false, ◌&&◌, not, none, some, List, [], ◌∷◌, ◌++◌, ltb, ◌==◌, nat_eq,
  string_eq, if◌then◌else◌,
}
use worker_harness.Models.{Job, WorkerJobReport, delegated, is_delegated}
use worker_harness.Table.{update_where, count_where, find_where, exists_where}
use worker_harness.Jobs.{Jobs, equals_sql, has_id, get_job}
use worker_harness.Jobs.Pending.{Result, ok, raise, key_error, value_error, runtime_error}
use worker_harness.PiSessions.{PiSession, has_session_id}

-- The row that the INSERT makes of a report.
abbrev pub report_row : String → WorkerJobReport → Job
report_row worker_id r = record {
  id = r.id;
  worker_id = some worker_id;
  name = "";
  tmux_session = r.tmux_session;
  command = r.command;
  status = r.status;
  queue_managed = false;
  exit_code = r.exit_code;
  pty_enabled = r.pty_enabled;
  kind = delegated;
  origin_session_id = some r.origin_session_id;
  report_revision = r.report_revision;
  expected_seconds = 0;
  gpu_count = 0;
  gpu_indices = [];
  queue_order = 0;
  started_at = r.started_at;
  finished_at = r.finished_at;
}

-- ON CONFLICT(id) DO UPDATE
abbrev pub reported : WorkerJobReport → Job → Job
reported r j = record j {
  name = "";
  tmux_session = r.tmux_session;
  command = r.command;
  status = r.status;
  queue_managed = false;
  exit_code = r.exit_code;
  pty_enabled = r.pty_enabled;
  report_revision = r.report_revision;
  expected_seconds = 0;
  gpu_count = 0;
  gpu_indices = [];
  queue_order = 0;
  started_at = r.started_at;
  finished_at = r.finished_at;
}

-- `jobs.worker_id = excluded.worker_id AND jobs.origin_session_id = excluded.origin_session_id`
abbrev pub is_origin : String → WorkerJobReport → Job → Bool
is_origin worker_id r j =
    equals_sql j.worker_id (some worker_id)
    && equals_sql j.origin_session_id (some r.origin_session_id)

-- The row of the id, with the WHERE of the DO UPDATE.
unfoldable pub is_outdated : String → WorkerJobReport → Job → Bool
is_outdated worker_id r j =
    has_id r.id j
    && is_origin worker_id r j
    && is_delegated j.kind
    && ltb j.report_revision r.report_revision

-- The conditional UPSERT: whether a row was written, and the table.
unfoldable pub upsert_report : String → WorkerJobReport → Jobs → Bool × Jobs
upsert_report worker_id r jobs =
    if exists_where (has_id r.id) jobs
    then (
      not (count_where (is_outdated worker_id r) jobs == 0),
      update_where (is_outdated worker_id r) (reported r) jobs,
    )
    else (true, jobs ++ report_row worker_id r ∷ [])

unfoldable pub apply_report : String → WorkerJobReport → Jobs → Result (Job × Bool) × Jobs
apply_report worker_id r jobs =
    let (changed, after) = upsert_report worker_id r jobs in
    elim (get_job r.id after) [
      | none ↦ (raise runtime_error, jobs)
      | some job ↦
          if is_origin worker_id r job
          then (ok (job, changed), after)
          else (raise value_error, jobs)
    ]

unfoldable pub upsert_reported_worker_job :
    String → WorkerJobReport → List PiSession → Jobs → Result (Job × Bool) × Jobs
upsert_reported_worker_job worker_id r sessions jobs =
    elim (find_where (has_session_id r.origin_session_id) sessions) [
      | none ↦ (raise key_error, jobs)
      | some s ↦
          if equals_sql s.worker_id (some worker_id)
          then apply_report worker_id r jobs
          else (raise value_error, jobs)
    ]
