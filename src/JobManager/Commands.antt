-- ===== src/JobManager/Commands.antt =====
-- src/worker_harness/job.py: the commands that start, queue, recover, stop and refresh a job. Each
-- runs its first part under the dispatch lock of the worker and dispatches after it. The outer
-- `Option` is `none` if a dispatch has not ended.
use worker_harness.Base.{
  ℕ, zero, String, Bool, true, false, ◌&&◌, ◌||◌, not, Option, none, some, List, [], ◌∷◌, ◌++◌,
  is_some, strip, replace_char, prefix, text_append, ◌==◌, nat_eq, string_eq, if◌then◌else◌,
}
use worker_harness.Models.{
  Job, Worker, Failure, ℤ, pos, negsuc, starting, pending, done, failed, ssh, is_pending,
  is_running, is_starting, is_active, is_terminal,
}
use worker_harness.Jobs.{Jobs, equals_sql, get_job, insert_job, insert_queued_job, update_job}
use worker_harness.Jobs.Pending.{
  Result, ok, raise, integrity_error, runtime_error, fail_pending_job,
}
use worker_harness.Jobs.Pending.{reconcile_starting_job as db_reconcile}
use worker_harness.JobManager.{Remote, is_nonzero, launch_job, dispatch_worker}

-- A `Job` with the defaults of models.py; its id is a fresh UUID.
abbrev pub new_job : String → Worker → String → String → Bool → Job
new_job id w name command pty_enabled = record {
  id = id;
  worker_id = some w.id;
  name = name;
  tmux_session = text_append "wh_" id;
  command = command;
  status = pending;
  queue_managed = false;
  exit_code = none;
  pty_enabled = pty_enabled;
  kind = ssh;
  origin_session_id = none;
  report_revision = 0;
  expected_seconds = 0;
  gpu_count = 0;
  gpu_indices = [];
  queue_order = 0;
  started_at = 0;
  finished_at = 0;
}

abbrev pub queue_request : String → Worker → String → String → ℕ → ℕ → Bool → Job
queue_request id w command name expected_seconds gpu_count pty_enabled =
    record (new_job id w name command pty_enabled) {
      queue_managed = true;
      expected_seconds = expected_seconds;
      gpu_count = gpu_count;
    }

-- `_record_failure`: the last line of the log, on one line and at most 200 characters.
unfoldable pub failure_summary : String → String
failure_summary text = prefix 200 (replace_char "\n" " " (strip text))

-- `exit_code or -1`
abbrev pub exit_code_or : Option ℤ → ℤ
exit_code_or none = negsuc 0
exit_code_or (some (pos zero)) = negsuc 0
exit_code_or (some c) = c

-- `returncode == 0 and output in ("", "stopped")`
abbrev pub is_stopped : ℤ × String → Bool
is_stopped (code, output) = not (is_nonzero code) && (output == "" || output == "stopped")

module _ (remote : Remote) where
  unfoldable pub start_job : String → Worker → String → String → Bool → Jobs → Result Job × Jobs
  start_job id w command name pty_enabled jobs =
      let job = record (new_job id w name command pty_enabled) {
        status = starting;
        started_at = remote.now;
      } in
      elim (insert_job job jobs) [
        | none ↦ (raise integrity_error, jobs)
        | some after ↦ let (launched, rows) = launch_job remote w job after in (ok launched, rows)
      ]

  unfoldable pub enqueue_job :
      String → Worker → String → String → ℕ → ℕ → Bool → Jobs → Option (Result Job × Jobs)
  enqueue_job id w command name expected_seconds gpu_count pty_enabled jobs =
      elim (insert_queued_job
        (queue_request id w command name expected_seconds gpu_count pty_enabled) jobs) [
          | none ↦ some (raise integrity_error, jobs)
          | some (job, queued) ↦ elim (dispatch_worker remote w queued) [
            | none ↦ none
            | some (launched, after) ↦ elim (get_job id after) [
              | none ↦ some (raise runtime_error, after)
              | some persisted ↦ some (ok persisted, after)
            ]
          ]
        ]

  unfoldable pub reconcile_starting_job : Worker → Job → Jobs → Job × Jobs
  reconcile_starting_job w job jobs = elim (get_job job.id jobs) [
    | none ↦ (job, jobs)
    | some persisted ↦
        if not (is_starting persisted.status)
        then (persisted, jobs)
        else elim (remote.ssh_job_started w job.id) [
          | none ↦ (persisted, jobs)
          | some observed ↦
              let (reconciled, after) = db_reconcile job.id observed remote.now jobs in
              elim reconciled [ none ↦ (persisted, after) | some row ↦ (row, after) ]
        ]
  ]

  -- The part under the lock: whether the job is stopped, whether to dispatch, and the table.
  unfoldable pub stop_running : Worker → String → Jobs → Bool × Bool × Jobs
  stop_running w job_id jobs =
      if is_stopped (remote.ssh_tmux_kill w job_id)
      then elim (get_job job_id jobs) [
        | none ↦ (true, false, jobs)
        | some job ↦
            if is_active job.status || is_pending job.status
            then (
              true,
              job.queue_managed,
              update_job
                  (record job {
                    status = failed;
                    exit_code = some (negsuc 0);
                    finished_at = remote.now;
                  })
                  jobs,
            )
            else (true, false, jobs)
      ]
      else (false, false, jobs)

  unfoldable pub stop_pending : String → Jobs → Bool × Bool × Jobs
  stop_pending job_id jobs =
      let (stopped, after) = fail_pending_job job_id remote.now jobs in
      (is_some stopped, is_some stopped, after)

  unfoldable pub stop_locked : Worker → String → Jobs → Bool × Bool × Jobs
  stop_locked w job_id jobs = elim (get_job job_id jobs) [
    | none ↦ stop_running w job_id jobs
    | some job ↦
        if not (equals_sql job.worker_id (some w.id))
        then (false, false, jobs)
        else if is_terminal job.status
        then (true, false, jobs)
        else if job.queue_managed && is_pending job.status
        then stop_pending job_id jobs
        else stop_running w job_id jobs
  ]

  unfoldable pub stop_job : Worker → String → Jobs → Option (Bool × Jobs)
  stop_job w job_id jobs =
      let (success, should_dispatch, after) = stop_locked w job_id jobs in
      if should_dispatch
      then elim (dispatch_worker remote w after) [
        | none ↦ none
        | some (launched, rows) ↦ some (success, rows)
      ]
      else some (success, after)

  abbrev pub mark_finished : ℤ → Job → Job
  mark_finished exit_code job = record job {
    status = if is_nonzero exit_code then failed else done;
    exit_code = some exit_code;
    finished_at = remote.now;
  }

  -- The exit code of a job that is to be marked as finished; `none` is the early return of the row.
  unfoldable pub ended_with : Worker → Job → Option ℤ
  ended_with w job =
      if not (equals_sql job.worker_id (some w.id))
      then none
      else if not (is_running job.status || is_pending job.status)
      then none
      else if job.queue_managed && is_pending job.status
      then none
      else elim (remote.ssh_tmux_running w job.id) [
        | none ↦ none
        | some is_up ↦ if is_up then none else remote.ssh_get_exit_code w job.id
      ]

  unfoldable pub record_failure : Worker → Job → List Failure → List Failure
  record_failure w job failures =
      failures
      ++ record {
        job_id = job.id;
        worker_id = w.id;
        exit_code = exit_code_or job.exit_code;
        timestamp = remote.now;
        summary = failure_summary (remote.ssh_read_log w job.id);
      }
        ∷ []

  unfoldable pub refresh_job_status :
      Worker → Job → Jobs → List Failure → Option (Job × Jobs × List Failure)
  refresh_job_status w job jobs failures = elim (get_job job.id jobs) [
    | none ↦ some (job, jobs, failures)
    | some row ↦ elim (ended_with w row) [
      | none ↦ some (row, jobs, failures)
      | some exit_code ↦
          let ended = mark_finished exit_code row in
          let after = update_job ended jobs in
          let noted = if is_nonzero exit_code then record_failure w ended failures else failures in
          if ended.queue_managed
          then elim (dispatch_worker remote w after) [
            | none ↦ none
            | some (launched, rows) ↦ some (ended, rows, noted)
          ]
          else some (ended, after, noted)
    ]
  ]
