-- ===== src/JobManager/History.antt =====
-- Every command of job.py in any order, with any answers of the workers, and every sequence of them.
use worker_harness.Base.{ℕ, ◌≡◌, subst, String, Bool, some, List, []}
use worker_harness.Workers.{Workers, delete_worker}
use worker_harness.Workers.Removals.{delete_worker-IsDeletion}
use worker_harness.PiSessions.{PiSession}
use worker_harness.Jobs.Reports.{upsert_reported_worker_job}
use worker_harness.Jobs.Revisions.{upsert_reported_worker_job-IsReport}
use worker_harness.Models.{WorkerJobReport, Job, Worker, Failure}
use worker_harness.Jobs.{Jobs}
use worker_harness.Jobs.Pending.{PendingUpdate, update_pending_job, Result}
use worker_harness.Jobs.Exclusive.{Valid}
use worker_harness.Jobs.History.{empty-Valid}
use worker_harness.Jobs.Rewrites.{update_pending_job-Valid}
use worker_harness.JobManager.{Remote, dispatch_worker}
use worker_harness.JobManager.Dispatch.{dispatch_worker-IsDispatched}
use worker_harness.JobManager.Stop.{stop_job-IsStop}
use worker_harness.JobManager.Refresh.{refresh_job_status-IsRefresh}
use worker_harness.JobManager.Enqueue.{
  enqueue_job-IsEnqueued, start_job-Valid, reconcile_starting_job-Valid,
}
use worker_harness.JobManager.Commands.{
  start_job, enqueue_job, stop_job, refresh_job_status, reconcile_starting_job,
}

pub data Command (jobs : Jobs) : Jobs → Type 0 where
  started :
      (remote : Remote) (id : String) (w : Worker) (command name : String) (pty_enabled : Bool)
      → Command jobs (start_job remote id w command name pty_enabled jobs).1
  enqueued :
      (remote : Remote) (id : String) (w : Worker) (command name : String) (seconds gpus : ℕ)
      (pty_enabled : Bool) (r : Result Job) (after : Jobs)
      → enqueue_job remote id w command name seconds gpus pty_enabled jobs ≡ some (r, after)
      → Command jobs after
  dispatched :
      (remote : Remote) (w : Worker) (launched : List Job) (after : Jobs)
      → dispatch_worker remote w jobs ≡ some (launched, after)
      → Command jobs after
  stopped :
      (remote : Remote) (w : Worker) (id : String) (success : Bool) (after : Jobs)
      → stop_job remote w id jobs ≡ some (success, after)
      → Command jobs after
  refreshed :
      (remote : Remote) (w : Worker) (job row : Job) (after : Jobs) (failures noted : List Failure)
      → refresh_job_status remote w job jobs failures ≡ some (row, after, noted)
      → Command jobs after
  recovered :
      (remote : Remote) (w : Worker) (job : Job)
      → Command jobs (reconcile_starting_job remote w job jobs).1
  updated :
      (id : String) (u : PendingUpdate) (workers : List Worker)
      → Command jobs (update_pending_job id u workers jobs).1
  reports :
      (worker_id : String) (r : WorkerJobReport) (sessions : List PiSession)
      → Command jobs (upsert_reported_worker_job worker_id r sessions jobs).1
  deleted : (x : String) (ws : Workers) → Command jobs (delete_worker x ws jobs).2

pub data Managed : Jobs → Type 0 where
  fresh : Managed []
  then : {jobs after : Jobs} → Managed jobs → Command jobs after → Managed after

Command-Valid : {jobs after : Jobs} → Command jobs after → Valid jobs → Valid after
Command-Valid {jobs} (started remote id w command name pty) v =
    start_job-Valid remote w jobs v id command name pty
Command-Valid {jobs} {after} (enqueued remote id w command name seconds gpus pty r _ e) v =
    let (r, rows, result, _, valid) =
      enqueue_job-IsEnqueued remote id w command name seconds gpus pty jobs v in
    subst Valid (cc (e, result)) valid
Command-Valid {jobs} {after} (dispatched remote w launched _ e) v =
    let (launched, rows, result, d, _) = dispatch_worker-IsDispatched remote w jobs v in
    subst Valid (cc (e, result)) d.valid
Command-Valid {jobs} {after} (stopped remote w id success _ e) v =
    let (success, rows, result, d) = stop_job-IsStop remote w id jobs v in
    subst Valid (cc (e, result)) d.valid
Command-Valid {jobs} {after} (refreshed remote w job row _ failures noted e) v =
    let (row, rows, noted, result, _, valid) =
      refresh_job_status-IsRefresh remote w job jobs failures v in
    subst Valid (cc (e, result)) valid
Command-Valid {jobs} (recovered remote w job) v = reconcile_starting_job-Valid remote w jobs v job
Command-Valid {jobs} (updated id u workers) v = update_pending_job-Valid id u workers jobs v
Command-Valid {jobs} (reports worker_id r sessions) v =
    (upsert_reported_worker_job-IsReport worker_id r sessions jobs v).valid
Command-Valid {jobs} (deleted x ws) v = (delete_worker-IsDeletion x ws jobs).valid v

-- After any sequence of starts, enqueues, dispatches, stops, refreshes, recoveries, updates, worker
-- reports and deletions of workers,
-- whatever the workers have answered to them, no GPU of any worker is assigned to two active queue
-- jobs or twice to one, ids are unique, and every active queue job holds as many GPUs as it asked for.
pub Managed-Valid : {jobs : Jobs} → Managed jobs → Valid jobs
Managed-Valid fresh = empty-Valid
Managed-Valid (then m c) = Command-Valid c (Managed-Valid m)
