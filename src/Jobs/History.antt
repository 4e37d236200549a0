-- ===== src/Jobs/History.antt =====
-- Every method of db.py that writes queue jobs, in any order.
use worker_harness.Base.{ℕ, ◌≤◌, ◌≡◌, String, Bool, true, false, Option, some, List, [], arith}
use worker_harness.PiSessions.{PiSession}
use worker_harness.Jobs.Reports.{upsert_reported_worker_job}
use worker_harness.Jobs.Revisions.{upsert_reported_worker_job-IsReport}
use worker_harness.Models.{WorkerJobReport, Job, Worker, JobStatus, ℤ, is_active}
use worker_harness.Table.{find_where, count_where}
use worker_harness.Jobs.{Jobs, has_id, insert_job, insert_queued_job, claim_queued_job, update_job}
use worker_harness.Jobs.Pending.{
  PendingUpdate, update_pending_job, fail_pending_job, reconcile_starting_job,
}
use worker_harness.Jobs.Load.{count_index, gpu_load}
use worker_harness.Jobs.Exclusive.{Valid, claim_queued_job-Valid}
use worker_harness.Jobs.Keeps.{insert_job-Valid, insert_queued_job-Valid}
use worker_harness.Jobs.Rewrites.{
  update_pending_job-Valid, fail_pending_job-Valid, reconcile_starting_job-Valid, with_status,
  with_status-Valid,
}

pub data Step (jobs : Jobs) : Jobs → Type 0 where
  -- `start_job` inserts its row outside the queue.
  starts :
      (j : Job) {after : Jobs}
      → j.queue_managed ≡ false
      → insert_job j jobs ≡ some after
      → Step jobs after
  enqueues :
      (j : Job) {job : Job} {after : Jobs}
      → insert_queued_job j jobs ≡ some (job, after)
      → Step jobs after
  -- `dispatch_worker` offers distinct indices.
  claims :
      (job_id : String) (gpus : List ℕ) (started_at : ℕ) (w : String)
      → ((i : ℕ) → count_index i gpus ≤ 1)
      → Step jobs (claim_queued_job job_id gpus started_at w jobs).1
  updates :
      (job_id : String) (u : PendingUpdate) (workers : List Worker)
      → Step jobs (update_pending_job job_id u workers jobs).1
  fails :
      (job_id : String) (finished_at : ℕ) → Step jobs (fail_pending_job job_id finished_at jobs).1
  reconciles :
      (job_id : String) (observed : Bool) (now : ℕ)
      → Step jobs (reconcile_starting_job job_id observed now jobs).1
  -- `update_job` as `_launch_job`, `stop_job` and `refresh_job_status` call it: with the row itself
  -- under another status, which is an active one only if the row was active.
  moves_on :
      (row : Job) (status : JobStatus) (exit_code : Option ℤ) (finished_at : ℕ)
      → find_where (has_id row.id) jobs ≡ some row
      → (is_active status ≡ true → is_active row.status ≡ true)
      → Step jobs (update_job (with_status row status exit_code finished_at) jobs)
  reports :
      (worker_id : String) (r : WorkerJobReport) (sessions : List PiSession)
      → Step jobs (upsert_reported_worker_job worker_id r sessions jobs).1

pub data Reach : Jobs → Type 0 where
  start : Reach []
  next : {jobs after : Jobs} → Reach jobs → Step jobs after → Reach after

Step-Valid : {jobs after : Jobs} → Step jobs after → Valid jobs → Valid after
Step-Valid {jobs} {after} (starts j free e) v = insert_job-Valid j jobs after e (ground arith) v
Step-Valid {jobs} {after} (enqueues j {job} e) v = insert_queued_job-Valid j job jobs after e v
Step-Valid {jobs} (claims job_id gpus t w distinct) v =
    claim_queued_job-Valid job_id gpus t w jobs v distinct
Step-Valid {jobs} (updates job_id u workers) v = update_pending_job-Valid job_id u workers jobs v
Step-Valid {jobs} (fails job_id t) v = fail_pending_job-Valid job_id t jobs v
Step-Valid {jobs} (reconciles job_id observed now) v =
    reconcile_starting_job-Valid job_id observed now jobs v
Step-Valid {jobs} (reports worker_id r sessions) v =
    (upsert_reported_worker_job-IsReport worker_id r sessions jobs v).valid
Step-Valid {jobs} (moves_on row status c f found down) v =
    with_status-Valid row status c f jobs found down v

pub empty-Valid : Valid []
unfolding count_where gpu_load
empty-Valid = record { unique = λ x. omega arith; exclusive = λ w i. omega arith; sized = tt }

-- After any sequence of inserts, enqueues, claims, updates, stops, recoveries, status changes and worker
-- reports, no
-- GPU of any worker is assigned to two active queue jobs or twice to one, job ids are unique, and
-- every active queue job holds exactly as many GPUs as it asked for.
pub Reach-Valid : {jobs : Jobs} → Reach jobs → Valid jobs
Reach-Valid start = empty-Valid
Reach-Valid (next r s) = Step-Valid s (Reach-Valid r)
