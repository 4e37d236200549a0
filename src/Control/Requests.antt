-- ===== src/Control/Requests.antt =====
-- src/worker_harness/heartbeat.py: the requests that change jobs, and the two reconcilers. A handler
-- runs without the writes of other requests between its statements; the reconcilers take one job
-- after another. The outer `Option` is `none` if a dispatch has not ended.
use worker_harness.Base.{
  ℕ, zero, suc, String, Bool, true, false, ◌||◌, not, Option, none, some, List, [], ◌∷◌, ltb,
  is_empty, ◌==◌, nat_eq, string_eq, if◌then◌else◌,
}
use worker_harness.Models.{Job, Worker, is_pending, is_active, is_terminal}
use worker_harness.Workers.{get_worker}
use worker_harness.Jobs.{Jobs, get_job}
use worker_harness.Jobs.Pending.{
  Result, ok, raise, Error, key_error, value_error, PendingUpdate, or_else, update_pending_job,
}
use worker_harness.JobManager.{Remote, dispatch_worker}
use worker_harness.JobManager.Commands.{start_job, enqueue_job, stop_job, refresh_job_status}
use worker_harness.Control.Queue.{
  Plane, Answer, answer, status, QueueItem, JobEnqueueRequest, Handled, or_blank, list_all_queued,
  queue_item, resolve_worker,
}

unfoldable pub refused_with : {A : Type 0} → ℕ → Plane → Handled A
refused_with code p = some (status code, p)

-- The answer to a command of job.py: its exceptions are not caught.
unfoldable pub after_command : {A : Type 0} → Plane → Option (Result A × Jobs) → Handled A
after_command p none = none
after_command p (some (ok a, rows)) = some (answer a, record p { jobs = rows })
after_command p (some (raise e, rows)) = some (status 500, record p { jobs = rows })

-- Each worker in turn.
unfoldable pub dispatch_all : Remote → List Worker → Jobs → Option Jobs
dispatch_all remote [] jobs = some jobs
dispatch_all remote (w ∷ ws) jobs = elim (dispatch_worker remote w jobs) as (λ _. Option Jobs) [
  | none ↦ none
  | some (launched, rows) ↦ dispatch_all remote ws rows
]

-- `{worker.id: worker for worker in (source_worker, destination_worker) if worker is not None}`
unfoldable pub dispatch_workers : Option Worker → Worker → List Worker
dispatch_workers none destination = destination ∷ []
dispatch_workers (some source) destination =
    if source.id == destination.id then destination ∷ [] else source ∷ destination ∷ []

-- The status of an exception of `update_pending_job`.
abbrev update_status : Error → ℕ
update_status key_error = 404
update_status value_error = 409
update_status _ = 500

-- The row as it is read back.
unfoldable pub read_back : Plane → Option Job → Answer QueueItem
read_back p none = status 404
read_back p (some job) = answer (queue_item p.workers (list_all_queued p.jobs) job)

unfoldable pub after_dispatch : String → Plane → Option Jobs → Handled QueueItem
after_dispatch job_id p none = none
after_dispatch job_id p (some rows) =
    let after = record p { jobs = rows } in some (read_back after (get_job job_id rows), after)

unfoldable pub destination_of :
    (String → String) → PendingUpdate → Option Worker → Plane → Option Worker
destination_of lower u source p = elim u.worker_id as (λ _. Option Worker) [
  | none ↦ source
  | some x ↦ resolve_worker lower x p.workers
]

module _ (remote : Remote) where
  -- From the UPDATE on, with the workers whose queues can move.
  unfoldable pub updated_queue :
      String
      → PendingUpdate
      → Option Worker
      → Worker
      → Result Job × Jobs
      → Plane
      → Handled QueueItem
  unfolding refused_with dispatch_all after_dispatch
  updated_queue job_id u source destination (raise e, rows) p =
      refused_with (update_status e) (record p { jobs = rows })
  updated_queue job_id u source destination (ok job, rows) p =
      after_dispatch job_id p (dispatch_all remote (dispatch_workers source destination) rows)

  -- With a worker to go to, and its id where the request names one.
  unfoldable pub update_at :
      Job → PendingUpdate → Option Worker → Option Worker → Plane → Handled QueueItem
  unfolding updated_queue
  update_at job u source none p = refused_with 404 p
  update_at job u source (some destination) p =
      if ltb destination.gpu_count (or_else u.gpu_count job.gpu_count)
      then refused_with 422 p
      else updated_queue job.id u source destination
          (update_pending_job job.id
            (record u {
              worker_id = elim u.worker_id as (λ _. Option String) [
                | none ↦ none
                | some _ ↦ some destination.id
              ];
            })
            p.workers p.jobs)
          p

  -- The polls of a request that waits for its job.
  unfoldable pub wait_for_job : ℕ → Worker → Job → Plane → Handled Job
  wait_for_job zero w job p = some (answer job, p)
  wait_for_job (suc polls) w job p =
      elim (refresh_job_status remote w job p.jobs p.failures) as (λ _. Handled Job) [
        | none ↦ none
        | some (row, rows, noted) ↦
            let after = record p { jobs = rows; failures = noted } in
            let again = wait_for_job polls w row after in
            if is_active row.status || is_pending row.status
            then again
            else some (answer row, after)
      ]

  unfoldable pub started_job : ℕ → Worker → Result Job × Jobs → Plane → Handled Job
  unfolding wait_for_job
  started_job polls w (raise e, rows) p = some (status 500, record p { jobs = rows })
  started_job polls w (ok job, rows) p = wait_for_job polls w job (record p { jobs = rows })

  unfoldable pub stopped_job : Plane → Option (Bool × Jobs) → Handled Bool
  stopped_job p none = none
  stopped_job p (some (success, rows)) =
      let after = record p { jobs = rows } in
      some (if success then answer false else status 500, after)

  -- `jobs_delete`: whether the job had ended before.
  unfoldable pub jobs_delete : String → Plane → Handled Bool
  unfolding stopped_job
  jobs_delete job_id p = elim (get_job job_id p.jobs) as (λ _. Handled Bool) [
    | none ↦ refused_with 404 p
    | some job ↦
        if is_empty (or_blank job.worker_id)
        then refused_with 404 p
        else if is_terminal job.status
        then some (answer true, p)
        else elim (get_worker (or_blank job.worker_id) p.workers) as (λ _. Handled Bool) [
          | none ↦ refused_with 404 p
          | some w ↦ stopped_job p (stop_job remote w job_id p.jobs)
        ]
  ]

  module _ (lower : String → String) where
    unfoldable pub jobs_queue_create : String → JobEnqueueRequest → Plane → Handled Job
    unfolding refused_with after_command
    jobs_queue_create id r p =
        elim (resolve_worker lower r.worker_id p.workers) as (λ _. Handled Job) [
          | none ↦ refused_with 404 p
          | some w ↦
              if ltb w.gpu_count r.gpu_count
              then refused_with 422 p
              else after_command p (
                  enqueue_job remote id w r.command r.name r.expected_seconds r.gpu_count
                    (not r.no_pty) p.jobs)
        ]

    unfoldable pub jobs_queue_update : String → PendingUpdate → Plane → Handled QueueItem
    unfolding update_at
    jobs_queue_update job_id u p = elim (get_job job_id p.jobs) as (λ _. Handled QueueItem) [
      | none ↦ refused_with 404 p
      | some job ↦
          if not job.queue_managed || not (is_pending job.status)
          then refused_with 409 p
          else let source = get_worker (or_blank job.worker_id) p.workers in
            update_at job u source (destination_of lower u source p) p
    ]

    -- `jobs_create`, with as many polls as fit before the deadline, none where it does not wait.
    unfoldable pub jobs_create : ℕ → String → String → String → String → Bool → Plane → Handled Job
    unfolding started_job
    jobs_create polls id worker_id command name no_pty p =
        elim (resolve_worker lower worker_id p.workers) as (λ _. Handled Job) [
          | none ↦ refused_with 404 p
          | some w ↦ started_job polls w (start_job remote id w command name (not no_pty) p.jobs) p
        ]
