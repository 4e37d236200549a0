-- ===== src/Control/Handling.antt =====
-- The requests on jobs always end, and keep the tables sound.
use worker_harness.Base.{
  ℕ, String, Bool, true, ◌||◌, not, inl, inr, ltb, is_empty, Bool-cases, Option-cases,
}
use worker_harness.Models.{is_pending, is_terminal}
use worker_harness.Workers.{get_worker}
use worker_harness.Jobs.{get_job}
use worker_harness.Jobs.Exclusive.{Valid}
use worker_harness.Jobs.Pending.{PendingUpdate}
use worker_harness.JobManager.{Remote}
use worker_harness.JobManager.Enqueue.{enqueue_job-IsEnqueued, start_job-Valid}
use worker_harness.JobManager.Stop.{stop_job-IsStop}
use worker_harness.Control.Queue.{Plane, answer, JobEnqueueRequest, or_blank, resolve_worker}
use worker_harness.Control.Requests.{
  jobs_queue_create, destination_of, jobs_queue_update, jobs_create, stopped_job, jobs_delete,
}
use worker_harness.Control.Ending.{
  IsHandled, handled, IsReconciled, IsRefreshed, refused_with-IsHandled, after_command-IsHandled,
  dispatch_all-IsReconciled, recover_each-Valid, refresh_each-IsRefreshed, started_job-IsHandled,
  update_at-IsHandled,
}
use worker_harness.Control.Reconcile.{reconcile_active_ssh_jobs, reconcile_queued_jobs}

module _ (remote : Remote) (lower : String → String) where
  jobs_queue_create-IsHandled :
      (id : String) (r : JobEnqueueRequest) (p : Plane)
      → Valid p.jobs
      → IsHandled (jobs_queue_create remote lower id r p)
  unfolding jobs_queue_create
  jobs_queue_create-IsHandled id r p v =
      elim (Option-cases (resolve_worker lower r.worker_id p.workers)) [
        | inl unknown ↦ rw (unknown, jobs_queue_create) (refused_with-IsHandled 404 p v)
        | inr (w, there) ↦ elim (Bool-cases (ltb w.gpu_count r.gpu_count)) [
          | inl many ↦ rw (there, many, jobs_queue_create) (refused_with-IsHandled 422 p v)
          | inr fits ↦
              let (result, rows, e, _, valid) =
                enqueue_job-IsEnqueued remote id w r.command r.name r.expected_seconds r.gpu_count
                  (not r.no_pty) p.jobs v in
              rw (there, fits, e, jobs_queue_create) (after_command-IsHandled p result rows valid)
        ]
      ]

  jobs_queue_update-IsHandled :
      (job_id : String) (u : PendingUpdate) (p : Plane)
      → Valid p.jobs
      → IsHandled (jobs_queue_update remote lower job_id u p)
  unfolding jobs_queue_update
  jobs_queue_update-IsHandled job_id u p v = elim (Option-cases (get_job job_id p.jobs)) [
    | inl unknown ↦ rw (unknown, jobs_queue_update) (refused_with-IsHandled 404 p v)
    | inr (job, there) ↦ elim (Bool-cases (not job.queue_managed || not (is_pending job.status))) [
      | inl started ↦ rw (there, started, jobs_queue_update) (refused_with-IsHandled 409 p v)
      | inr waits ↦
          rw (there, waits, jobs_queue_update)
            (let source = get_worker (or_blank job.worker_id) p.workers in
              update_at-IsHandled remote job u source (destination_of lower u source p) p v)
    ]
  ]

  jobs_create-IsHandled :
      (polls : ℕ) (id worker_id command name : String) (no_pty : Bool) (p : Plane)
      → Valid p.jobs
      → IsHandled (jobs_create remote lower polls id worker_id command name no_pty p)
  unfolding jobs_create
  jobs_create-IsHandled polls id worker_id command name no_pty p v =
      elim (Option-cases (resolve_worker lower worker_id p.workers)) [
        | inl unknown ↦ rw (unknown, jobs_create) (refused_with-IsHandled 404 p v)
        | inr (w, there) ↦
            rw (there, jobs_create)
              (started_job-IsHandled remote polls w _ _ p
                (start_job-Valid remote w p.jobs v id command name (not no_pty)))
      ]

  jobs_delete-IsHandled :
      (job_id : String) (p : Plane) → Valid p.jobs → IsHandled (jobs_delete remote job_id p)
  unfolding jobs_delete stopped_job
  jobs_delete-IsHandled job_id p v = elim (Option-cases (get_job job_id p.jobs)) [
    | inl unknown ↦ rw (unknown, jobs_delete) (refused_with-IsHandled 404 p v)
    | inr (job, there) ↦ elim (Bool-cases (is_empty (or_blank job.worker_id))) [
      | inl nowhere ↦ rw (there, nowhere, jobs_delete) (refused_with-IsHandled 404 p v)
      | inr somewhere ↦ elim (Bool-cases (is_terminal job.status)) [
        | inl ended ↦ rw (there, somewhere, ended, jobs_delete) (handled (answer true) p v)
        | inr going ↦ elim (Option-cases (get_worker (or_blank job.worker_id) p.workers)) [
          | inl gone ↦
              rw (there, somewhere, going, gone, jobs_delete) (refused_with-IsHandled 404 p v)
          | inr (w, found) ↦
              let (success, rows, e, d) = stop_job-IsStop remote w job_id p.jobs v in
              rw (there, somewhere, going, found, e, jobs_delete)
                (handled _ (record p { jobs = rows }) d.valid)
        ]
      ]
    ]
  ]

  -- What every request on jobs and both reconcilers do to valid tables.
  pub record Handles (p : Plane) : Type 0 where
    pub create :
        (id : String) (r : JobEnqueueRequest) → IsHandled (jobs_queue_create remote lower id r p)
    pub update :
        (job_id : String) (u : PendingUpdate)
        → IsHandled (jobs_queue_update remote lower job_id u p)
    pub start :
        (polls : ℕ) (id worker_id command name : String) (no_pty : Bool)
        → IsHandled (jobs_create remote lower polls id worker_id command name no_pty p)
    pub delete : (job_id : String) → IsHandled (jobs_delete remote job_id p)
    pub refresh : IsRefreshed (reconcile_active_ssh_jobs remote p)
    pub recover : IsReconciled (reconcile_queued_jobs remote p)

  -- Every request that queues, updates, starts or deletes a job is answered, and both reconcilers end,
  -- whatever the workers answer: no dispatch runs on. The job table that is left is valid, so no GPU
  -- is assigned twice.
  pub jobs-Handles : (p : Plane) → Valid p.jobs → Handles p
  unfolding reconcile_active_ssh_jobs reconcile_queued_jobs
  jobs-Handles p v = record {
    create = λ id r. jobs_queue_create-IsHandled id r p v;
    update = λ job_id u. jobs_queue_update-IsHandled job_id u p v;
    start = λ polls id worker_id command name no_pty.
        jobs_create-IsHandled polls id worker_id command name no_pty p v;
    delete = λ job_id. jobs_delete-IsHandled job_id p v;
    refresh = refresh_each-IsRefreshed remote _ p v;
    recover = dispatch_all-IsReconciled remote _ _ (recover_each-Valid remote _ p v);
  }
