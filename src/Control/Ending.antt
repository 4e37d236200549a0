-- ===== src/Control/Ending.antt =====
-- The steps of the requests on jobs end, and keep the tables sound.
use worker_harness.Base.{
  ℕ, zero, suc, String, ◌||◌, Option, none, some, List, [], ◌∷◌, inl, inr, ltb, Bool-cases,
  Option-cases,
}
use worker_harness.Models.{Job, Worker, is_pending, is_active}
use worker_harness.Workers.{get_worker}
use worker_harness.Jobs.{Jobs, get_job}
use worker_harness.Jobs.Exclusive.{Valid}
use worker_harness.Jobs.Pending.{Result, ok, raise, PendingUpdate, or_else}
use worker_harness.Jobs.Rewrites.{update_pending_job-Valid}
use worker_harness.JobManager.{Remote}
use worker_harness.JobManager.Commands.{reconcile_starting_job}
use worker_harness.JobManager.Dispatch.{dispatch_worker-IsDispatched}
use worker_harness.JobManager.Enqueue.{reconcile_starting_job-Valid}
use worker_harness.JobManager.Refresh.{refresh_job_status-IsRefresh}
use worker_harness.Control.Queue.{Plane, Answer, answer, status, Handled, or_blank}
use worker_harness.Control.Requests.{
  refused_with, after_command, dispatch_all, dispatch_workers, read_back, after_dispatch,
  updated_queue, update_at, wait_for_job, started_job,
}
use worker_harness.Control.Reconcile.{refresh_each, recover_each}

-- The handler answers, and what it leaves is valid.
pub data IsHandled {A : Type 0} : Handled A → Type 0 where
  handled : (a : Answer A) (after : Plane) → Valid after.jobs → IsHandled (some (a, after))

pub data IsReconciled : Option Jobs → Type 0 where
  reconciled : (rows : Jobs) → Valid rows → IsReconciled (some rows)

pub data IsRefreshed : Option Plane → Type 0 where
  refreshed : (after : Plane) → Valid after.jobs → IsRefreshed (some after)

pub refused_with-IsHandled :
    {A : Type 0} (code : ℕ) (p : Plane) → Valid p.jobs → IsHandled (refused_with {A = A} code p)
unfolding refused_with
refused_with-IsHandled code p v = handled (status code) p v

pub after_command-IsHandled :
    {A : Type 0} (p : Plane) (r : Result A) (rows : Jobs)
    → Valid rows
    → IsHandled (after_command p (some (r, rows)))
unfolding after_command
after_command-IsHandled p (ok a) rows v = handled (answer a) (record p { jobs = rows }) v
after_command-IsHandled p (raise e) rows v = handled (status 500) (record p { jobs = rows }) v

pub after_dispatch-IsHandled :
    (job_id : String) (p : Plane) (o : Option Jobs)
    → IsReconciled o
    → IsHandled (after_dispatch job_id p o)
unfolding after_dispatch
after_dispatch-IsHandled job_id p _ (reconciled rows v) =
    handled (read_back (record p { jobs = rows }) (get_job job_id rows)) (record p { jobs = rows })
      v

module _ (remote : Remote) where
  pub dispatch_all-IsReconciled :
      (ws : List Worker) (jobs : Jobs) → Valid jobs → IsReconciled (dispatch_all remote ws jobs)
  unfolding dispatch_all
  dispatch_all-IsReconciled [] jobs v = reconciled jobs v
  dispatch_all-IsReconciled (w ∷ ws) jobs v =
      let (launched, rows, e, d, _) = dispatch_worker-IsDispatched remote w jobs v in
      rw (e, dispatch_all) (dispatch_all-IsReconciled ws rows d.valid)

  pub recover_each-Valid :
      (js : List Job) (p : Plane) → Valid p.jobs → Valid (recover_each remote js p)
  unfolding recover_each
  recover_each-Valid [] p v = v
  recover_each-Valid (j ∷ js) p v =
      elim (Option-cases (get_worker (or_blank j.worker_id) p.workers)) [
        | inl gone ↦ rw (gone, recover_each) (recover_each-Valid js p v)
        | inr (w, there) ↦
            rw (there, recover_each)
              (recover_each-Valid js
                (record p { jobs = (reconcile_starting_job remote w j p.jobs).1 })
                (reconcile_starting_job-Valid remote w p.jobs v j))
      ]

  pub refresh_each-IsRefreshed :
      (js : List Job) (p : Plane) → Valid p.jobs → IsRefreshed (refresh_each remote js p)
  unfolding refresh_each
  refresh_each-IsRefreshed [] p v = refreshed p v
  refresh_each-IsRefreshed (j ∷ js) p v =
      elim (Option-cases (get_worker (or_blank j.worker_id) p.workers)) [
        | inl gone ↦ rw (gone, refresh_each) (refresh_each-IsRefreshed js p v)
        | inr (w, there) ↦
            let (row, rows, noted, e, _, valid) =
              refresh_job_status-IsRefresh remote w j p.jobs p.failures v in
            rw (there, e, refresh_each)
              (refresh_each-IsRefreshed js (record p { jobs = rows; failures = noted }) valid)
      ]

  pub wait_for_job-IsHandled :
      (polls : ℕ) (w : Worker) (job : Job) (p : Plane)
      → Valid p.jobs
      → IsHandled (wait_for_job remote polls w job p)
  unfolding wait_for_job
  wait_for_job-IsHandled zero w job p v = handled (answer job) p v
  wait_for_job-IsHandled (suc polls) w job p v =
      let (row, rows, noted, e, _, valid) =
        refresh_job_status-IsRefresh remote w job p.jobs p.failures v in
      let after = record p { jobs = rows; failures = noted } in
      rw (e, wait_for_job)
        (elim (Bool-cases (is_active row.status || is_pending row.status)) [
          | inl going ↦ rw going (wait_for_job-IsHandled polls w row after valid)
          | inr ended ↦ rw ended (handled (answer row) after valid)
        ])

  pub started_job-IsHandled :
      (polls : ℕ) (w : Worker) (r : Result Job) (rows : Jobs) (p : Plane)
      → Valid rows
      → IsHandled (started_job remote polls w (r, rows) p)
  unfolding started_job
  started_job-IsHandled polls w (raise e) rows p v =
      handled (status 500) (record p { jobs = rows }) v
  started_job-IsHandled polls w (ok job) rows p v =
      wait_for_job-IsHandled polls w job (record p { jobs = rows }) v

  pub updated_queue-IsHandled :
      (job_id : String) (u : PendingUpdate) (source : Option Worker) (destination : Worker)
      (r : Result Job) (rows : Jobs) (p : Plane)
      → Valid rows
      → IsHandled (updated_queue remote job_id u source destination (r, rows) p)
  unfolding updated_queue
  updated_queue-IsHandled job_id u source destination (raise e) rows p v =
      refused_with-IsHandled _ (record p { jobs = rows }) v
  updated_queue-IsHandled job_id u source destination (ok job) rows p v =
      after_dispatch-IsHandled job_id p
        (dispatch_all remote (dispatch_workers source destination) rows)
        (dispatch_all-IsReconciled (dispatch_workers source destination) rows v)

  pub update_at-IsHandled :
      (job : Job) (u : PendingUpdate) (source destination : Option Worker) (p : Plane)
      → Valid p.jobs
      → IsHandled (update_at remote job u source destination p)
  unfolding update_at
  update_at-IsHandled job u source none p v = refused_with-IsHandled 404 p v
  update_at-IsHandled job u source (some destination) p v =
      elim (Bool-cases (ltb destination.gpu_count (or_else u.gpu_count job.gpu_count))) [
        | inl many ↦ rw many (refused_with-IsHandled 422 p v)
        | inr fits ↦ rw fits (
            updated_queue-IsHandled job.id u source destination _ _ p
              (update_pending_job-Valid job.id _ p.workers p.jobs v))
      ]
