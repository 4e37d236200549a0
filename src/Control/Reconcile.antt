-- ===== src/Control/Reconcile.antt =====
-- src/worker_harness/heartbeat.py: the reconcilers, which refresh running jobs and recover the queue.
-- They take one job after another.
use worker_harness.Base.{
  Bool, false, ◌&&◌, ◌||◌, not, Option, none, some, List, [], ◌∷◌, ltb, ◌==◌, nat_eq, string_eq,
}
use worker_harness.Models.{Job, starting, is_online, is_pending, is_running, is_delegated}
use worker_harness.Table.{select}
use worker_harness.Table.Order.{order_by}
use worker_harness.Workers.{get_worker, list_workers}
use worker_harness.Jobs.{Jobs}
use worker_harness.JobManager.{Remote}
use worker_harness.JobManager.Commands.{refresh_job_status, reconcile_starting_job}
use worker_harness.Control.Gateway.{text_ltb}
use worker_harness.Control.Queue.{Plane, or_blank, list_jobs}
use worker_harness.Control.Requests.{dispatch_all}

abbrev is_refreshed : Job → Bool
is_refreshed j =
    not (is_delegated j.kind) && (is_running j.status || is_pending j.status && not j.queue_managed)

-- `(item.started_at, item.queue_order, item.id)` in the order of tuples
unfoldable pub older : Job → Job → Bool
older a b =
    ltb a.started_at b.started_at
    || (a.started_at == b.started_at
        && (ltb a.queue_order b.queue_order
            || (a.queue_order == b.queue_order && text_ltb a.id b.id)))

abbrev has_online_worker : Plane → Job → Bool
has_online_worker p j = elim (get_worker (or_blank j.worker_id) p.workers) as (λ _. Bool) [
  | none ↦ false
  | some w ↦ is_online w.status
]

module _ (remote : Remote) where
  unfoldable pub refresh_each : List Job → Plane → Option Plane
  refresh_each [] p = some p
  refresh_each (j ∷ js) p =
      elim (get_worker (or_blank j.worker_id) p.workers) as (λ _. Option Plane) [
        | none ↦ refresh_each js p
        | some w ↦ elim (refresh_job_status remote w j p.jobs p.failures) as (λ _. Option Plane) [
          | none ↦ none
          | some (row, rows, noted) ↦ refresh_each js (record p { jobs = rows; failures = noted })
        ]
      ]

  unfoldable pub reconcile_active_ssh_jobs : Plane → Option Plane
  unfolding refresh_each
  reconcile_active_ssh_jobs p =
      refresh_each (select is_refreshed (list_jobs none none none p.jobs)) p

  unfoldable pub recover_each : List Job → Plane → Jobs
  recover_each [] p = p.jobs
  recover_each (j ∷ js) p = elim (get_worker (or_blank j.worker_id) p.workers) as (λ _. Jobs) [
    | none ↦ recover_each js p
    | some w ↦ recover_each js (record p { jobs = (reconcile_starting_job remote w j p.jobs).1 })
  ]

  -- Recovery puts missing launches in front, so the newest comes first.
  unfoldable pub reconcile_queued_jobs : Plane → Option Jobs
  unfolding recover_each older
  reconcile_queued_jobs p =
      let stuck =
        select (λ j. not (is_delegated j.kind) && has_online_worker p j)
          (list_jobs none (some starting) none p.jobs) in
      dispatch_all remote (select (λ w. is_online w.status) (list_workers p.workers))
        (recover_each (order_by (λ a b. not (older a b)) stuck) p)
