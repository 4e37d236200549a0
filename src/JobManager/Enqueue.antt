-- ===== src/JobManager/Enqueue.antt =====
-- `start_job`, `enqueue_job` and `reconcile_starting_job` in job.py.
use worker_harness.Base.{
  ℕ, ◌<◌, ◌≡◌, ◌⊎◌, refl, inl, inr, String, Bool, true, false, some, none, [], ◌∷◌, ◌++◌, arith,
  nat_eq, string_eq, Bool-cases, Option-cases,
}
use worker_harness.Models.{Job, Worker, starting, is_starting}
use worker_harness.Table.{find_where, count_where, exists_where}
use worker_harness.Table.Laws.{find_where_sound, find_where-counted, count_where-append}
use worker_harness.Jobs.{Jobs, has_id, insert_job, insert_queued_job, get_job, queue_job}
use worker_harness.Jobs.Pending.{Result, ok, raise, integrity_error}
use worker_harness.Jobs.Pending.{reconcile_starting_job as db_reconcile}
use worker_harness.Jobs.Exclusive.{Valid}
use worker_harness.Jobs.Keeps.{stored, insert_job-Valid}
use worker_harness.Jobs.Rewrites.{reconcile_starting_job-Valid as db_reconcile-Valid}
use worker_harness.JobManager.{Remote}
use worker_harness.JobManager.Dispatch.{dispatch_worker-IsDispatched}
use worker_harness.JobManager.Launch.{launch_job-Outcome, Outcome-Valid}
use worker_harness.JobManager.Commands.{
  new_job, queue_request, start_job, enqueue_job, reconcile_starting_job,
}

insert_job-cases :
    (j : Job) (jobs : Jobs)
    → ((exists_where (has_id j.id) jobs ≡ true) × (insert_job j jobs ≡ none))
      ⊎ ((exists_where (has_id j.id) jobs ≡ false) × (insert_job j jobs ≡ some (jobs ++ j ∷ [])))
unfolding insert_job
insert_job-cases j jobs = ground arith

-- What `enqueue_job` has done when it returns: an id that is taken is refused, and else the job that it
-- returns is in the table under the id.
pub data IsEnqueued (id : String) (jobs : Jobs) : Result Job → Jobs → Type 0 where
  taken : exists_where (has_id id) jobs ≡ true → IsEnqueued id jobs (raise integrity_error) jobs
  queued :
      (persisted : Job) (after : Jobs)
      → exists_where (has_id id) jobs ≡ false
      → persisted.id ≡ id
      → find_where (has_id id) after ≡ some persisted
      → IsEnqueued id jobs (ok persisted) after

module _ (remote : Remote) (id : String) (w : Worker) (command name : String)
    (expected_seconds gpu_count : ℕ) (pty_enabled : Bool) (jobs : Jobs) where
  request : Job
  request = queue_request id w command name expected_seconds gpu_count pty_enabled

  -- `enqueue_job` always returns, with the outcome that `IsEnqueued` describes: a job that it has
  -- inserted does not disappear in the dispatch that follows; no GPU is assigned twice.
  pub enqueue_job-IsEnqueued :
      Valid jobs
      → (r : Result Job) × (after : Jobs) × (enqueue_job remote id w command name expected_seconds
            gpu_count pty_enabled jobs
          ≡ some (r, after))
        × IsEnqueued id jobs r after
        × Valid after
  unfolding enqueue_job insert_queued_job get_job queue_job
  enqueue_job-IsEnqueued v =
      let job =
        queue_job (queue_request id w command name expected_seconds gpu_count pty_enabled) jobs in
      elim (insert_job-cases job jobs) [
        | inl (there, refused) ↦
            (raise integrity_error, jobs, ground (arith, refused), taken there, v)
        | inr (free, done_it) ↦
            let valid = insert_job-Valid job jobs (jobs ++ job ∷ []) done_it refl v in
            let (launched, after, result, d, _) =
              dispatch_worker-IsDispatched remote w (jobs ++ job ∷ []) valid in
            let one : count_where (has_id id) (job ∷ []) ≡ 1 = unfold count_where in ground arith in
            let there : 0 < count_where (has_id id) after =
              omega (arith, d.same_ids id, count_where-append (has_id id) jobs (job ∷ []), one) in
            let (persisted, at) = find_where-counted (has_id id) after there in
            (
              ok persisted,
              after,
              ground (arith, done_it, result, at),
              queued persisted after free
                  (ground (arith, find_where_sound (has_id id) after persisted at)) at,
              d.valid,
            )
      ]

module _ (remote : Remote) (w : Worker) (jobs : Jobs) (v : Valid jobs) where
  pub start_job-Valid :
      (id command name : String) (pty_enabled : Bool)
      → Valid (start_job remote id w command name pty_enabled jobs).1
  unfolding start_job
  start_job-Valid id command name pty_enabled =
      let job = record (new_job id w name command pty_enabled) {
        status = starting;
        started_at = remote.now;
      } in
      elim (insert_job-cases job jobs) [
        | inl (there, refused) ↦ rw (refused, start_job) v
        | inr (free, done_it) ↦
            let after = jobs ++ job ∷ [] in
            let (launched, rows, result, outcome) = launch_job-Outcome remote w job after in
            let valid = insert_job-Valid job jobs after done_it refl v in
            rw (done_it, start_job)
              (rw (result, start_job) (Outcome-Valid outcome (stored job jobs free) refl valid))
      ]

  recover_cases :
      (job : Job)
      → ((reconcile_starting_job remote w job jobs).1 ≡ jobs)
        ⊎ ((observed : Bool) × ((reconcile_starting_job remote w job jobs).1
              ≡ (db_reconcile job.id observed remote.now jobs).1))
  unfolding reconcile_starting_job get_job
  recover_cases job = elim (Option-cases (find_where (has_id job.id) jobs)) [
    | inl missing ↦ inl (ground (arith, missing))
    | inr (row, found) ↦ elim (Option-cases (remote.ssh_job_started w job.id)) [
      | inl silent ↦ inl (ground (arith, found, silent))
      | inr (observed, told) ↦ elim (Bool-cases (is_starting row.status)) [
        | inl claimed ↦ inr (observed, ground (arith, found, told, claimed))
        | inr other ↦ inl (ground (arith, found, told, other))
      ]
    ]
  ]

  pub reconcile_starting_job-Valid :
      (job : Job) → Valid (reconcile_starting_job remote w job jobs).1
  reconcile_starting_job-Valid job = elim (recover_cases job) [
    | inl same ↦ rw same v
    | inr (observed, done_it) ↦ rw done_it (db_reconcile-Valid job.id observed remote.now jobs v)
  ]
