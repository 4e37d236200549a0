-- ===== src/Workers/Removals.antt =====
-- What `delete_worker` in db.py removes, from the workers and from the queue.
use worker_harness.Base.{
  ℕ, ◌≤◌, ◌<◌, ◌≡◌, ◌↔◌, String, Bool, true, false, Option, some, [], ◌∷◌, arith, nat_eq, string_eq,
}
use worker_harness.Models.{Job}
use worker_harness.Table.{delete_where, count_where, find_where, All}
use worker_harness.Table.Deletion.{
  delete_where-All, All-delete_where, count_where-delete_where, find_where-delete_where,
}
use worker_harness.Jobs.{Jobs, equals_sql, has_id}
use worker_harness.Jobs.Load.{gpu_load}
use worker_harness.Jobs.Exclusive.{Valid, IsSized}
use worker_harness.Workers.{Workers, has_worker_id, delete_worker}

gpu_load-delete_where :
    (w : Option String) (i : ℕ) (p : Job → Bool) (jobs : Jobs)
    → gpu_load w i (delete_where p jobs) ≤ gpu_load w i jobs
unfolding gpu_load delete_where
gpu_load-delete_where w i p [] = omega arith
gpu_load-delete_where w i p (j ∷ js) = ground (arith, gpu_load-delete_where w i p js)

delete_where-Valid : (p : Job → Bool) (jobs : Jobs) → Valid jobs → Valid (delete_where p jobs)
delete_where-Valid p jobs v = record {
  unique = λ x. omega (arith, v.unique x, count_where-delete_where (has_id x) p jobs);
  exclusive = λ w i. omega (arith, v.exclusive w i, gpu_load-delete_where (some w) i p jobs);
  sized = All-delete_where IsSized p jobs v.sized;
}

-- What a deletion has done.
pub record IsDeletion (x : String) (ws : Workers) (jobs : Jobs) (removed : Bool)
    (workers_after : Workers) (jobs_after : Jobs) : Type 0 where
  pub reported : (removed ≡ true) ↔ (0 < count_where (has_worker_id x) ws)
  pub no_worker : All (λ w. has_worker_id x w ≡ false) workers_after
  pub no_job : All (λ j. equals_sql j.worker_id (some x) ≡ false) jobs_after
  -- The jobs of other workers are as they were,
  pub other_jobs :
      (y : String) (j : Job)
      → find_where (has_id y) jobs ≡ some j
      → equals_sql j.worker_id (some x) ≡ false
      → find_where (has_id y) jobs_after ≡ some j
  -- and still no GPU is assigned twice.
  pub valid : Valid jobs → Valid jobs_after

-- Deleting a worker removes it and exactly its jobs, and reports whether it was there.
pub delete_worker-IsDeletion :
    (x : String) (ws : Workers) (jobs : Jobs)
    → IsDeletion x ws jobs
        (delete_worker x ws jobs).0
        (delete_worker x ws jobs).1
        (delete_worker x ws jobs).2
unfolding delete_worker
delete_worker-IsDeletion x ws jobs = record {
  reported = ground arith;
  no_worker = delete_where-All (has_worker_id x) ws;
  no_job = delete_where-All (λ j. equals_sql j.worker_id (some x)) jobs;
  other_jobs = λ y j found other.
      find_where-delete_where (has_id y) (λ j. equals_sql j.worker_id (some x)) jobs j found other;
  valid = delete_where-Valid (λ j. equals_sql j.worker_id (some x)) jobs;
}
