-- ===== src/JobManager/Launch.antt =====
-- `_launch_job` in job.py: what each outcome of the launch does to the queue.
use worker_harness.Base.{
  ℕ, ◌≡◌, ◌≢◌, refl, inl, inr, String, true, false, Option, some, arith, nat_eq, string_eq,
  Bool-cases,
}
use worker_harness.Models.{
  Job, Worker, JobStatus, ℤ, negsuc, running, failed, is_active, is_pending,
}
use worker_harness.Table.{count_where, find_where}
use worker_harness.Table.Laws.{count_where-update_where, find_where_sound, find_where-update_where}
use worker_harness.Jobs.{Jobs, has_id, is_queued_on, pending_rows, update_job}
use worker_harness.Jobs.Exclusive.{Valid}
use worker_harness.Jobs.Rewrites.{with_status, with_status-Valid}
use worker_harness.Jobs.Taken.{pending_rows-update_job}
use worker_harness.JobManager.{Remote, is_unknown, is_nonzero, as_failed, as_running, launch_job}

-- What a launch leaves of the job that was claimed.
pub record IsLaunchOf (j launched : Job) : Type 0 where
  pub same_id : launched.id ≡ j.id
  pub same_gpus : launched.gpu_indices ≡ j.gpu_indices
  pub same_count : launched.gpu_count ≡ j.gpu_count
  pub not_pending : is_pending launched.status ≡ false

-- A launch writes nothing, or the job itself under another status.
pub data Outcome (j : Job) (jobs : Jobs) : Job → Jobs → Type 0 where
  unknown : Outcome j jobs j jobs
  known :
      (status : JobStatus) (exit_code : Option ℤ) (finished_at : ℕ)
      → is_pending status ≡ false
      → Outcome j jobs
          (with_status j status exit_code finished_at)
          (update_job (with_status j status exit_code finished_at) jobs)

pub launch_job-Outcome :
    (remote : Remote) (w : Worker) (j : Job) (jobs : Jobs)
    → (launched : Job) × (after : Jobs) × (launch_job remote w j jobs ≡ (launched, after))
      × Outcome j jobs launched after
unfolding launch_job with_status
launch_job-Outcome remote w j jobs = elim (Bool-cases (is_unknown (remote.ssh_tmux_new w j))) [
  | inl lost ↦ (j, jobs, ground (arith, lost), unknown)
  | inr answer ↦ elim (Bool-cases (is_nonzero (remote.ssh_tmux_new w j))) [
    | inl refused ↦ (
      as_failed remote.now j,
      update_job (as_failed remote.now j) jobs,
      ground (arith, answer, refused),
      known failed (some (negsuc 0)) remote.now refl,
    )
    | inr started ↦ (
      as_running j,
      update_job (as_running j) jobs,
      ground (arith, answer, started),
      known running j.exit_code j.finished_at refl,
    )
  ]
]

module _ {j : Job} {jobs : Jobs} where
  pub Outcome-IsLaunchOf :
      {launched : Job} {after : Jobs}
      → Outcome j jobs launched after
      → is_pending j.status ≡ false
      → IsLaunchOf j launched
  unfolding with_status
  Outcome-IsLaunchOf unknown idle = record {
    same_id = refl;
    same_gpus = refl;
    same_count = refl;
    not_pending = idle;
  }
  Outcome-IsLaunchOf (known status c f h) idle = record {
    same_id = refl;
    same_gpus = refl;
    same_count = refl;
    not_pending = h;
  }

  pub Outcome-Valid :
      {launched : Job} {after : Jobs}
      → Outcome j jobs launched after
      → find_where (has_id j.id) jobs ≡ some j
      → is_active j.status ≡ true
      → Valid jobs
      → Valid after
  Outcome-Valid unknown found active v = v
  Outcome-Valid (known status c f h) found active v =
      with_status-Valid j status c f jobs found (λ _. active) v

  -- The rest of the queue is as it was.
  pub Outcome-pending_rows :
      {launched : Job} {after : Jobs}
      → Outcome j jobs launched after
      → (w : Option String) → count_where (has_id j.id) (pending_rows w jobs) ≡ 0
      → pending_rows w after ≡ pending_rows w jobs
  unfolding with_status
  Outcome-pending_rows unknown w absent = refl
  Outcome-pending_rows (known status c f h) w absent =
      pending_rows-update_job w (with_status j status c f) jobs
        (unfold is_queued_on in ground (arith, h)) absent

  -- A row of another id is as it was.
  pub Outcome-find_where :
      {launched : Job} {after : Jobs}
      → Outcome j jobs launched after
      → (x : String) (row : Job) → find_where (has_id x) jobs ≡ some row
      → j.id ≢ x
      → find_where (has_id x) after ≡ some row
  unfolding with_status update_job
  Outcome-find_where unknown x row found other = found
  Outcome-find_where (known status c f h) x row found other =
      let new = with_status j status c f in
      ground (
        arith,
        found,
        find_where_sound (has_id x) jobs row found,
        find_where-update_where (has_id new.id) (has_id x) (λ _. new) jobs (λ r k. ground arith),
      )

  pub Outcome-count_where :
      {launched : Job} {after : Jobs}
      → Outcome j jobs launched after
      → (x : String) → count_where (has_id x) after ≡ count_where (has_id x) jobs
  unfolding with_status update_job
  Outcome-count_where unknown x = refl
  Outcome-count_where (known status c f h) x =
      count_where-update_where (has_id x) (has_id j.id) (λ _. with_status j status c f) jobs
        (λ r k. ground arith)
