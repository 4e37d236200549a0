-- ===== src/JobManager/Examples.antt =====
-- A worker of two GPUs and its queue.
use worker_harness.Base.{Bool, ◌<◌, ◌≡◌, ◌↔◌, refl, true, false, none, some, List, [], ◌∷◌}
use worker_harness.Models.{Job, Worker, Failure, pos, online, is_online, is_pending}
use worker_harness.Table.{select}
use worker_harness.Jobs.{Jobs, mem_index, list_queued_jobs, pending_rows}
use worker_harness.Jobs.Examples.{job_a, two_jobs, two_jobs-Reach}
use worker_harness.Jobs.History.{Reach-Valid}
use worker_harness.Jobs.Listing.{list_queued_jobs_pending}
use worker_harness.JobManager.{
  Remote, free_gpu_indices, dispatch_worker, is_free_gpu, explicit_busy, range, is_idle_by_vram,
}
use worker_harness.JobManager.Free.{IsIdle, free_gpu_indices_iff}
use worker_harness.Jobs.Pending.{Result}
use worker_harness.Jobs.Exclusive.{Valid}
use worker_harness.JobManager.Commands.{start_job, enqueue_job, stop_job, refresh_job_status}
use worker_harness.JobManager.Stop.{IsStop, stop_job-IsStop}
use worker_harness.JobManager.Refresh.{IsRefresh, refresh_job_status-IsRefresh}
use worker_harness.JobManager.Enqueue.{IsEnqueued, enqueue_job-IsEnqueued}
use worker_harness.JobManager.History.{fresh, then, started, Managed-Valid}
use worker_harness.JobManager.Dispatch.{IsDispatched, dispatch_worker-IsDispatched}

abbrev pub worker : Worker
worker = record {
  id = "w";
  name = "host";
  worker_ip = "10.0.0.1";
  dns_name = "";
  ssh_user = "root";
  harness_dir = "/srv";
  gpu_count = 3;
  gpu_names = "a" ∷ "b" ∷ "c" ∷ [];
  gpu_vram = 240 ∷ 240 ∷ 240 ∷ [];
  gpu_used_vram = 10 ∷ 200 ∷ 10 ∷ [];
  gpu_busy = none ∷ none ∷ some false ∷ [];
  cpu_cores = 8;
  total_ram = 640;
  used_ram = 10;
  total_disk = 1000;
  used_disk = 10;
  data_paths = [];
  status = online;
  last_heartbeat_ts = 5;
  created_at = 1;
}

abbrev pub remote : Remote
remote = record {
  ssh_tmux_new = λ _ _. pos 0;
  ssh_job_started = λ _ _. some true;
  ssh_tmux_kill = λ _ _. (pos 0, "stopped");
  ssh_tmux_running = λ _ _. some false;
  ssh_get_exit_code = λ _ _. some (pos 1);
  ssh_read_log = λ _ _. "killed";
  now = 9;
}

two_free : free_gpu_indices worker ≡ 0 ∷ 2 ∷ []
unfolding free_gpu_indices select range is_free_gpu explicit_busy is_idle_by_vram
two_free = refl

free_gpu_indices_iff_example :
    (mem_index 2 (free_gpu_indices worker) ≡ true)
    ↔ ((is_online worker.status ≡ true) × (2 < worker.gpu_count) × IsIdle worker 2)
free_gpu_indices_iff_example = free_gpu_indices_iff worker 2

dispatch_worker-IsDispatched_example :
    (launched : List Job) × (after : Jobs) × (dispatch_worker remote worker two_jobs
      ≡ some (launched, after))
    × IsDispatched worker two_jobs launched after
    × (is_online worker.status ≡ false → (launched ≡ []) × (after ≡ two_jobs))
dispatch_worker-IsDispatched_example =
    dispatch_worker-IsDispatched remote worker two_jobs (Reach-Valid two_jobs-Reach)

list_queued_jobs_pending_example :
    select (λ j. is_pending j.status) (list_queued_jobs "w" two_jobs)
    ≡ pending_rows (some "w") two_jobs
list_queued_jobs_pending_example = list_queued_jobs_pending "w" two_jobs

stop_job-IsStop_example :
    (success : Bool) × (after : Jobs) × (stop_job remote worker "b" two_jobs
      ≡ some (success, after))
    × IsStop "b" two_jobs success after
stop_job-IsStop_example = stop_job-IsStop remote worker "b" two_jobs (Reach-Valid two_jobs-Reach)

refresh_job_status-IsRefresh_example :
    (row : Job) × (after : Jobs) × (noted : List Failure) × (refresh_job_status remote worker job_a
        two_jobs []
      ≡ some (row, after, noted))
    × IsRefresh remote worker job_a two_jobs [] row after noted
    × Valid after
refresh_job_status-IsRefresh_example =
    refresh_job_status-IsRefresh remote worker job_a two_jobs [] (Reach-Valid two_jobs-Reach)

enqueue_job-IsEnqueued_example :
    (r : Result Job) × (after : Jobs) × (enqueue_job remote "c" worker "python eval.py" "eval" 60 1
        true two_jobs
      ≡ some (r, after))
    × IsEnqueued "c" two_jobs r after
    × Valid after
enqueue_job-IsEnqueued_example =
    enqueue_job-IsEnqueued remote "c" worker "python eval.py" "eval" 60 1 true two_jobs
      (Reach-Valid two_jobs-Reach)

abbrev one_started : Jobs
one_started = (start_job remote "c" worker "python eval.py" "eval" true []).1

Managed-Valid_example : Valid one_started
Managed-Valid_example =
    Managed-Valid (then fresh (started remote "c" worker "python eval.py" "eval" true))
