-- ===== src/Workers/Examples.antt =====
-- The registry at concrete inputs.
use worker_harness.Base.{◌≤◌, ◌≡◌, false, some, [], ◌∷◌}
use worker_harness.Models.{WorkerRegistration, is_offline}
use worker_harness.Table.{All}
use worker_harness.JobManager.Examples.{worker}
use worker_harness.Workers.{Workers, upsert_worker, mark_workers_offline}
use worker_harness.Workers.Heartbeats.{
  IsHeartbeat, upsert_worker-IsHeartbeat, mark_workers_offline_overdue,
}

abbrev heartbeat : WorkerRegistration
heartbeat = record {
  worker_id = "w";
  name = "host";
  worker_ip = "10.0.0.2";
  dns_name = "";
  ssh_user = "root";
  harness_dir = "/srv";
  gpu_count = 1;
  gpus =
      (record { index = 0; name = "a"; vram_total = 240; vram_used = 3; busy = some false }) ∷ [];
  cpu_cores = 8;
  total_ram = 640;
  used_ram = 10;
  total_disk = 1000;
  used_disk = 10;
  data_paths = [];
}

abbrev one_worker : Workers
one_worker = worker ∷ []

upsert_worker-IsHeartbeat_example :
    IsHeartbeat heartbeat 9 one_worker
      (upsert_worker heartbeat 9 one_worker).0
      (upsert_worker heartbeat 9 one_worker).1
upsert_worker-IsHeartbeat_example = upsert_worker-IsHeartbeat heartbeat 9 one_worker

mark_workers_offline_overdue_example :
    All
      (λ w. is_offline w.status ≡ false → 7 ≤ w.last_heartbeat_ts)
      (mark_workers_offline 7 one_worker).1
mark_workers_offline_overdue_example = (mark_workers_offline_overdue 7 one_worker).0
