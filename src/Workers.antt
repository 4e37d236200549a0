-- ===== src/Workers.antt =====
-- The registry of workers: src/worker_harness/models.py, the two constructors from a registration,
-- and src/worker_harness/db.py, the methods on the `workers` table. `now` is the clock.
pub mod Heartbeats
pub mod Removals
mod Examples
use worker_harness.Base.{
  ℕ, String, Bool, true, false, ◌&&◌, not, Option, none, some, List, [], ◌∷◌, ◌++◌, map, ltb, ◌==◌,
  nat_eq, string_eq, if◌then◌else◌,
}
use worker_harness.Models.{
  Worker, WorkerRegistration, WorkerStatus, online, offline, is_offline, GpuInfo, Job,
}
use worker_harness.Table.{update_where, delete_where, count_where, find_where, exists_where}
use worker_harness.Table.Order.{order_by, text_le}
use worker_harness.Jobs.{Jobs, equals_sql}

abbrev pub Workers : Type 0
Workers = List Worker

abbrev pub has_worker_id : String → Worker → Bool
has_worker_id x w = w.id == x

-- `Worker.from_registration`
unfoldable pub from_registration : WorkerRegistration → ℕ → Worker
from_registration r now = record {
  id = r.worker_id;
  name = r.name;
  worker_ip = r.worker_ip;
  dns_name = r.dns_name;
  ssh_user = r.ssh_user;
  harness_dir = r.harness_dir;
  gpu_count = r.gpu_count;
  gpu_names = map (λ g. g.name) r.gpus;
  gpu_vram = map (λ g. g.vram_total) r.gpus;
  gpu_used_vram = map (λ g. g.vram_used) r.gpus;
  gpu_busy = map (λ g. g.busy) r.gpus;
  cpu_cores = r.cpu_cores;
  total_ram = r.total_ram;
  used_ram = r.used_ram;
  total_disk = r.total_disk;
  used_disk = r.used_disk;
  data_paths = r.data_paths;
  status = online;
  last_heartbeat_ts = now;
  created_at = now;
}

-- `Worker.update_from_registration`
unfoldable pub update_from_registration : WorkerRegistration → ℕ → Worker → Worker
update_from_registration r now w = record w {
  name = r.name;
  worker_ip = r.worker_ip;
  dns_name = r.dns_name;
  ssh_user = r.ssh_user;
  harness_dir = r.harness_dir;
  gpu_count = r.gpu_count;
  gpu_names = map (λ g. g.name) r.gpus;
  gpu_vram = map (λ g. g.vram_total) r.gpus;
  gpu_used_vram = map (λ g. g.vram_used) r.gpus;
  gpu_busy = map (λ g. g.busy) r.gpus;
  cpu_cores = r.cpu_cores;
  total_ram = r.total_ram;
  used_ram = r.used_ram;
  total_disk = r.total_disk;
  used_disk = r.used_disk;
  data_paths = r.data_paths;
  status = online;
  last_heartbeat_ts = now;
}

unfoldable pub get_worker : String → Workers → Option Worker
get_worker x = find_where (has_worker_id x)

-- `_update_worker`, which keeps `created_at`
abbrev pub update_worker : Worker → Workers → Workers
update_worker w =
    update_where (has_worker_id w.id) (λ row. record w { created_at = row.created_at })

unfoldable pub upsert_worker : WorkerRegistration → ℕ → Workers → Worker × Workers
upsert_worker r now ws = elim (get_worker r.worker_id ws) [
  | none ↦ let w = from_registration r now in (w, ws ++ w ∷ [])
  | some existing ↦ let w = update_from_registration r now existing in (w, update_worker w ws)
]

unfoldable pub list_workers : Workers → Workers
list_workers = order_by (λ a b. text_le a.name b.name)

-- `last_heartbeat_ts < ? AND status != 'offline'`
abbrev pub is_overdue : ℕ → Worker → Bool
is_overdue cutoff_ts w = ltb w.last_heartbeat_ts cutoff_ts && not (is_offline w.status)

unfoldable pub mark_workers_offline : ℕ → Workers → ℕ × Workers
mark_workers_offline cutoff_ts ws = (
  count_where (is_overdue cutoff_ts) ws,
  update_where (is_overdue cutoff_ts) (λ w. record w { status = offline }) ws,
)

unfoldable pub set_worker_status : String → WorkerStatus → Workers → Workers
set_worker_status x status = update_where (has_worker_id x) (λ w. record w { status = status })

-- `delete_worker`, on the workers and the jobs; the two other tables are outside the model.
unfoldable pub delete_worker : String → Workers → Jobs → Bool × Workers × Jobs
delete_worker x ws jobs = (
  not (count_where (has_worker_id x) ws == 0),
  delete_where (has_worker_id x) ws,
  delete_where (λ j. equals_sql j.worker_id (some x)) jobs,
)

unfoldable pub prune_workers : ℕ → Workers → ℕ × Workers
prune_workers older_than_ts ws = (
  count_where (λ w. ltb w.last_heartbeat_ts older_than_ts) ws,
  delete_where (λ w. ltb w.last_heartbeat_ts older_than_ts) ws,
)
