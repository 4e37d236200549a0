-- ===== src/Models.antt =====
-- src/worker_harness/models.py: the records that the registry stores.
-- Times are seconds since the epoch; memory sizes are tenths of a GB, the precision with which the
-- worker daemon reports them (`round(..., 1)`).
use worker_harness.Base.{ℕ, String, Bool, true, false, List, Option}

pub data WorkerStatus : Type 0 where
  online offline draining : WorkerStatus

pub data JobStatus : Type 0 where
  pending starting running done failed : JobStatus

pub data JobKind : Type 0 where
  ssh delegated : JobKind

-- Python's `int` where it can be negative; `negsuc n` is -(n + 1).
pub data ℤ : Type 0 where
  pos : ℕ → ℤ
  negsuc : ℕ → ℤ

pub record GpuInfo : Type 0 where
  pub index : ℕ
  pub name : String
  pub vram_total : ℕ
  pub vram_used : ℕ
  pub busy : Option Bool

pub record Worker : Type 0 where
  pub id : String
  pub name : String
  pub worker_ip : String
  pub dns_name : String
  pub ssh_user : String
  pub harness_dir : String
  pub gpu_count : ℕ
  pub gpu_names : List String
  pub gpu_vram : List ℕ
  pub gpu_used_vram : List ℕ
  pub gpu_busy : List (Option Bool)
  pub cpu_cores : ℕ
  pub total_ram : ℕ
  pub used_ram : ℕ
  pub total_disk : ℕ
  pub used_disk : ℕ
  pub data_paths : List String
  pub status : WorkerStatus
  pub last_heartbeat_ts : ℕ
  pub created_at : ℕ

-- What the worker daemon sends, without what the registry does not store.
pub record WorkerRegistration : Type 0 where
  pub worker_id : String
  pub name : String
  pub worker_ip : String
  pub dns_name : String
  pub ssh_user : String
  pub harness_dir : String
  pub gpu_count : ℕ
  pub gpus : List GpuInfo
  pub cpu_cores : ℕ
  pub total_ram : ℕ
  pub used_ram : ℕ
  pub total_disk : ℕ
  pub used_disk : ℕ
  pub data_paths : List String

pub record Job : Type 0 where
  pub id : String
  pub worker_id : Option String
  pub name : String
  pub tmux_session : String
  pub command : String
  pub status : JobStatus
  pub queue_managed : Bool
  pub exit_code : Option ℤ
  pub pty_enabled : Bool
  pub kind : JobKind
  pub origin_session_id : Option String
  pub report_revision : ℕ
  pub expected_seconds : ℕ
  pub gpu_count : ℕ
  pub gpu_indices : List ℕ
  pub queue_order : ℕ
  pub started_at : ℕ
  pub finished_at : ℕ

pub record WorkerJobReport : Type 0 where
  pub id : String
  pub origin_session_id : String
  pub tmux_session : String
  pub command : String
  pub status : JobStatus
  pub exit_code : Option ℤ
  pub pty_enabled : Bool
  pub started_at : ℕ
  pub finished_at : ℕ
  pub report_revision : ℕ

pub record Failure : Type 0 where
  pub job_id : String
  pub worker_id : String
  pub exit_code : ℤ
  pub timestamp : ℕ
  pub summary : String

abbrev pub is_offline : WorkerStatus → Bool
is_offline offline = true
is_offline _ = false

abbrev pub is_online : WorkerStatus → Bool
is_online online = true
is_online _ = false

abbrev pub is_pending : JobStatus → Bool
is_pending pending = true
is_pending _ = false

abbrev pub is_starting : JobStatus → Bool
is_starting starting = true
is_starting _ = false

abbrev pub is_running : JobStatus → Bool
is_running running = true
is_running _ = false

-- `status IN ('starting', 'running')`
abbrev pub is_active : JobStatus → Bool
is_active starting = true
is_active running = true
is_active _ = false

abbrev pub is_terminal : JobStatus → Bool
is_terminal done = true
is_terminal failed = true
is_terminal _ = false

abbrev pub is_delegated : JobKind → Bool
is_delegated delegated = true
is_delegated ssh = false
