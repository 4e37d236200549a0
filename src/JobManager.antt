-- ===== src/JobManager.antt =====
-- src/worker_harness/job.py: which GPUs are free, the launch of a job and the dispatch of a queue.
-- The remote commands are a parameter. The dispatch lock of the worker keeps other dispatches out,
-- so a dispatch is a function on the `jobs` table.
pub mod Free
pub mod Launch
pub mod Turn
pub mod Dispatch
pub mod Commands
pub mod Ended
pub mod Stop
pub mod Refresh
mod History
pub mod Enqueue
pub mod Examples
use worker_harness.Base.{
  ℕ, zero, suc, ◌+◌, ◌*◌, ◌/◌, String, Bool, true, false, ◌&&◌, ◌||◌, not, Option, none, some, List,
  [], ◌∷◌, length, take, get_elem?, max, ltb, leb, ◌==◌, nat_eq, string_eq, if◌then◌else◌,
}
use worker_harness.Models.{
  Job, Worker, ℤ, pos, negsuc, starting, running, failed, ssh, is_online, is_pending, is_starting,
  is_active, is_terminal,
}
use worker_harness.Table.{select, count_where, find_where}
use worker_harness.Jobs.{
  Jobs, mem_index, is_queued_on, get_job, insert_job, insert_queued_job, claim_queued_job,
  update_job, running_queue_gpu_indices, list_queued_jobs,
}
use worker_harness.Jobs.Pending.{fail_pending_job}

-- What the worker answers to the commands of ssh.py, and the clock.
pub record Remote : Type 0 where
  -- the return code of the launch
  pub ssh_tmux_new : Worker → Job → ℤ
  -- whether the job's process was ever started, where that is known
  pub ssh_job_started : Worker → String → Option Bool
  -- the return code, and the output without the white space around it
  pub ssh_tmux_kill : Worker → String → ℤ × String
  -- whether the job's session runs, and its exit code, where the worker answers
  pub ssh_tmux_running : Worker → String → Option Bool
  pub ssh_get_exit_code : Worker → String → Option ℤ
  -- the last line of the job's log
  pub ssh_read_log : Worker → String → String
  pub now : ℕ

-- `range(start, start + n)`
unfoldable pub range : ℕ → ℕ → List ℕ
range start zero = []
range start (suc n) = start ∷ range (start + 1) n

-- `used <= max(0.5, total * 0.1)`, in tenths of a GB.
abbrev pub is_idle_vram : ℕ → ℕ → Bool
is_idle_vram used total = leb (10 * used) (max 50 total)

unfoldable pub is_idle_by_vram : Worker → ℕ → Bool
is_idle_by_vram w i = elim (get_elem? w.gpu_vram i) [
  | none ↦ false
  | some total ↦ elim (get_elem? w.gpu_used_vram i) [
    | none ↦ false
    | some used ↦ is_idle_vram used total
  ]
]

-- `gpu_busy[index] if index < len(gpu_busy) else None`
unfoldable pub explicit_busy : Worker → ℕ → Option Bool
explicit_busy w i = elim (get_elem? w.gpu_busy i) [ none ↦ none | some busy ↦ busy ]

unfoldable pub is_free_gpu : Worker → ℕ → Bool
is_free_gpu w i = elim (explicit_busy w i) [ none ↦ is_idle_by_vram w i | some busy ↦ not busy ]

unfoldable pub free_gpu_indices : Worker → List ℕ
free_gpu_indices w = if is_online w.status then select (is_free_gpu w) (range 0 w.gpu_count) else []

-- `returncode < 0 or returncode == 255`: the outcome of the launch is unknown.
abbrev pub is_unknown : ℤ → Bool
is_unknown (negsuc n) = true
is_unknown (pos n) = n == 255

abbrev pub is_nonzero : ℤ → Bool
is_nonzero (negsuc n) = true
is_nonzero (pos zero) = false
is_nonzero (pos (suc n)) = true

abbrev pub as_failed : ℕ → Job → Job
as_failed now j = record j { status = failed; exit_code = some (negsuc 0); finished_at = now }

abbrev pub as_running : Job → Job
as_running j = record j { status = running }

-- `index not in claimed_indices`
unfoldable pub without : List ℕ → List ℕ → List ℕ
without claimed = select (λ i. not (mem_index i claimed))

unfoldable pub pending_head : String → Jobs → Option Job
pending_head w jobs = find_where (λ j. is_pending j.status) (list_queued_jobs w jobs)

-- The GPUs of `available` that no active job of the worker has.
unfoldable pub unclaimed : Worker → List ℕ → Jobs → List ℕ
unclaimed w available jobs = without (running_queue_gpu_indices w.id jobs) available

module _ (remote : Remote) where
  unfoldable pub launch_job : Worker → Job → Jobs → Job × Jobs
  launch_job w j jobs =
      let code = remote.ssh_tmux_new w j in
      if is_unknown code
      then (j, jobs)
      else if is_nonzero code
      then (as_failed remote.now j, update_job (as_failed remote.now j) jobs)
      else (as_running j, update_job (as_running j) jobs)

  -- One turn of the loop, with the head of the queue: a claim and the launch of what it returns.
  unfoldable pub dispatch_head : Worker → List ℕ → Job → Jobs → Option Job × Jobs
  dispatch_head w free head jobs =
      let (claimed, after) =
        claim_queued_job head.id (take head.gpu_count free) remote.now w.id jobs in
      elim claimed [
        | none ↦ (none, after)
        | some job ↦ let (launched, rows) = launch_job w job after in (some launched, rows)
      ]

  -- `none` where the loop breaks.
  unfoldable pub dispatch_turn : Worker → List ℕ → Jobs → Option (Option Job × Jobs)
  dispatch_turn w available jobs =
      let free = unclaimed w available jobs in
      elim (pending_head w.id jobs) [
        | none ↦ none
        | some head ↦
            if ltb (length free) head.gpu_count then none else some (dispatch_head w free head jobs)
      ]

  abbrev pub append_front : Option Job → Option (List Job × Jobs) → Option (List Job × Jobs)
  append_front launched none = none
  append_front none (some r) = some r
  append_front (some j) (some (js, jobs)) = some (j ∷ js, jobs)

  -- `while True`, on fuel; `none` is a loop that has not ended.
  unfoldable pub dispatch_loop : ℕ → Worker → List ℕ → Jobs → Option (List Job × Jobs)
  dispatch_loop zero w available jobs = none
  dispatch_loop (suc n) w available jobs = elim (dispatch_turn w available jobs) [
    | none ↦ some ([], jobs)
    | some turn ↦ append_front turn.0 (dispatch_loop n w available turn.1)
  ]

  unfoldable pub dispatch_worker : Worker → Jobs → Option (List Job × Jobs)
  dispatch_worker w jobs =
      if is_online w.status
      then dispatch_loop (suc (count_where (is_queued_on (some w.id)) jobs)) w (free_gpu_indices w)
          jobs
      else some ([], jobs)
