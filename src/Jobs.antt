-- ===== src/Jobs.antt =====
-- src/worker_harness/db.py, the `jobs` table: the durable GPU queue. Each method runs under
-- `_queue_lock` and is one step on the table. A method returns its result beside the new table;
-- `rollback` leaves the table as it was.
pub mod Load
pub mod Pending
pub mod Exclusive
pub mod Keeps
pub mod Rewrites
pub mod Fifo
pub mod Reports
pub mod Replays
pub mod Revisions
pub mod Applied
pub mod Listing
pub mod Taken
pub mod History
pub mod Examples
use worker_harness.Base.{
  ℕ, zero, suc, ◌+◌, ◌-◌, String, Bool, true, false, ◌&&◌, ◌||◌, not, Option, none, some, List, [],
  ◌∷◌, ◌++◌, map, length, min, ltb, leb, ◌==◌, nat_eq, string_eq, if◌then◌else◌,
}
use worker_harness.Models.{
  Job, Worker, ℤ, negsuc, JobStatus, pending, starting, running, running, failed, is_pending,
  is_starting, is_active,
}
use worker_harness.Table.{select, update_where, count_where, find_where, exists_where, max_where}
use worker_harness.Table.Order.{order_by, text_le}

-- `ORDER BY queue_order, id`
unfoldable pub queue_le : Job → Job → Bool
unfolding text_le
queue_le a b =
    if a.queue_order == b.queue_order then text_le a.id b.id else ltb a.queue_order b.queue_order

abbrev pub Jobs : Type 0
Jobs = List Job

-- `column = ?` is never true of NULL.
abbrev pub equals_sql : Option String → Option String → Bool
equals_sql none b = false
equals_sql (some a) none = false
equals_sql (some a) (some b) = a == b

abbrev pub has_id : String → Job → Bool
has_id job_id j = j.id == job_id

-- `queue_managed = 1 AND worker_id = ? AND status = 'pending'`
unfoldable pub is_queued_on : Option String → Job → Bool
is_queued_on w j = j.queue_managed && equals_sql j.worker_id w && is_pending j.status

-- `queue_managed = 1 AND worker_id = ? AND status IN ('starting', 'running')`
unfoldable pub is_active_on : Option String → Job → Bool
is_active_on w j = j.queue_managed && equals_sql j.worker_id w && is_active j.status

unfoldable pub get_job : String → Jobs → Option Job
get_job job_id = find_where (has_id job_id)

unfoldable pub mem_index : ℕ → List ℕ → Bool
mem_index i [] = false
mem_index i (x ∷ xs) = if x == i then true else mem_index i xs

-- `EXISTS (SELECT 1 FROM json_each(assigned) WHERE value IN json_each(wanted))`
unfoldable pub overlaps : List ℕ → List ℕ → Bool
overlaps [] wanted = false
overlaps (x ∷ xs) wanted = if mem_index x wanted then true else overlaps xs wanted

unfoldable pub pending_rows : Option String → Jobs → Jobs
pending_rows w jobs = order_by queue_le (select (is_queued_on w) jobs)

abbrev pub ids : Jobs → List String
ids = map (λ j. j.id)

unfoldable pub head_id : Jobs → Option String
head_id [] = none
head_id (j ∷ js) = some j.id

-- The WHERE clause of `claim_queued_job`. Its subqueries see the table before the UPDATE.
unfoldable pub can_claim : String → List ℕ → String → Jobs → Job → Bool
can_claim job_id gpu_indices worker_id jobs j =
    has_id job_id j
    && is_queued_on (some worker_id) j
    && j.gpu_count == length gpu_indices
    && equals_sql (some j.id) (head_id (pending_rows (some worker_id) jobs))
    && not (
        exists_where (λ a. is_active_on (some worker_id) a && overlaps a.gpu_indices gpu_indices)
          jobs)

abbrev pub start_claim : List ℕ → ℕ → Job → Job
start_claim gpu_indices started_at j = record j {
  status = starting;
  gpu_indices = gpu_indices;
  started_at = started_at;
}

unfoldable pub claim_queued_job : String → List ℕ → ℕ → String → Jobs → Option Job × Jobs
claim_queued_job job_id gpu_indices started_at worker_id jobs =
    let claimable = can_claim job_id gpu_indices worker_id jobs in
    let after = update_where claimable (start_claim gpu_indices started_at) jobs in
    if count_where claimable jobs == 0 then (none, jobs) else (get_job job_id after, after)

-- INSERT; `none` is the IntegrityError of a primary key that is taken.
unfoldable pub insert_job : Job → Jobs → Option Jobs
insert_job j jobs = if exists_where (has_id j.id) jobs then none else some (jobs ++ j ∷ [])

-- `queue_managed = 1 AND worker_id = ? AND status IN ('pending', 'starting', 'running')`
unfoldable pub is_open_on : Option String → Job → Bool
is_open_on w j =
    j.queue_managed && equals_sql j.worker_id w && (is_pending j.status || is_active j.status)

unfoldable pub queue_job : Job → Jobs → Job
queue_job j jobs = record j {
  queue_managed = true;
  status = pending;
  gpu_indices = [];
  queue_order = max_where (is_open_on j.worker_id) (λ r. r.queue_order) jobs + 1;
  started_at = 0;
  finished_at = 0;
}

unfoldable pub insert_queued_job : Job → Jobs → Option (Job × Jobs)
insert_queued_job j jobs =
    let job = queue_job j jobs in
    elim (insert_job job jobs) [ none ↦ none | some after ↦ some (job, after) ]

-- `running_queue_gpu_indices`, as the list of the rows' indices; only membership is asked of it.
unfoldable pub running_queue_gpu_indices : String → Jobs → List ℕ
running_queue_gpu_indices worker_id [] = []
running_queue_gpu_indices worker_id (j ∷ js) =
    let rest = running_queue_gpu_indices worker_id js in
    if is_active_on (some worker_id) j then j.gpu_indices ++ rest else rest

-- `CASE status WHEN 'starting' THEN 0 WHEN 'running' THEN 1 ELSE 2 END`
abbrev pub status_rank : JobStatus → ℕ
status_rank starting = 0
status_rank running = 1
status_rank _ = 2

-- `CASE WHEN status = 'pending' THEN queue_order ELSE started_at END`
abbrev pub listing_key : Job → ℕ
listing_key j = if is_pending j.status then j.queue_order else j.started_at

-- The ORDER BY of `list_queued_jobs` for one worker, where `worker_id` decides nothing.
unfoldable pub listing_le : Job → Job → Bool
listing_le a b =
    if status_rank a.status == status_rank b.status
    then if listing_key a == listing_key b
      then queue_le a b
      else ltb (listing_key a) (listing_key b)
    else ltb (status_rank a.status) (status_rank b.status)

-- `list_queued_jobs(worker_id)`
unfoldable pub list_queued_jobs : String → Jobs → Jobs
list_queued_jobs worker_id jobs = order_by listing_le (select (is_open_on (some worker_id)) jobs)

unfoldable pub update_job : Job → Jobs → Jobs
update_job job = update_where (has_id job.id) (λ _. job)
