-- ===== src/Control/Queue.antt =====
-- src/worker_harness/heartbeat.py: the requests on jobs and on the queue, what they
-- show and how they find a worker.
use worker_harness.Base.{
  ℕ, ◌+◌, String, Bool, true, ◌&&◌, ◌||◌, Option, none, some, List, [], ◌∷◌, map, leb, is_empty,
  ◌==◌, nat_eq, string_eq, if◌then◌else◌,
}
use worker_harness.Models.{
  Job, Worker, Failure, JobStatus, pending, starting, running, done, failed, is_pending, is_active,
}
use worker_harness.Table.{select, find_where}
use worker_harness.Table.Order.{order_by}
use worker_harness.Workers.{Workers, get_worker, list_workers}
use worker_harness.Jobs.{Jobs, listing_le, equals_sql}
use worker_harness.Control.Gateway.{text_ltb}

pub record Plane : Type 0 where
  pub workers : Workers
  pub jobs : Jobs
  pub failures : List Failure

-- The body of an answer, or the status of an HTTPException.
pub data Answer {ℓ} (A : Type ℓ) : Type ℓ where
  answer : A → Answer A
  status : ℕ → Answer A

-- A job as the queue shows it.
pub record QueueItem : Type 0 where
  pub job : Job
  pub worker_name : Option String
  pub position : ℕ

pub record JobEnqueueRequest : Type 0 where
  pub worker_id : String
  pub command : String
  pub name : String
  pub expected_seconds : ℕ
  pub gpu_count : ℕ
  pub no_pty : Bool

abbrev pub Handled : Type 0 → Type 0
Handled A = Option (Answer A × Plane)

abbrev pub or_blank : Option String → String
or_blank none = ""
or_blank (some x) = x

unfoldable pub name_of : Option Worker → Option String
name_of none = none
name_of (some w) = some w.name

abbrev pub status_text : JobStatus → String
status_text pending = "pending"
status_text starting = "starting"
status_text running = "running"
status_text done = "done"
status_text failed = "failed"

-- `list_jobs`
unfoldable pub is_listed : Option String → Option JobStatus → Option String → Job → Bool
is_listed worker_id wanted origin j =
    (is_empty (or_blank worker_id) || equals_sql j.worker_id worker_id)
    && (elim wanted as (λ _. Bool) [ none ↦ true | some s ↦ status_text s == status_text j.status ])
    && (is_empty (or_blank origin) || equals_sql j.origin_session_id origin)

unfoldable pub list_jobs : Option String → Option JobStatus → Option String → Jobs → List Job
list_jobs worker_id wanted origin jobs =
    order_by (λ a b. leb b.started_at a.started_at)
      (select (is_listed worker_id wanted origin) jobs)

-- `list_queued_jobs()`: of all workers.
abbrev is_open : Job → Bool
is_open j = j.queue_managed && (is_pending j.status || is_active j.status)

unfoldable pub queue_listing_le : Job → Job → Bool
queue_listing_le a b =
    if or_blank a.worker_id == or_blank b.worker_id
    then listing_le a b
    else text_ltb (or_blank a.worker_id) (or_blank b.worker_id)

unfoldable pub list_all_queued : Jobs → List Job
list_all_queued jobs = order_by queue_listing_le (select is_open jobs)

unfoldable pub list_queue : Option String → Jobs → List Job
list_queue none jobs = list_all_queued jobs
list_queue (some w) jobs = select (λ j. equals_sql j.worker_id (some w)) (list_all_queued jobs)

abbrev same_worker : Job → Job → Bool
same_worker a b = or_blank a.worker_id == or_blank b.worker_id

-- The place of the job among the pending jobs of its worker that are listed, from 1.
unfoldable pub position_in : ℕ → Job → List Job → ℕ
position_in seen job [] = seen
position_in seen job (j ∷ js) =
    let later = position_in (seen + 1) job js in
    let same = position_in seen job js in
    if is_pending j.status && same_worker j job
    then (if j.id == job.id then seen + 1 else later)
    else same

unfoldable pub queue_item : Workers → List Job → Job → QueueItem
queue_item workers listed job = record {
  job = job;
  worker_name = name_of (get_worker (or_blank job.worker_id) workers);
  position = if is_pending job.status then position_in 0 job listed else 0;
}

unfoldable pub items : Workers → List Job → List Job → List QueueItem
items workers listed [] = []
items workers listed (j ∷ js) = queue_item workers listed j ∷ items workers listed js

unfoldable pub jobs_queue_list : Option String → Plane → List QueueItem
jobs_queue_list worker_id p =
    let listed = list_queue worker_id p.jobs in items p.workers listed listed

unfoldable pub parse_status : String → Option JobStatus
parse_status s =
    if s == "pending"
    then some pending
    else if s == "starting"
    then some starting
    else if s == "running"
    then some running
    else if s == "done"
    then some done
    else if s == "failed"
    then some failed
    else none

abbrev named : Workers → Job → Job × Option String
named workers j = (j, name_of (get_worker (or_blank j.worker_id) workers))

-- `jobs_list`, with the status as a text.
unfoldable pub jobs_list :
    Option String → String → Option String → Plane → Answer (List (Job × Option String))
jobs_list worker_id status_value origin p =
    if is_empty status_value
    then answer (map (named p.workers) (list_jobs worker_id none origin p.jobs))
    else elim (parse_status status_value) as (λ _. Answer (List (Job × Option String))) [
      | none ↦ status 400
      | some wanted ↦
          answer (map (named p.workers) (list_jobs worker_id (some wanted) origin p.jobs))
    ]

-- `resolve_worker`: by id, or by name in either case.
unfoldable pub resolve_worker : (String → String) → String → Workers → Option Worker
resolve_worker lower x workers = elim (get_worker x workers) as (λ _. Option Worker) [
  | some w ↦ some w
  | none ↦ find_where (λ w. lower w.name == lower x) (list_workers workers)
]
