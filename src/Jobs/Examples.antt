-- ===== src/Jobs/Examples.antt =====
-- The queue on concrete tables.
use worker_harness.Base.{
  false, ℕ, ◌≤◌, ◌≡◌, refl, true, none, some, [], ◌∷◌, arith, string_discrete,
}
use worker_harness.PiSessions.{PiSession}
use worker_harness.PiSessions.Bridge.{registered}
use worker_harness.PiSessions.Examples.{bridge}
use worker_harness.Jobs.Reports.{upsert_reported_worker_job}
use worker_harness.Jobs.Revisions.{IsReport}
use worker_harness.Jobs.Applied.{IsApplied, upsert_reported_worker_job-IsApplied}
use worker_harness.Models.{WorkerJobReport, running, Job, pending, ssh}
use worker_harness.Table.{select, find_where, count_where, exists_where, max_where, update_where}
use worker_harness.Table.Order.{order_by, insert_by}
use worker_harness.Jobs.{
  Jobs, queue_le, claim_queued_job, insert_queued_job, insert_job, queue_job, can_claim,
  start_claim, pending_rows, get_job, is_queued_on, is_active_on, is_open_on, head_id, overlaps,
  mem_index,
}
use worker_harness.Jobs.Load.{count_index}
use worker_harness.Jobs.Exclusive.{Valid}
use worker_harness.Jobs.History.{Reach, start, next, enqueues, claims, Reach-Valid}
use worker_harness.Jobs.Fifo.{IsFirst, claim_queued_job-IsFirst, claim_queued_job-succeeds}

abbrev pub job_a : Job
job_a = record {
  id = "a";
  worker_id = some "w";
  name = "train";
  tmux_session = "wh_a";
  command = "python train.py";
  status = pending;
  queue_managed = true;
  exit_code = none;
  pty_enabled = true;
  kind = ssh;
  origin_session_id = none;
  report_revision = 0;
  expected_seconds = 60;
  gpu_count = 2;
  gpu_indices = [];
  queue_order = 1;
  started_at = 0;
  finished_at = 0;
}

abbrev pub job_b : Job
job_b = record job_a { id = "b"; name = "eval"; gpu_count = 1; queue_order = 2 }

abbrev pub two_jobs : Jobs
two_jobs = job_a ∷ job_b ∷ []

pub two_jobs-Reach : Reach two_jobs
unfolding insert_queued_job insert_job queue_job exists_where max_where string_discrete is_open_on
two_jobs-Reach = next (next start (enqueues job_a refl)) (enqueues job_b refl)

abbrev claimed : Jobs
claimed = (claim_queued_job "a" (0 ∷ 1 ∷ []) 5 "w" two_jobs).1

distinct : (i : ℕ) → count_index i (0 ∷ 1 ∷ []) ≤ 1
unfolding count_index
distinct i = ground arith

Reach-Valid_example : Valid claimed
Reach-Valid_example = Reach-Valid (next two_jobs-Reach (claims "a" (0 ∷ 1 ∷ []) 5 "w" distinct))

-- The second job cannot overtake the first.
no_overtaking : (claim_queued_job "b" (0 ∷ []) 5 "w" two_jobs).0 ≡ none
unfolding claim_queued_job can_claim pending_rows order_by insert_by queue_le select is_queued_on
    head_id exists_where is_active_on overlaps mem_index count_where update_where get_job find_where
    string_discrete
no_overtaking = refl

first_pending : pending_rows (some "w") two_jobs ≡ two_jobs
unfolding pending_rows order_by insert_by queue_le select is_queued_on string_discrete
first_pending = refl

claim_queued_job-succeeds_example :
    (claim_queued_job "a" (0 ∷ 1 ∷ []) 5 "w" two_jobs).0 ≡ some (start_claim (0 ∷ 1 ∷ []) 5 job_a)
unfolding exists_where is_active_on string_discrete
claim_queued_job-succeeds_example =
    claim_queued_job-succeeds job_a (job_b ∷ []) (0 ∷ 1 ∷ []) 5 "w" two_jobs
      (Reach-Valid two_jobs-Reach) first_pending refl refl

claim_queued_job-IsFirst_example :
    (row : Job) × (start_claim (0 ∷ 1 ∷ []) 5 job_a ≡ start_claim (0 ∷ 1 ∷ []) 5 row)
    × IsFirst "a" (0 ∷ 1 ∷ []) "w" two_jobs row
unfolding exists_where is_active_on string_discrete
claim_queued_job-IsFirst_example =
    claim_queued_job-IsFirst "a" (0 ∷ 1 ∷ []) 5 "w" two_jobs (Reach-Valid two_jobs-Reach)
      (start_claim (0 ∷ 1 ∷ []) 5 job_a)
      (claim_queued_job-succeeds job_a (job_b ∷ []) (0 ∷ 1 ∷ []) 5 "w" two_jobs
        (Reach-Valid two_jobs-Reach) first_pending refl refl)

abbrev session : PiSession
session = record (registered bridge 2) { worker_id = some "w" }

abbrev report : WorkerJobReport
report = record {
  id = "d";
  origin_session_id = "s";
  tmux_session = "wh_d";
  command = "make";
  status = running;
  exit_code = none;
  pty_enabled = false;
  started_at = 4;
  finished_at = 0;
  report_revision = 1;
}

upsert_reported_worker_job-IsApplied_example :
    IsApplied "w" report
      (session ∷ [])
      two_jobs
      (upsert_reported_worker_job "w" report (session ∷ []) two_jobs).0
      (upsert_reported_worker_job "w" report (session ∷ []) two_jobs).1
    × IsReport "w" report
        (session ∷ [])
        two_jobs
        (upsert_reported_worker_job "w" report (session ∷ []) two_jobs).0
        (upsert_reported_worker_job "w" report (session ∷ []) two_jobs).1
upsert_reported_worker_job-IsApplied_example =
    upsert_reported_worker_job-IsApplied "w" report two_jobs (session ∷ [])
      (Reach-Valid two_jobs-Reach)
