-- ===== src/JobManager/Turn.antt =====
-- One turn of the loop of `dispatch_worker` in job.py.
use worker_harness.Base.{
  ℕ, ◌≤◌, ◌<◌, ◌≡◌, refl, sym, ap, ◌∙◌, inl, inr, String, true, false, some, none, List, [], ◌∷◌,
  length, take, length-take, arith, ltb, nat_eq, string_eq, Bool-cases,
}
use worker_harness.Models.{Job, Worker, is_pending}
use worker_harness.Table.{count_where, find_where, exists_where}
use worker_harness.Table.Order.Stable.{find_where-select, first_row}
use worker_harness.Jobs.{
  Jobs, is_queued_on, has_id, mem_index, pending_rows, start_claim, claim_queued_job,
  list_queued_jobs,
}
use worker_harness.Jobs.Load.{count_index, in_the_way}
use worker_harness.Jobs.Exclusive.{Valid, claim_queued_job-Valid}
use worker_harness.Jobs.Fifo.{head_claimable, claim_queued_job-succeeds}
use worker_harness.Jobs.Listing.{list_queued_jobs_pending}
use worker_harness.Jobs.Taken.{
  no_other, claim_queued_job-written, claim_queued_job-rest, claim_queued_job-untouched,
  claim_queued_job-other, claim_queued_job-count_where,
}
use worker_harness.JobManager.{Remote, pending_head, unclaimed, dispatch_head, dispatch_turn}
use worker_harness.JobManager.Free.{assigned_free, assigned_distinct, assigned_available}
use worker_harness.JobManager.Launch.{
  IsLaunchOf, launch_job-Outcome, Outcome-IsLaunchOf, Outcome-Valid, Outcome-pending_rows,
  Outcome-find_where, Outcome-count_where,
}

pub pending_head-first :
    (w : String) (jobs : Jobs) → pending_head w jobs ≡ first_row (pending_rows (some w) jobs)
unfolding pending_head
pending_head-first w jobs =
    find_where-select (λ j. is_pending j.status) (list_queued_jobs w jobs)
    ∙ ap first_row (list_queued_jobs_pending w jobs)

-- Nothing more can start: no job waits, or the first one asks for more GPUs than are left.
pub data IsBlocked (w : Worker) (available : List ℕ) (jobs : Jobs) : Type 0 where
  idle : pending_rows (some w.id) jobs ≡ [] → IsBlocked w available jobs
  short :
      (h : Job) (rest : Jobs)
      → pending_rows (some w.id) jobs ≡ h ∷ rest
      → length (unclaimed w available jobs) < h.gpu_count
      → IsBlocked w available jobs

-- A row that is not queued on the worker stays as it is.
abbrev pub Untouched : Worker → Jobs → Jobs → Type 0
Untouched w jobs after =
    (x : String) (row : Job)
    → find_where (has_id x) jobs ≡ some row
    → is_queued_on (some w.id) row ≡ false
    → find_where (has_id x) after ≡ some row

abbrev pub SameIds : Jobs → Jobs → Type 0
SameIds jobs after = (x : String) → count_where (has_id x) after ≡ count_where (has_id x) jobs

-- A launched job has as many GPUs as it asked for, all of them available.
pub record IsAssigned (available : List ℕ) (j : Job) : Type 0 where
  pub enough : length j.gpu_indices ≡ j.gpu_count
  pub within : (i : ℕ) → mem_index i j.gpu_indices ≡ true → mem_index i available ≡ true
  pub begun : is_pending j.status ≡ false

pub data TurnResult (remote : Remote) (w : Worker) (available : List ℕ) (jobs : Jobs) : Type 0 where
  stops :
      dispatch_turn remote w available jobs ≡ none
      → IsBlocked w available jobs
      → TurnResult remote w available jobs
  launches :
      (h : Job) (rest : Jobs) (launched : Job) (after : Jobs)
      → dispatch_turn remote w available jobs ≡ some (some launched, after)
      → pending_rows (some w.id) jobs ≡ h ∷ rest
      → launched.id ≡ h.id
      → IsAssigned available launched
      → pending_rows (some w.id) after ≡ rest
      → Valid after
      → Untouched w jobs after
      → SameIds jobs after
      → TurnResult remote w available jobs

module _ (remote : Remote) (w : Worker) (available : List ℕ) (jobs : Jobs)
    (distinct : (i : ℕ) → count_index i available ≤ 1) (v : Valid jobs) where
  free : List ℕ
  free = unclaimed w available jobs

  module _ (h : Job) (rest : Jobs) (queue : pending_rows (some w.id) jobs ≡ h ∷ rest)
      (enough : h.gpu_count ≤ length free) where
    gpus : List ℕ
    gpus = take h.gpu_count free

    size : length gpus ≡ h.gpu_count
    unfolding gpus free
    size = length-take h.gpu_count free enough

    row : Job
    row = start_claim gpus remote.now h

    table : Jobs
    table = (claim_queued_job h.id gpus remote.now w.id jobs).1

    clear : exists_where (in_the_way (some w.id) gpus) jobs ≡ false
    unfolding gpus free
    clear = assigned_free w h.gpu_count available jobs

    taken : (claim_queued_job h.id gpus remote.now w.id jobs).0 ≡ some row
    unfolding row
    taken = claim_queued_job-succeeds h rest gpus remote.now w.id jobs v queue (sym size) clear

    table-Valid : Valid table
    unfolding table gpus free
    table-Valid =
        claim_queued_job-Valid h.id gpus remote.now w.id jobs v
          (assigned_distinct w h.gpu_count available jobs distinct)

    table_queue : pending_rows (some w.id) table ≡ rest
    unfolding table
    table_queue =
        claim_queued_job-rest h.id gpus remote.now w.id jobs row h rest v refl taken queue
          (head_claimable h rest gpus w.id jobs queue (sym size) clear)

    stored : find_where (has_id row.id) table ≡ some row
    unfolding table row
    stored = (claim_queued_job-written h.id gpus remote.now w.id jobs row taken).1

    row_absent : count_where (has_id row.id) (pending_rows (some w.id) table) ≡ 0
    unfolding row
    row_absent = rw table_queue (no_other (some w.id) jobs h rest v queue)

    launched-IsAssigned : (launched : Job) → IsLaunchOf row launched → IsAssigned available launched
    unfolding row gpus free
    launched-IsAssigned launched same = record {
      enough = rw (same.same_gpus, same.same_count) size;
      within = λ i m. assigned_available w h.gpu_count available jobs i (rw same.same_gpus at m);
      begun = same.not_pending;
    }

    launch_head :
        (launched : Job) × (after : Jobs) × (dispatch_head remote w free h jobs
          ≡ (some launched, after))
        × (launched.id ≡ h.id)
        × IsAssigned available launched
        × (pending_rows (some w.id) after ≡ rest)
        × Valid after
        × Untouched w jobs after
        × SameIds jobs after
    unfolding dispatch_head row table gpus
    launch_head =
        let (launched, after, result, outcome) = launch_job-Outcome remote w row table in
        let same = Outcome-IsLaunchOf outcome refl in
        (
          launched,
          after,
          ground (arith, taken, result),
          same.same_id,
          launched-IsAssigned launched same,
          Outcome-pending_rows outcome (some w.id) row_absent ∙ table_queue,
          Outcome-Valid outcome stored refl table-Valid,
          λ x old found idle_row.
              Outcome-find_where outcome x old
                (claim_queued_job-untouched h.id gpus remote.now w.id jobs x old found idle_row)
                (claim_queued_job-other h.id gpus remote.now w.id jobs row x old v taken found
                  idle_row),
          λ x.
              Outcome-count_where outcome x
              ∙ claim_queued_job-count_where h.id gpus remote.now w.id jobs x,
        )

  step_from :
      (rows : Jobs) → pending_rows (some w.id) jobs ≡ rows → TurnResult remote w available jobs
  unfolding dispatch_turn first_row free
  step_from [] queue = stops (ground (arith, pending_head-first w.id jobs, queue)) (idle queue)
  step_from (h ∷ rest) queue =
      let first : pending_head w.id jobs ≡ some h =
        pending_head-first w.id jobs ∙ ap first_row queue in
      elim (Bool-cases (ltb (length free) h.gpu_count)) [
        | inl few ↦ stops (ground (arith, first, few)) (short h rest queue (ground arith))
        | inr enough ↦
            let (launched, after, result, same, assigned, left, valid, same_rows, same_ids) =
              launch_head h rest queue (ground (arith, enough)) in
            launches h rest launched after (ground (arith, first, enough, result)) queue same
              assigned left valid same_rows same_ids
      ]

  pub dispatch_turn-TurnResult : TurnResult remote w available jobs
  dispatch_turn-TurnResult = step_from (pending_rows (some w.id) jobs) refl
