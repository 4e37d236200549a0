-- ===== src/JobManager/Ended.antt =====
-- Jobs that are done or failed stay so.
use worker_harness.Base.{
  ℕ, ◌+◌, ◌≡◌, refl, String, Bool, true, false, is_some, some, List, [], ◌∷◌, arith, ◌==◌, nat_eq,
  string_eq, if◌then◌else◌,
}
use worker_harness.Models.{Job, Worker, negsuc, failed, is_terminal}
use worker_harness.Table.{find_where, count_where, update_where}
use worker_harness.Table.Removal.{count_where-found}
use worker_harness.Table.Laws.{find_where-counted, find_where-update_where}
use worker_harness.Jobs.{Jobs, has_id, is_queued_on, get_job, ids, pending_rows}
use worker_harness.Jobs.Pending.{renumber, fail_pending_job, is_pending_job}
use worker_harness.JobManager.Turn.{Untouched}

-- The job of that id is done or failed.
pub record HasEnded (x : String) (jobs : Jobs) : Type 0 where
  pub row : Job
  pub found : find_where (has_id x) jobs ≡ some row
  pub terminal : is_terminal row.status ≡ true

update_where-HasEnded :
    (x : String) (p : Job → Bool) (f : Job → Job) (jobs : Jobs)
    → ((j : Job) → p j ≡ true → (f j).id ≡ j.id)
    → ((j : Job) → p j ≡ true → is_terminal j.status ≡ true → is_terminal (f j).status ≡ true)
    → HasEnded x jobs
    → HasEnded x (update_where p f jobs)
update_where-HasEnded x p f jobs key status e =
    let same = find_where-update_where p (has_id x) f jobs (λ j h. rw (key j h)) in
    record {
      row = if p e.row then f e.row else e.row;
      found = ground (arith, same, e.found);
      terminal = ground (arith, status e.row, e.terminal);
    }

renumber-HasEnded :
    (x : String) (n : ℕ) (order : List String) (jobs : Jobs)
    → HasEnded x jobs
    → HasEnded x (renumber n order jobs)
unfolding renumber
renumber-HasEnded x n [] jobs e = e
renumber-HasEnded x n (y ∷ ys) jobs e =
    renumber-HasEnded x (n + 1) ys
      (update_where (has_id y) (λ j. record j { queue_order = n }) jobs)
      (update_where-HasEnded x (has_id y) (λ j. record j { queue_order = n }) jobs (λ j h. refl)
        (λ j h k. k) e)

-- The UPDATE of a row of the table by `p`, where the row of the id matches.
pub ended_by :
    (x : String) (p : Job → Bool) (f : Job → Job) (jobs : Jobs) (row : Job)
    → ((j : Job) → p j ≡ true → (f j).id ≡ j.id)
    → find_where (has_id x) jobs ≡ some row
    → p row ≡ true
    → is_terminal (f row).status ≡ true
    → HasEnded x (update_where p f jobs)
ended_by x p f jobs row key found hit terminal =
    let same = find_where-update_where p (has_id x) f jobs (λ j h. rw (key j h)) in
    record { row = f row; found = ground (arith, same, found, hit); terminal = terminal }

abbrev as_stopped : ℕ → Job → Job
as_stopped t j = record j {
  status = failed;
  exit_code = some (negsuc 0);
  finished_at = t;
  queue_order = 0;
}

-- A pending job of the queue is always stopped.
pub fail_pending_job-HasEnded :
    (x : String) (t : ℕ) (jobs : Jobs) (row : Job)
    → find_where (has_id x) jobs ≡ some row
    → is_pending_job x row ≡ true
    → (is_some (fail_pending_job x t jobs).0 ≡ true) × HasEnded x (fail_pending_job x t jobs).1
unfolding fail_pending_job get_job
fail_pending_job-HasEnded x t jobs row found hit =
    let some_row = count_where-found (is_pending_job x) (has_id x) jobs row found hit in
    let (first, at) = find_where-counted (is_pending_job x) jobs some_row in
    let stopped = update_where (is_pending_job x) (as_stopped t) jobs in
    let ended =
      renumber-HasEnded x 1 (ids (pending_rows first.worker_id stopped)) stopped
        (ended_by x (is_pending_job x) (as_stopped t) jobs row (λ j h. refl) found hit refl) in
    let counted : (count_where (is_pending_job x) jobs == 0) ≡ false = ground (arith, some_row) in
    rw (at, fail_pending_job) (rw (counted, fail_pending_job) (ground (arith, ended.found), ended))

-- A dispatch starts no job that has ended.
pub Untouched-HasEnded :
    (w : Worker) (x : String) (jobs after : Jobs)
    → Untouched w jobs after
    → HasEnded x jobs
    → HasEnded x after
Untouched-HasEnded w x jobs after kept e = record {
  row = e.row;
  found = kept x e.row e.found (unfold is_queued_on in ground (arith, e.terminal));
  terminal = e.terminal;
}
