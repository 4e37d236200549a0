-- ===== src/Jobs/Taken.antt =====
-- The rest of a worker's queue once its first job has been claimed.
use worker_harness.Base.{
  ℕ, ◌≤◌, ◌≡◌, ◌≢◌, refl, subst, subst, sym, ap, ◌∙◌, inl, inr, String, Bool, true, false, not,
  Option, some, List, ◌∷◌, length, arith, ◌==◌, nat_eq, string_eq, Bool-cases,
}
use worker_harness.Models.{Job}
use worker_harness.Table.{select, update_where, count_where, find_where}
use worker_harness.Table.Laws.{
  count_where-select-le, count_where_mono, count_where-update_where, find_where-update_where,
}
use worker_harness.Table.Removal.{select-update_where, select-all, length-select, length-order_by}
use worker_harness.Table.Order.{order_by}
use worker_harness.Table.Order.Sorted.{count_where-order_by}
use worker_harness.Table.Order.Stable.{select-select, select-order_by}
use worker_harness.Jobs.{
  Jobs, queue_le, has_id, is_queued_on, start_claim, can_claim, claim_queued_job, get_job,
  pending_rows, get_job, update_job,
}
use worker_harness.Jobs.Exclusive.{Valid}
use worker_harness.Jobs.Fifo.{queue_le-IsTotal, claim_queued_job-IsFirst}

pub length-pending_rows :
    (w : Option String) (jobs : Jobs)
    → length (pending_rows w jobs) ≡ count_where (is_queued_on w) jobs
unfolding pending_rows
length-pending_rows w jobs =
    length-order_by queue_le (select (is_queued_on w) jobs) ∙ length-select (is_queued_on w) jobs

-- An UPDATE after which the rows that it matches are not queued takes these out of the queue.
pub pending_rows-update_where :
    (w : Option String) (p : Job → Bool) (f : Job → Job) (jobs : Jobs)
    → ((j : Job) → p j ≡ true → is_queued_on w (f j) ≡ false)
    → pending_rows w (update_where p f jobs) ≡ select (λ j. not (p j)) (pending_rows w jobs)
unfolding pending_rows
pending_rows-update_where w p f jobs out =
    let q : Job → Bool = λ j. not (p j) in
    ap (order_by queue_le) (
      select-update_where (is_queued_on w) p f jobs out
      ∙ sym (select-select q (is_queued_on w) jobs))
    ∙ sym (select-order_by queue_le-IsTotal q (select (is_queued_on w) jobs))

count_where-pending_rows :
    (p : Job → Bool) (w : Option String) (jobs : Jobs)
    → count_where p (pending_rows w jobs) ≤ count_where p jobs
unfolding pending_rows
count_where-pending_rows p w jobs = omega (
  arith,
  count_where-order_by queue_le p (select (is_queued_on w) jobs),
  count_where-select-le p (is_queued_on w) jobs,
)

-- The id of the first job of the queue occurs only there.
pub no_other :
    (w : Option String) (jobs : Jobs) (h : Job) (rest : Jobs)
    → Valid jobs
    → pending_rows w jobs ≡ h ∷ rest
    → count_where (has_id h.id) rest ≡ 0
no_other w jobs h rest v e =
    let more : count_where (has_id h.id) (h ∷ rest) ≤ count_where (has_id h.id) jobs =
      subst (λ rows. count_where (has_id h.id) rows ≤ count_where (has_id h.id) jobs) e
        (count_where-pending_rows (has_id h.id) w jobs) in
    unfold count_where in ground (arith, more, v.unique h.id)

-- `update_job` of a job that is neither queued nor among the queued rows.
pub pending_rows-update_job :
    (w : Option String) (new : Job) (jobs : Jobs)
    → is_queued_on w new ≡ false
    → count_where (has_id new.id) (pending_rows w jobs) ≡ 0
    → pending_rows w (update_job new jobs) ≡ pending_rows w jobs
unfolding update_job
pending_rows-update_job w new jobs idle absent =
    pending_rows-update_where w (has_id new.id) (λ _. new) jobs (λ j h. idle)
    ∙ select-all (has_id new.id) (pending_rows w jobs) absent

module _ (job_id : String) (gpus : List ℕ) (t : ℕ) (w : String) (jobs : Jobs) where
  -- A claim that returns a job has written it.
  pub claim_queued_job-written :
      (j : Job)
      → (claim_queued_job job_id gpus t w jobs).0 ≡ some j
      → ((claim_queued_job job_id gpus t w jobs).1
          ≡ update_where (can_claim job_id gpus w jobs) (start_claim gpus t) jobs)
        × (find_where (has_id job_id) (claim_queued_job job_id gpus t w jobs).1 ≡ some j)
  unfolding claim_queued_job get_job
  claim_queued_job-written j e =
      elim (Bool-cases (count_where (can_claim job_id gpus w jobs) jobs == 0)) [
        | inl none_left ↦ absurd (ground (arith, none_left))
        | inr some_left ↦ (ground (arith, some_left), ground (arith, some_left))
      ]

  pub claim_queued_job-rest :
      (j h : Job) (rest : Jobs)
      → Valid jobs
      → h.id ≡ job_id
      → (claim_queued_job job_id gpus t w jobs).0 ≡ some j
      → pending_rows (some w) jobs ≡ h ∷ rest
      → can_claim job_id gpus w jobs h ≡ true
      → pending_rows (some w) (claim_queued_job job_id gpus t w jobs).1 ≡ rest
  claim_queued_job-rest j h rest v key e queue fits =
      let p : Job → Bool = can_claim job_id gpus w jobs in
      let out =
        pending_rows-update_where (some w) p (start_claim gpus t) jobs
          (λ r k. unfold is_queued_on in ground arith) in
      let left : count_where p rest ≡ 0 = omega (
        arith,
        no_other (some w) jobs h rest v queue,
        count_where_mono p (has_id h.id) rest (λ r k. unfold can_claim in ground (arith, key)),
      ) in
      let kept = select-all p rest left in
      let chosen : select (λ r. not (p r)) (h ∷ rest) ≡ rest =
        unfold select in ground (arith, fits, kept) in
      ap (pending_rows (some w)) (claim_queued_job-written j e).0
      ∙ out
      ∙ ap (select (λ r. not (p r))) queue
      ∙ chosen

  -- A claim leaves every row that is not queued on the worker as it was,
  pub claim_queued_job-untouched :
      (x : String) (row : Job)
      → find_where (has_id x) jobs ≡ some row
      → is_queued_on (some w) row ≡ false
      → find_where (has_id x) (claim_queued_job job_id gpus t w jobs).1 ≡ some row
  unfolding claim_queued_job
  claim_queued_job-untouched x row found idle =
      let p : Job → Bool = can_claim job_id gpus w jobs in
      let after = find_where-update_where p (has_id x) (start_claim gpus t) jobs (λ r h. refl) in
      let kept : p row ≡ false = unfold can_claim in ground (arith, idle) in
      ground (arith, found, after, kept)

  -- and a claim that succeeds takes a row that is.
  pub claim_queued_job-other :
      (j : Job) (x : String) (row : Job)
      → Valid jobs
      → (claim_queued_job job_id gpus t w jobs).0 ≡ some j
      → find_where (has_id x) jobs ≡ some row
      → is_queued_on (some w) row ≡ false
      → job_id ≢ x
  claim_queued_job-other j x row v e found idle same =
      let (first, written, is_first) = claim_queued_job-IsFirst job_id gpus t w jobs v j e in
      let again : find_where (has_id x) jobs ≡ some first =
        unfold get_job in
        subst (λ k. find_where (has_id k) jobs ≡ some first) same is_first.found in
      let one : row ≡ first = cc (found, again) in
      absurd (cc (subst (λ r. is_queued_on (some w) r ≡ false) one idle, is_first.queued))

  -- A claim keeps the ids.
  pub claim_queued_job-count_where :
      (x : String)
      → count_where (has_id x) (claim_queued_job job_id gpus t w jobs).1
        ≡ count_where (has_id x) jobs
  unfolding claim_queued_job
  claim_queued_job-count_where x =
      let p : Job → Bool = can_claim job_id gpus w jobs in
      ground (arith, count_where-update_where (has_id x) p (start_claim gpus t) jobs (λ r h. refl))
