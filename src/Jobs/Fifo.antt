-- ===== src/Jobs/Fifo.antt =====
-- `claim_queued_job` in db.py: which job it starts, and when it does.
use worker_harness.Base.{
  ℕ, ◌≤◌, ◌<◌, ◌≡◌, refl, subst, sym, String, Bool, true, false, Option, some, List, [], ◌∷◌,
  length, arith, nat_eq, string_eq,
}
use worker_harness.Models.{Job}
use worker_harness.Table.{select, count_where, exists_where, find_where, All}
use worker_harness.Table.Laws.{
  All-of_select, All-select, select-All, only_row, find_where-counted, find_where-narrow,
  find_where_sound, find_where-update_where, count_where-select-le,
}
use worker_harness.Table.Order.{order_by}
use worker_harness.Table.Order.Laws.{text_le_total, text_le_trans}
use worker_harness.Table.Order.Sorted.{IsTotal, order_by-head, All-order_by, count_where-order_by}
use worker_harness.Jobs.{
  Jobs, queue_le, has_id, is_queued_on, mem_index, start_claim, can_claim, claim_queued_job,
  get_job, pending_rows, head_id,
}
use worker_harness.Jobs.Load.{gpu_load, in_the_way, free_of_overlap}
use worker_harness.Jobs.Exclusive.{Valid}

pub queue_le-IsTotal : IsTotal queue_le
unfolding queue_le
queue_le-IsTotal = record {
  total = λ a b h. ground (arith, text_le_total a.id b.id);
  trans = λ a b c h k. ground (arith, text_le_trans a.id b.id c.id);
}

-- What a successful claim shows of the table before it.
pub record IsFirst (job_id : String) (gpus : List ℕ) (w : String) (jobs : Jobs) (row : Job)
    : Type 0 where
  pub found : get_job job_id jobs ≡ some row
  pub queued : is_queued_on (some w) row ≡ true
  pub requested : row.gpu_count ≡ length gpus
  -- No pending queue job of the worker comes before it,
  pub first : All (λ r. is_queued_on (some w) r ≡ true → queue_le row r ≡ true) jobs
  -- and no active queue job of the worker holds one of its GPUs.
  pub unassigned : (i : ℕ) → mem_index i gpus ≡ true → gpu_load (some w) i jobs ≡ 0

first_of_head :
    (w : Option String) (jobs : Jobs) (h : Job) (rest : Jobs)
    → pending_rows w jobs ≡ h ∷ rest
    → All (λ r. is_queued_on w r ≡ true → queue_le h r ≡ true) jobs
unfolding pending_rows
first_of_head w jobs h rest e =
    All-of_select (λ r. queue_le h r ≡ true) (is_queued_on w) jobs
      (order_by-head queue_le-IsTotal (select (is_queued_on w) jobs) h rest e)

-- The head of the queue is the row of its id.
head_row :
    (w : Option String) (jobs : Jobs) (h row : Job) (rest : Jobs)
    → count_where (has_id row.id) jobs ≤ 1
    → find_where (has_id row.id) jobs ≡ some row
    → pending_rows w jobs ≡ h ∷ rest
    → h.id ≡ row.id
    → h ≡ row
unfolding pending_rows
head_row w jobs h row rest one found e same =
    let only = only_row (has_id row.id) jobs row one found in
    let P : Job → Type 0 = λ r. has_id row.id r ≡ true → r ≡ row in
    let sorted =
      All-order_by queue_le P (select (is_queued_on w) jobs)
        (All-select P (is_queued_on w) jobs only) in
    (subst (All P) e sorted).0 (ground (arith, same))

module _ (job_id : String) (gpus : List ℕ) (t : ℕ) (w : String) (jobs : Jobs) (v : Valid jobs) where
  claim_first :
      (row : Job) (rows : Jobs)
      → find_where (has_id job_id) jobs ≡ some row
      → can_claim job_id gpus w jobs row ≡ true
      → pending_rows (some w) jobs ≡ rows
      → All (λ r. is_queued_on (some w) r ≡ true → queue_le row r ≡ true) jobs
  unfolding can_claim head_id
  claim_first row [] found fits e = absurd (ground arith)
  claim_first row (h ∷ rest) found fits e =
      let key : row.id ≡ job_id = ground arith in
      let same : h.id ≡ row.id = ground arith in
      let head : h ≡ row =
        head_row (some w) jobs h row rest (v.unique row.id)
          (subst (λ x. find_where (has_id x) jobs ≡ some row) (sym key) found) e same in
      subst (λ x. All (λ r. is_queued_on (some w) r ≡ true → queue_le x r ≡ true) jobs) head
        (first_of_head (some w) jobs h rest e)

  claim_row :
      (row : Job)
      → find_where (has_id job_id) jobs ≡ some row
      → can_claim job_id gpus w jobs row ≡ true
      → IsFirst job_id gpus w jobs row
  claim_row row found fits = record {
    found = unfold get_job in found;
    queued = unfold can_claim in ground arith;
    requested = unfold can_claim in ground arith;
    first = claim_first row (pending_rows (some w) jobs) found fits refl;
    unassigned = λ i m. free_of_overlap (some w) i gpus jobs (unfold can_claim in ground arith) m;
  }

  -- A successful claim starts exactly the first pending job of the worker's queue, with as many
  -- GPUs as it asked for, all of them unassigned before: no job overtakes another.
  pub claim_queued_job-IsFirst :
      (j : Job)
      → (claim_queued_job job_id gpus t w jobs).0 ≡ some j
      → (row : Job) × (j ≡ start_claim gpus t row) × IsFirst job_id gpus w jobs row
  unfolding claim_queued_job get_job
  claim_queued_job-IsFirst j e =
      let p : Job → Bool = can_claim job_id gpus w jobs in
      let (row, hit) = find_where-counted p jobs (ground arith) in
      let fits = find_where_sound p jobs row hit in
      let found =
        find_where-narrow p (has_id job_id) jobs row (λ r h. unfold can_claim in ground arith)
          (v.unique job_id) hit in
      let after =
        find_where-update_where p (has_id job_id) (start_claim gpus t) jobs (λ r h. refl) in
      (row, ground (arith, fits, found, after), claim_row row found fits)

head_queued :
    (w : Option String) (jobs : Jobs) (h : Job) (rest : Jobs)
    → pending_rows w jobs ≡ h ∷ rest
    → is_queued_on w h ≡ true
unfolding pending_rows
head_queued w jobs h rest e =
    let P : Job → Type 0 = λ r. is_queued_on w r ≡ true in
    let sorted =
      All-order_by queue_le P (select (is_queued_on w) jobs) (select-All (is_queued_on w) jobs) in
    (subst (All P) e sorted).0

head_counted :
    (p : Job → Bool) (w : Option String) (jobs : Jobs) (h : Job) (rest : Jobs)
    → pending_rows w jobs ≡ h ∷ rest
    → p h ≡ true
    → 0 < count_where p jobs
unfolding pending_rows count_where
head_counted p w jobs h rest e hit = omega (
  arith,
  one,
  count_where-order_by queue_le p (select (is_queued_on w) jobs),
  count_where-select-le p (is_queued_on w) jobs,
)
  where
    one : 0 < count_where p (order_by queue_le (select (is_queued_on w) jobs))
    one = rw e (rw hit (omega arith))

pub head_claimable :
    (h : Job) (rest : Jobs) (gpus : List ℕ) (w : String) (jobs : Jobs)
    → pending_rows (some w) jobs ≡ h ∷ rest
    → h.gpu_count ≡ length gpus
    → exists_where (in_the_way (some w) gpus) jobs ≡ false
    → can_claim h.id gpus w jobs h ≡ true
unfolding can_claim head_id
head_claimable h rest gpus w jobs e size free = ground (arith, head_queued (some w) jobs h rest e)

-- A claim does not fail for nothing: if the first pending job of the queue asks for as many GPUs as
-- are offered, and no active queue job of the worker holds one of these, the claim starts that job.
pub claim_queued_job-succeeds :
    (h : Job) (rest : Jobs) (gpus : List ℕ) (t : ℕ) (w : String) (jobs : Jobs)
    → Valid jobs
    → pending_rows (some w) jobs ≡ h ∷ rest
    → h.gpu_count ≡ length gpus
    → exists_where (in_the_way (some w) gpus) jobs ≡ false
    → (claim_queued_job h.id gpus t w jobs).0 ≡ some (start_claim gpus t h)
unfolding claim_queued_job get_job
claim_queued_job-succeeds h rest gpus t w jobs v e size free =
    let p : Job → Bool = can_claim h.id gpus w jobs in
    let fits : p h ≡ true = head_claimable h rest gpus w jobs e size free in
    let counted = head_counted p (some w) jobs h rest e fits in
    let (row, hit) = find_where-counted p jobs counted in
    let found =
      find_where-narrow p (has_id h.id) jobs row (λ r k. unfold can_claim in ground arith)
        (v.unique h.id) hit in
    let key = find_where_sound (has_id h.id) jobs row found in
    let same : row.id ≡ h.id = ground (arith, key) in
    let head : h ≡ row =
      head_row (some w) jobs h row rest (v.unique row.id)
        (subst (λ x. find_where (has_id x) jobs ≡ some row) (sym same) found) e (sym same) in
    let after = find_where-update_where p (has_id h.id) (start_claim gpus t) jobs (λ r k. refl) in
    ground (arith, counted, fits, found, after, head)
