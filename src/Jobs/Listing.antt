-- ===== src/Jobs/Listing.antt =====
-- `list_queued_jobs` in db.py against the order in which jobs are claimed.
use worker_harness.Base.{
  ◌≡◌, String, Bool, true, false, ◌&&◌, some, arith, nat_eq, string_eq, ◌∙◌, ap,
}
use worker_harness.Models.{Job, is_pending}
use worker_harness.Table.{select}
use worker_harness.Table.Laws.{select-All}
use worker_harness.Table.Order.{order_by}
use worker_harness.Table.Order.Sorted.{IsTotal}
use worker_harness.Table.Order.Stable.{select-order_by, order_by_congr, select-select, select_congr}
use worker_harness.Jobs.{
  Jobs, queue_le, listing_le, list_queued_jobs, pending_rows, is_open_on, is_queued_on,
}
use worker_harness.Jobs.Fifo.{queue_le-IsTotal}

listing_le_total : (a b : Job) → listing_le a b ≡ false → listing_le b a ≡ true
unfolding listing_le
listing_le_total a b h = ground (arith, queue_le-IsTotal.total a b)

listing_le_trans :
    (a b c : Job) → listing_le a b ≡ true → listing_le b c ≡ true → listing_le a c ≡ true
unfolding listing_le
listing_le_trans a b c h k = ground (arith, queue_le-IsTotal.trans a b c)

listing_le-IsTotal : IsTotal listing_le
listing_le-IsTotal = record { total = listing_le_total; trans = listing_le_trans }

-- Pending jobs are listed in the order of the queue.
listing_of_pending :
    (a b : Job)
    → is_pending a.status ≡ true
    → is_pending b.status ≡ true
    → listing_le a b ≡ queue_le a b
unfolding listing_le queue_le
listing_of_pending a b h k = ground (arith)

open_pending :
    (w : String) (j : Job) → is_open_on (some w) j && is_pending j.status ≡ is_queued_on (some w) j
unfolding is_open_on is_queued_on
open_pending w j = ground arith

-- What `list_queued_jobs` lists of a worker's pending jobs is exactly the queue in the order in
-- which `claim_queued_job` takes them, whatever else is listed.
pub list_queued_jobs_pending :
    (w : String) (jobs : Jobs)
    → select (λ j. is_pending j.status) (list_queued_jobs w jobs) ≡ pending_rows (some w) jobs
unfolding list_queued_jobs pending_rows
list_queued_jobs_pending w jobs =
    let p : Job → Bool = λ j. is_pending j.status in
    let q : Job → Bool = is_open_on (some w) in
    let sorted = select-order_by listing_le-IsTotal p (select q jobs) in
    let chosen =
      select-select p q jobs
      ∙ select_congr (λ j. q j && p j) (is_queued_on (some w)) jobs (open_pending w) in
    let same =
      order_by_congr listing_le queue_le p listing_of_pending (select p (select q jobs))
        (select-All p (select q jobs)) in
    sorted ∙ same ∙ ap (order_by queue_le) chosen
