-- ===== src/Jobs/Rewrites.antt =====
-- The methods of db.py that renumber, move, stop and put back queue jobs assign no GPU anew.
use worker_harness.Base.{
  ℕ, ◌+◌, ◌≡◌, refl, ◌⊎◌, inl, inr, String, Bool, true, false, ◌&&◌, Option, none, some, List, [],
  ◌∷◌, arith, ◌==◌, nat_eq, string_eq, if◌then◌else◌, Option-cases,
}
use worker_harness.Models.{Job, JobStatus, ℤ, Worker, negsuc, is_active, failed}
use worker_harness.Table.{update_where, count_where, find_where}
use worker_harness.Jobs.{
  Jobs, equals_sql, has_id, is_queued_on, is_active_on, update_job, pending_rows, get_job, ids,
}
use worker_harness.Jobs.Pending.{
  PendingUpdate, renumber, changed, is_pending_job, move_job, update_row, update_pending_job,
  fail_pending_job, is_starting_job, is_claimed_job, put_back, reconciled, reconciled_rows,
  reconcile_starting_job, source_ids, destination_ids, destination_of,
}
use worker_harness.Jobs.Load.{count_index, job_load}
use worker_harness.Jobs.Exclusive.{Valid}
use worker_harness.Jobs.Keeps.{update_where-Valid, update_job-Valid}

renumber-Valid : (n : ℕ) (xs : List String) (jobs : Jobs) → Valid jobs → Valid (renumber n xs jobs)
unfolding renumber
renumber-Valid n [] jobs v = v
renumber-Valid n (x ∷ xs) jobs v = renumber-Valid (n + 1) xs _ (
    update_where-Valid (has_id x) (λ j. record j { queue_order = n }) jobs
      (record {
        keeps_id = λ j h. refl;
        no_more = λ w i j h. unfold job_load is_active_on in omega arith;
        keeps_size = λ j h old. old;
      })
      v)

move_job-Valid :
    (row : Job) (u : PendingUpdate) (w : Option String) (order : List String) (jobs : Jobs)
    → Valid jobs
    → Valid (move_job row u w order jobs)
unfolding move_job
move_job-Valid row u w order jobs v = renumber-Valid 1 order _ (left (equals_sql row.worker_id w))
  where
    moved : Jobs
    moved = update_where (is_pending_job row.id) (changed u w) jobs

    moved-Valid : Valid moved
    moved-Valid =
        update_where-Valid (is_pending_job row.id) (changed u w) jobs
          (record {
            keeps_id = λ j h. refl;
            no_more = λ v i j h. unfold job_load is_active_on in ground arith;
            keeps_size = λ j h old managed active. ground arith;
          })
          v

    left : (same : Bool) → Valid (if same then moved else renumber 1 (source_ids row jobs) moved)
    left true = moved-Valid
    left false = renumber-Valid 1 (source_ids row jobs) moved moved-Valid

-- An update either raises and changes nothing, or moves the job.
update_row-cases :
    (row : Job) (u : PendingUpdate) (workers : List Worker) (jobs : Jobs)
    → ((update_row row u workers jobs).1 ≡ jobs)
      ⊎ ((order : List String) × (destination_ids row (destination_of row u) u.position jobs
            ≡ some order)
          × ((update_row row u workers jobs).1 ≡ move_job row u (destination_of row u) order jobs))
unfolding update_row
update_row-cases row u workers jobs = ground arith

update_row-Valid :
    (row : Job) (u : PendingUpdate) (workers : List Worker) (jobs : Jobs)
    → Valid jobs
    → Valid (update_row row u workers jobs).1
update_row-Valid row u workers jobs v = elim (update_row-cases row u workers jobs) [
  | inl same ↦ rw same v
  | inr (order, _, moved) ↦ rw moved (move_job-Valid row u (destination_of row u) order jobs v)
]

pub update_pending_job-Valid :
    (job_id : String) (u : PendingUpdate) (workers : List Worker) (jobs : Jobs)
    → Valid jobs
    → Valid (update_pending_job job_id u workers jobs).1
unfolding update_pending_job
update_pending_job-Valid job_id u workers jobs v =
    elim (Option-cases (find_where (λ j. has_id job_id j && j.queue_managed) jobs)) [
      | inl missing ↦ rw (missing, update_pending_job) v
      | inr (row, found) ↦ rw (found, update_pending_job) (update_row-Valid row u workers jobs v)
    ]

pub fail_pending_job-Valid :
    (job_id : String) (finished_at : ℕ) (jobs : Jobs)
    → Valid jobs
    → Valid (fail_pending_job job_id finished_at jobs).1
unfolding fail_pending_job
fail_pending_job-Valid job_id t jobs v =
    elim (Option-cases (find_where (is_pending_job job_id) jobs)) [
      | inl missing ↦ rw (missing, fail_pending_job) v
      | inr (row, found) ↦
          rw (found, fail_pending_job) (branch (count_where (is_pending_job job_id) jobs == 0) row)
    ]
  where
    stopped : Jobs
    stopped =
        update_where (is_pending_job job_id)
          (λ j. record j {
            status = failed;
            exit_code = some (negsuc 0);
            finished_at = t;
            queue_order = 0;
          })
          jobs

    stopped-Valid : Valid stopped
    stopped-Valid =
        update_where-Valid _ _ jobs
          (record {
            keeps_id = λ j h. refl;
            no_more = λ w i j h. unfold job_load is_active_on in ground arith;
            keeps_size = λ j h old managed active. absurd (cc);
          })
          v

    after : Job → Jobs
    after row = renumber 1 (ids (pending_rows row.worker_id stopped)) stopped

    after-Valid : (row : Job) → Valid (after row)
    after-Valid row =
        renumber-Valid 1 (ids (pending_rows row.worker_id stopped)) stopped stopped-Valid

    branch :
        (b : Bool) (row : Job)
        → Valid
            (let r : Option Job × Jobs =
                (if b then (none, jobs) else (get_job job_id (after row), after row)) in
              r).1
    branch true row = v
    branch false row = after-Valid row

put_back-Valid :
    (job_id : String) (w : Option String) (jobs : Jobs)
    → Valid jobs
    → Valid (put_back job_id w jobs)
unfolding put_back
put_back-Valid job_id w jobs v =
    update_where-Valid (is_claimed_job job_id) _ _
      (record {
        keeps_id = λ j h. refl;
        no_more = λ x i j h. unfold job_load is_active_on count_index in ground arith;
        keeps_size = λ j h old managed active. absurd (cc);
      })
      (update_where-Valid (is_queued_on w) _ jobs
        (record {
          keeps_id = λ j h. refl;
          no_more = λ x i j h. unfold job_load is_active_on in omega arith;
          keeps_size = λ j h old. old;
        })
        v)

reconciled-Valid :
    (job_id : String) (observed : Bool) (now : ℕ) (row : Job) (jobs : Jobs)
    → Valid jobs
    → Valid (reconciled job_id observed now row jobs)
unfolding reconciled
reconciled-Valid job_id true now row jobs v =
    update_where-Valid (is_starting_job job_id) _ jobs
      (record {
        keeps_id = λ j h. refl;
        no_more = λ x i j h. unfold job_load is_active_on in ground arith;
        keeps_size = λ j h old managed active. old managed (ground arith);
      })
      v
reconciled-Valid job_id false now row jobs v = branch row.queue_managed
  where
    lost : Jobs
    lost =
        update_where (is_starting_job job_id)
          (λ j. record j { status = failed; exit_code = some (negsuc 0); finished_at = now }) jobs

    branch : (managed : Bool) → Valid (if managed then put_back job_id row.worker_id jobs else lost)
    branch true = put_back-Valid job_id row.worker_id jobs v
    branch false =
        update_where-Valid (is_starting_job job_id) _ jobs
          (record {
            keeps_id = λ j h. refl;
            no_more = λ x i j h. unfold job_load is_active_on in ground arith;
            keeps_size = λ j h old managed active. absurd (cc);
          })
          v

pub reconcile_starting_job-Valid :
    (job_id : String) (observed : Bool) (now : ℕ) (jobs : Jobs)
    → Valid jobs
    → Valid (reconcile_starting_job job_id observed now jobs).1
unfolding reconcile_starting_job
reconcile_starting_job-Valid job_id observed now jobs v =
    elim (Option-cases (find_where (is_starting_job job_id) jobs)) [
      | inl missing ↦ rw (missing, reconcile_starting_job) v
      | inr (row, found) ↦
          rw (found, reconcile_starting_job)
            (branch row (count_where (reconciled_rows job_id observed row) jobs == 0))
    ]
  where
    branch :
        (row : Job) (b : Bool)
        → Valid
            (let r : Option Job × Jobs =
                (if b then (none, jobs) else (
                  get_job job_id (reconciled job_id observed now row jobs),
                  reconciled job_id observed now row jobs,
                )) in
              r).1
    branch row true = v
    branch row false = reconciled-Valid job_id observed now row jobs v

-- `update_job` with the row itself under a new status: an active status only for an active row.
unfoldable pub with_status : Job → JobStatus → Option ℤ → ℕ → Job
with_status row status exit_code finished_at = record row {
  status = status;
  exit_code = exit_code;
  finished_at = finished_at;
}

pub with_status-Valid :
    (row : Job) (status : JobStatus) (exit_code : Option ℤ) (finished_at : ℕ) (jobs : Jobs)
    → find_where (has_id row.id) jobs ≡ some row
    → (is_active status ≡ true → is_active row.status ≡ true)
    → Valid jobs
    → Valid (update_job (with_status row status exit_code finished_at) jobs)
unfolding with_status
with_status-Valid row t c f jobs found down v =
    update_job-Valid (with_status row t c f) row jobs found
      (λ w i. unfold job_load is_active_on in ground arith)
      (λ old managed active. old managed (down active)) v
