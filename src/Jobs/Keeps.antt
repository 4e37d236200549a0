-- ===== src/Jobs/Keeps.antt =====
-- Updates of the `jobs` table that assign no GPU anew.
use worker_harness.Base.{
  ℕ, ◌≤◌, ◌≡◌, refl, subst, inl, inr, String, Bool, true, false, ◌&&◌, Option, some, [], ◌∷◌, ◌++◌,
  arith, nat_eq, string_eq, Bool-cases, Option-cases,
}
use worker_harness.Models.{Job, is_active}
use worker_harness.Table.{update_where, count_where, exists_where, find_where}
use worker_harness.Table.Laws.{
  All-update_where, All-append, All-find_where, count_where-update_where, count_where-append,
  count_where-eq-zero, update_where_none,
}
use worker_harness.Jobs.{
  Jobs, has_id, is_active_on, insert_job, insert_queued_job, queue_job, update_job,
}
use worker_harness.Jobs.Load.{job_load, gpu_load, gpu_load-append, gpu_load-update_le}
use worker_harness.Jobs.Exclusive.{Valid, IsSized}

-- An UPDATE that keeps the key, and gives a row no GPU that it did not hold.
pub record IsHarmless (p : Job → Bool) (f : Job → Job) : Type 0 where
  pub keeps_id : (j : Job) → p j ≡ true → (f j).id ≡ j.id
  pub no_more :
      (w : String) (i : ℕ) (j : Job)
      → p j ≡ true
      → job_load (some w) i (f j) ≤ job_load (some w) i j
  pub keeps_size : (j : Job) → p j ≡ true → IsSized j → IsSized (f j)

pub update_where-Valid :
    (p : Job → Bool) (f : Job → Job) (jobs : Jobs)
    → IsHarmless p f
    → Valid jobs
    → Valid (update_where p f jobs)
update_where-Valid p f jobs h v = record {
  unique = λ x. omega (
    arith,
    v.unique x,
    count_where-update_where (has_id x) p f jobs (λ j e. rw (h.keeps_id j e)),
  );
  exclusive =
      λ w i. omega (arith, v.exclusive w i, gpu_load-update_le (some w) i p f jobs (h.no_more w i));
  sized = All-update_where IsSized p f jobs h.keeps_size v.sized;
}

-- A row that is no active queue job holds no GPU.
idle_load :
    (w : Option String) (i : ℕ) (j : Job)
    → j.queue_managed && is_active j.status ≡ false
    → job_load w i j ≡ 0
unfolding job_load is_active_on
idle_load w i j idle = ground arith

pub append_row-Valid :
    (j : Job) (jobs : Jobs)
    → exists_where (has_id j.id) jobs ≡ false
    → j.queue_managed && is_active j.status ≡ false
    → Valid jobs
    → Valid (jobs ++ j ∷ [])
unfolding gpu_load count_where
append_row-Valid j jobs free idle v = record {
  unique = λ x. ground (
    arith,
    v.unique x,
    count_where-append (has_id x) jobs (j ∷ []),
    count_where-eq-zero (has_id j.id) jobs free,
  );
  exclusive = λ w i. omega (
    arith,
    v.exclusive w i,
    gpu_load-append (some w) i jobs (j ∷ []),
    idle_load (some w) i j idle,
  );
  sized = All-append IsSized jobs (j ∷ []) v.sized (λ managed active. ground arith, tt);
}

-- A row with a new key is found under it.
pub stored :
    (j : Job) (jobs : Jobs)
    → exists_where (has_id j.id) jobs ≡ false
    → find_where (has_id j.id) (jobs ++ j ∷ []) ≡ some j
unfolding find_where exists_where
stored j [] free = ground arith
stored j (r ∷ rs) free = ground (arith, stored j rs)

-- An INSERT of a row that is no active queue job.
pub insert_job-Valid :
    (j : Job) (jobs after : Jobs)
    → insert_job j jobs ≡ some after
    → j.queue_managed && is_active j.status ≡ false
    → Valid jobs
    → Valid after
insert_job-Valid j jobs after e idle v = elim (Bool-cases (exists_where (has_id j.id) jobs)) [
  | inl taken ↦ absurd (unfold insert_job in ground arith)
  | inr free ↦
      let written : jobs ++ j ∷ [] ≡ after = unfold insert_job in ground arith in
      subst Valid written (append_row-Valid j jobs free idle v)
]

pub insert_queued_job-Valid :
    (j job : Job) (jobs after : Jobs)
    → insert_queued_job j jobs ≡ some (job, after)
    → Valid jobs
    → Valid after
unfolding insert_queued_job
insert_queued_job-Valid j job jobs after e v =
    elim (Option-cases (insert_job (queue_job j jobs) jobs)) [
      | inl refused ↦ absurd (ground arith)
      | inr (rows, done) ↦
          let written : rows ≡ after = ground arith in
          subst Valid written
            (insert_job-Valid (queue_job j jobs) jobs rows done (unfold queue_job in refl) v)
    ]

gpu_load-replace :
    (w : Option String) (i : ℕ) (p : Job → Bool) (new row : Job) (jobs : Jobs)
    → count_where p jobs ≤ 1
    → find_where p jobs ≡ some row
    → job_load w i new ≤ job_load w i row
    → gpu_load w i (update_where p (λ _. new) jobs) ≤ gpu_load w i jobs
unfolding gpu_load update_where count_where find_where
gpu_load-replace w i p new row [] one found less = omega arith
gpu_load-replace w i p new row (j ∷ js) one found less =
    ground (arith, gpu_load-replace w i p new row js, update_where_none p (λ _. new) js)

-- `update_job` with a copy of the row that holds no GPU that the row does not.
pub update_job-Valid :
    (new row : Job) (jobs : Jobs)
    → find_where (has_id new.id) jobs ≡ some row
    → ((w : String) (i : ℕ) → job_load (some w) i new ≤ job_load (some w) i row)
    → (IsSized row → IsSized new)
    → Valid jobs
    → Valid (update_job new jobs)
unfolding update_job
update_job-Valid new row jobs found less size v = record {
  unique = λ x. omega (
    arith,
    v.unique x,
    count_where-update_where (has_id x) (has_id new.id) (λ _. new) jobs (λ j h. ground arith),
  );
  exclusive = λ w i. omega (
    arith,
    v.exclusive w i,
    gpu_load-replace (some w) i (has_id new.id) new row jobs (v.unique new.id) found (less w i),
  );
  sized =
      All-update_where IsSized (has_id new.id) (λ _. new) jobs
        (λ j h old. size (All-find_where IsSized (has_id new.id) jobs row v.sized found)) v.sized;
}
