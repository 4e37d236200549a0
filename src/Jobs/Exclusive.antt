-- ===== src/Jobs/Exclusive.antt =====
-- No GPU is assigned twice: what every write to the `jobs` table keeps.
use worker_harness.Base.{
  ℕ, ◌+◌, ◌≤◌, ◌≡◌, refl, inl, inr, String, Bool, true, false, some, List, length, arith, ◌==◌,
  nat_eq, string_eq, if◌then◌else◌, Bool-cases,
}
use worker_harness.Models.{Job, is_active}
use worker_harness.Table.{update_where, count_where, exists_where, All}
use worker_harness.Table.Laws.{All-update_where, count_where-update_where, count_where_mono}
use worker_harness.Jobs.{
  Jobs, has_id, is_queued_on, is_active_on, mem_index, start_claim, can_claim, claim_queued_job,
}
use worker_harness.Jobs.Load.{
  count_index, job_load, gpu_load, mem_index-count, in_the_way, free_of_overlap, gpu_load-update_le,
  gpu_load-update_add,
}

-- An active queue job holds as many GPUs as it asked for.
abbrev pub IsSized : Job → Type 0
IsSized j = j.queue_managed ≡ true → is_active j.status ≡ true → length j.gpu_indices ≡ j.gpu_count

pub record Valid (jobs : Jobs) : Type 0 where
  -- `id TEXT PRIMARY KEY`
  pub unique : (x : String) → count_where (has_id x) jobs ≤ 1
  -- No GPU of any worker is assigned to two active jobs, or twice to one.
  pub exclusive : (w : String) (i : ℕ) → gpu_load (some w) i jobs ≤ 1
  pub sized : All IsSized jobs

module _ (job_id : String) (gpus : List ℕ) (started_at : ℕ) (w : String) (jobs : Jobs) where
  claimable : Job → Bool
  claimable = can_claim job_id gpus w jobs

  claimed : Jobs
  unfolding claimable
  claimed = update_where claimable (start_claim gpus started_at) jobs

  claim_one : Valid jobs → count_where claimable jobs ≤ 1
  unfolding claimable can_claim
  claim_one v = omega (
    arith,
    v.unique job_id,
    count_where_mono claimable (has_id job_id) jobs (λ j h. ground arith),
  )

  -- A claimed row was pending, so it held nothing before.
  claim_more :
      (w' : String) (i : ℕ) (j : Job)
      → claimable j ≡ true
      → job_load (some w') i (start_claim gpus started_at j)
        ≤ job_load (some w') i j + (if w' == w then count_index i gpus else 0)
  unfolding claimable can_claim job_load is_active_on is_queued_on
  claim_more w' i j h = ground arith

  never_in_the_way :
      (j : Job) → claimable j ≡ true → exists_where (in_the_way (some w) gpus) jobs ≡ false
  unfolding claimable can_claim
  never_in_the_way j h = ground arith

  claim_free :
      (w' : String) (i : ℕ)
      → Valid jobs
      → count_index i gpus ≤ 1
      → exists_where (in_the_way (some w) gpus) jobs ≡ false
      → gpu_load (some w') i jobs + (if w' == w then count_index i gpus else 0) ≤ 1
  claim_free w' i v distinct free = elim (Bool-cases (mem_index i gpus)) [
    | inl wanted ↦
        ground (arith, free_of_overlap (some w) i gpus jobs free wanted, v.exclusive w' i)
    | inr other ↦ ground (arith, mem_index-count i gpus other, v.exclusive w' i)
  ]

  claim_exclusive :
      Valid jobs
      → ((i : ℕ) → count_index i gpus ≤ 1)
      → (w' : String) (i : ℕ) → gpu_load (some w') i claimed ≤ 1
  unfolding claimed
  claim_exclusive v distinct w' i =
      let more = if w' == w then count_index i gpus else 0 in
      elim (Bool-cases (exists_where (in_the_way (some w) gpus) jobs)) [
        | inl taken ↦ omega (
          arith,
          v.exclusive w' i,
          gpu_load-update_le (some w') i claimable (start_claim gpus started_at) jobs
              (λ j h. absurd (cc (never_in_the_way j h))),
        )
        | inr free ↦ grind (
          arith,
          claim_one v,
          claim_free w' i v (distinct i) free,
          gpu_load-update_add (some w') i more claimable (start_claim gpus started_at) jobs
              (claim_more w' i),
        )
      ]

  pub claim_queued_job-Valid :
      Valid jobs
      → ((i : ℕ) → count_index i gpus ≤ 1)
      → Valid (claim_queued_job job_id gpus started_at w jobs).1
  unfolding claim_queued_job claimed claimable
  claim_queued_job-Valid v distinct = elim (Bool-cases (count_where claimable jobs == 0)) [
    | inl none_left ↦ rw (none_left, claim_queued_job) v
    | inr some_left ↦
        rw (some_left, claim_queued_job)
          (record {
            unique = λ x. omega (
              arith,
              v.unique x,
              count_where-update_where (has_id x) claimable (start_claim gpus started_at) jobs
                  (λ j h. refl),
            );
            exclusive = claim_exclusive v distinct;
            sized =
                All-update_where IsSized claimable (start_claim gpus started_at) jobs
                  (λ j h old managed active. unfold can_claim in ground arith) v.sized;
          })
  ]
