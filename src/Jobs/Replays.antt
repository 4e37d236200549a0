-- ===== src/Jobs/Replays.antt =====
-- `upsert_reported_worker_job` in db.py: exactly once per revision.
use worker_harness.Base.{
  ◌≤◌, ◌≡◌, refl, subst, inl, inr, String, Bool, true, false, some, [], ◌∷◌, ◌++◌, arith, ◌==◌,
  nat_eq, string_eq, Bool-cases,
}
use worker_harness.Models.{Job, WorkerJobReport}
use worker_harness.Table.{update_where, count_where, find_where, exists_where}
use worker_harness.Table.Removal.{count_where-found, find_where-append}
use worker_harness.Table.Laws.{
  find_where-counted, find_where-narrow, find_where-update_where, find_where_sound,
  update_where_none,
}
use worker_harness.Jobs.{Jobs, has_id, is_active_on, get_job}
use worker_harness.Jobs.Load.{job_load}
use worker_harness.Jobs.Pending.{ok}
use worker_harness.Jobs.Exclusive.{Valid}
use worker_harness.Jobs.Keeps.{stored, update_where-Valid, append_row-Valid}
use worker_harness.Jobs.Reports.{
  report_row, reported, is_origin, is_outdated, upsert_report, apply_report,
}

exists_found :
    (p : Job → Bool) (jobs : Jobs)
    → exists_where p jobs ≡ true
    → (row : Job) × (find_where p jobs ≡ some row)
unfolding exists_where find_where
exists_found p [] h = absurd (cc)
exists_found p (j ∷ js) h = elim (Bool-cases (p j)) [
  | inl hit ↦ (j, ground (arith, hit))
  | inr miss ↦
      let (row, found) = exists_found p js (ground (arith, h, miss)) in
      (row, ground (arith, miss, found))
]

found_exists :
    (p : Job → Bool) (jobs : Jobs) (row : Job)
    → find_where p jobs ≡ some row
    → exists_where p jobs ≡ true
unfolding exists_where find_where
found_exists p [] row h = absurd (cc)
found_exists p (j ∷ js) row h = ground (arith, found_exists p js row)

-- Where the row that a key finds does not match a narrower clause, no row does.
no_match :
    (p q : Job → Bool) (jobs : Jobs) (row : Job)
    → ((j : Job) → p j ≡ true → q j ≡ true)
    → count_where q jobs ≤ 1
    → find_where q jobs ≡ some row
    → p row ≡ false
    → count_where p jobs ≡ 0
no_match p q jobs row imp one found miss = elim (Bool-cases (count_where p jobs == 0)) [
  | inl zero_left ↦ ground (arith, zero_left)
  | inr some_left ↦
      let (other, hit) = find_where-counted p jobs (ground (arith, some_left)) in
      let same : other ≡ row =
        ground (arith, find_where-narrow p q jobs other imp one hit, found) in
      absurd (cc (find_where_sound p jobs other hit, miss, same))
]

module _ (worker_id : String) (r : WorkerJobReport) where
  -- What the UPSERT has written.
  pub data Written (jobs : Jobs) : Bool → Jobs → Type 0 where
    inserted :
        exists_where (has_id r.id) jobs ≡ false
        → Written jobs true (jobs ++ report_row worker_id r ∷ [])
    updated :
        (j : Job)
        → find_where (has_id r.id) jobs ≡ some j
        → is_outdated worker_id r j ≡ true
        → Written jobs true (update_where (is_outdated worker_id r) (reported r) jobs)
    kept :
        (j : Job)
        → find_where (has_id r.id) jobs ≡ some j
        → is_outdated worker_id r j ≡ false
        → Written jobs false jobs

  outdated_id : (j : Job) → is_outdated worker_id r j ≡ true → has_id r.id j ≡ true
  unfolding is_outdated
  outdated_id j h = ground arith

  pub kept_table :
      (jobs : Jobs) (j : Job)
      → count_where (has_id r.id) jobs ≤ 1
      → find_where (has_id r.id) jobs ≡ some j
      → is_outdated worker_id r j ≡ false
      → upsert_report worker_id r jobs ≡ (false, jobs)
  unfolding upsert_report
  kept_table jobs j one found miss =
      let zero_rows =
        no_match (is_outdated worker_id r) (has_id r.id) jobs j outdated_id one found miss in
      ground (
        arith,
        zero_rows,
        found_exists (has_id r.id) jobs j found,
        update_where_none (is_outdated worker_id r) (reported r) jobs zero_rows,
      )

  pub upsert_report-Written :
      (jobs : Jobs)
      → count_where (has_id r.id) jobs ≤ 1
      → Written jobs (upsert_report worker_id r jobs).0 (upsert_report worker_id r jobs).1
  upsert_report-Written jobs one = elim (Bool-cases (exists_where (has_id r.id) jobs)) [
    | inr free ↦
        let e : upsert_report worker_id r jobs ≡ (true, jobs ++ report_row worker_id r ∷ []) =
          unfold upsert_report in ground (arith, free) in
        rw e (inserted free)
    | inl there ↦
        let (j, found) = exists_found (has_id r.id) jobs there in
        elim (Bool-cases (is_outdated worker_id r j)) [
          | inr miss ↦ rw (kept_table jobs j one found miss) (kept j found miss)
          | inl hit ↦
              let counted =
                count_where-found (is_outdated worker_id r) (has_id r.id) jobs j found hit in
              let e : upsert_report worker_id r jobs
                  ≡ (true, update_where (is_outdated worker_id r) (reported r) jobs) =
                unfold upsert_report in ground (arith, there, counted) in
              rw e (updated j found hit)
        ]
  ]

  -- A report whose row is there at its revision or a later one changes nothing.
  pub settled :
      (jobs : Jobs) (j : Job)
      → count_where (has_id r.id) jobs ≤ 1
      → find_where (has_id r.id) jobs ≡ some j
      → is_outdated worker_id r j ≡ false
      → is_origin worker_id r j ≡ true
      → apply_report worker_id r jobs ≡ (ok (j, false), jobs)
  unfolding apply_report get_job
  settled jobs j one found miss own = ground (arith, kept_table jobs j one found miss, found, own)

  reported-Valid :
      (jobs : Jobs) → Valid jobs → Valid (update_where (is_outdated worker_id r) (reported r) jobs)
  reported-Valid jobs v =
      update_where-Valid (is_outdated worker_id r) (reported r) jobs
        (record {
          keeps_id = λ j h. refl;
          no_more = λ w i j h. unfold job_load is_active_on in ground arith;
          keeps_size = λ j h old managed active. absurd (cc);
        })
        v

  pub Written-Valid :
      {jobs after : Jobs} {changed : Bool} → Written jobs changed after → Valid jobs → Valid after
  Written-Valid {jobs} (inserted free) v =
      append_row-Valid (report_row worker_id r) jobs free refl v
  Written-Valid {jobs} (updated j found hit) v = reported-Valid jobs v
  Written-Valid (kept j found miss) v = v

  -- The row of the report is no longer outdated by it.
  pub Written-settled :
      {jobs after : Jobs} {changed : Bool} (job : Job)
      → Written jobs changed after
      → find_where (has_id r.id) after ≡ some job
      → is_outdated worker_id r job ≡ false
  unfolding is_outdated
  Written-settled {jobs} job (inserted free) there =
      let row : report_row worker_id r ≡ job =
        ground (arith, stored (report_row worker_id r) jobs free, there) in
      ground (arith, row)
  Written-settled {jobs} job (updated j found hit) there =
      let same =
        find_where-update_where (is_outdated worker_id r) (has_id r.id) (reported r) jobs
          (λ x h. refl) in
      let row : reported r j ≡ job = ground (arith, same, found, hit, there) in ground (arith, row)
  Written-settled job (kept j found miss) there =
      let row : j ≡ job = ground (arith, found, there) in
      subst (λ k. is_outdated worker_id r k ≡ false) row miss

  pub Written-monotone :
      {jobs after : Jobs} {changed : Bool}
      → Written jobs changed after
      → (x : String) (row : Job) → find_where (has_id x) jobs ≡ some row
      → (later : Job) × (find_where (has_id x) after ≡ some later)
        × (row.report_revision ≤ later.report_revision)
  Written-monotone {jobs} (inserted free) x row found =
      (row, find_where-append (has_id x) jobs (report_row worker_id r) row found, omega arith)
  Written-monotone {jobs} (updated j hit_found hit) x row found =
      let same =
        find_where-update_where (is_outdated worker_id r) (has_id x) (reported r) jobs
          (λ k h. refl) in
      elim (Bool-cases (is_outdated worker_id r row)) [
        | inl old ↦ (
          reported r row,
          ground (arith, same, found, old),
          unfold is_outdated in ground (arith, old),
        )
        | inr new ↦ (row, ground (arith, same, found, new), omega arith)
      ]
  Written-monotone (kept j there miss) x row found = (row, found, omega arith)
