-- ===== src/Jobs/Pending.antt =====
-- src/worker_harness/db.py: the operations that change pending queue jobs and recover claimed ones.
use worker_harness.Base.{
  ℕ, zero, suc, ◌+◌, ◌-◌, String, Bool, ◌&&◌, not, Option, none, some, List, [], ◌∷◌, length, min,
  ltb, ◌==◌, nat_eq, string_eq, if◌then◌else◌,
}
use worker_harness.Models.{Job, Worker, negsuc, pending, running, failed, is_pending, is_starting}
use worker_harness.Table.{select, update_where, count_where, find_where}
use worker_harness.Jobs.{Jobs, equals_sql, has_id, is_queued_on, get_job, pending_rows, ids}

-- The exceptions that the methods raise.
pub data Error : Type 0 where
  key_error value_error runtime_error integrity_error : Error

pub data Result {ℓ} (A : Type ℓ) : Type ℓ where
  ok : A → Result A
  raise : Error → Result A

unfoldable pub get_worker : Option String → List Worker → Option Worker
get_worker w = find_where (λ r. equals_sql (some r.id) w)

-- `list.insert(index, x)` for an index that is not negative.
unfoldable pub insert_at : ℕ → String → List String → List String
insert_at n x [] = x ∷ []
insert_at zero x (y ∷ ys) = x ∷ y ∷ ys
insert_at (suc n) x (y ∷ ys) = y ∷ insert_at n x ys

unfoldable pub index_of : String → List String → Option ℕ
index_of x [] = none
index_of x (y ∷ ys) =
    if y == x then some 0 else elim (index_of x ys) [ none ↦ none | some n ↦ some (suc n) ]

-- `min(position - 1, len(ids))` as an index of `list.insert`: position 0 gives -1, which is the
-- place before the last.
unfoldable pub insertion_index : ℕ → List String → ℕ
insertion_index zero xs = length xs - 1
insertion_index (suc n) xs = min n (length xs)

-- `executemany("UPDATE jobs SET queue_order = ? WHERE id = ?", enumerate(ids, n))`
unfoldable pub renumber : ℕ → List String → Jobs → Jobs
renumber n [] jobs = jobs
renumber n (x ∷ xs) jobs =
    renumber (n + 1) xs (update_where (has_id x) (λ j. record j { queue_order = n }) jobs)

pub record PendingUpdate : Type 0 where
  pub worker_id : Option String
  pub position : Option ℕ
  pub name : Option String
  pub expected_seconds : Option ℕ
  pub gpu_count : Option ℕ

abbrev pub or_else {ℓ} : {A : Type ℓ} → Option A → A → A
or_else none a = a
or_else (some b) a = b

-- `source_ids`: the other pending jobs of the job's worker.
unfoldable pub source_ids : Job → Jobs → List String
source_ids row jobs = ids (select (λ j. not (has_id row.id j)) (pending_rows row.worker_id jobs))

-- `destination_ids`, with the job in its new place.
unfoldable pub destination_ids : Job → Option String → Option ℕ → Jobs → Option (List String)
destination_ids row destination position jobs =
    let same = equals_sql row.worker_id destination in
    let source = source_ids row jobs in
    let target = ids (pending_rows destination jobs) in
    let others = if same then source else target in
    elim position [
      | some p ↦ some (insert_at (insertion_index p others) row.id others)
      | none ↦
          if same
          then elim (index_of row.id target) [
            | none ↦ none
            | some n ↦ some (insert_at n row.id others)
          ]
          else some (insert_at (length others) row.id others)
    ]

abbrev pub changed : PendingUpdate → Option String → Job → Job
changed u destination row = record row {
  worker_id = destination;
  name = or_else u.name row.name;
  expected_seconds = or_else u.expected_seconds row.expected_seconds;
  gpu_count = or_else u.gpu_count row.gpu_count;
}

-- `id = ? AND queue_managed = 1 AND status = 'pending'`
abbrev pub is_pending_job : String → Job → Bool
is_pending_job job_id j = has_id job_id j && j.queue_managed && is_pending j.status

-- The UPDATE of the row and the renumbering, with the new order of the destination at hand.
unfoldable pub move_job : Job → PendingUpdate → Option String → List String → Jobs → Jobs
move_job row u destination order jobs =
    let moved = update_where (is_pending_job row.id) (changed u destination) jobs in
    let left =
      if equals_sql row.worker_id destination
      then moved
      else renumber 1 (source_ids row jobs) moved in
    renumber 1 order left

abbrev pub destination_of : Job → PendingUpdate → Option String
destination_of row u = elim u.worker_id [ none ↦ row.worker_id | some w ↦ some w ]

unfoldable pub update_row : Job → PendingUpdate → List Worker → Jobs → Result Job × Jobs
update_row row u workers jobs =
    let destination = destination_of row u in
    if not (is_pending row.status)
    then (raise value_error, jobs)
    else elim (get_worker destination workers) [
      | none ↦ (raise value_error, jobs)
      | some worker ↦
          if ltb worker.gpu_count (or_else u.gpu_count row.gpu_count)
          then (raise value_error, jobs)
          else elim (destination_ids row destination u.position jobs) [
            | none ↦ (raise runtime_error, jobs)
            | some order ↦
                let after = move_job row u destination order jobs in
                if count_where (is_pending_job row.id) jobs == 0
                then (raise value_error, jobs)
                else elim (get_job row.id after) [
                  | none ↦ (raise runtime_error, after)
                  | some updated ↦ (ok updated, after)
                ]
          ]
    ]

unfoldable pub update_pending_job : String → PendingUpdate → List Worker → Jobs → Result Job × Jobs
update_pending_job job_id u workers jobs =
    elim (find_where (λ j. has_id job_id j && j.queue_managed) jobs) [
      | none ↦ (raise key_error, jobs)
      | some row ↦ update_row row u workers jobs
    ]

unfoldable pub fail_pending_job : String → ℕ → Jobs → Option Job × Jobs
fail_pending_job job_id finished_at jobs = elim (find_where (is_pending_job job_id) jobs) [
  | none ↦ (none, jobs)
  | some row ↦
      let stopped =
        update_where (is_pending_job job_id)
          (λ j. record j {
            status = failed;
            exit_code = some (negsuc 0);
            finished_at = finished_at;
            queue_order = 0;
          })
          jobs in
      let after = renumber 1 (ids (pending_rows row.worker_id stopped)) stopped in
      if count_where (is_pending_job job_id) jobs == 0
      then (none, jobs)
      else (get_job job_id after, after)
]

-- `id = ? AND status = 'starting'`
abbrev pub is_starting_job : String → Job → Bool
is_starting_job job_id j = has_id job_id j && is_starting j.status

abbrev pub is_claimed_job : String → Job → Bool
is_claimed_job job_id j = is_starting_job job_id j && j.queue_managed

unfoldable pub put_back : String → Option String → Jobs → Jobs
put_back job_id w jobs =
    update_where (is_claimed_job job_id)
      (λ j. record j { status = pending; gpu_indices = []; started_at = 0; queue_order = 1 })
      (update_where (is_queued_on w) (λ j. record j { queue_order = j.queue_order + 1 }) jobs)

-- What the last UPDATE of `reconcile_starting_job` matches, for `cursor.rowcount`.
abbrev pub reconciled_rows : String → Bool → Job → Job → Bool
reconciled_rows job_id launch_observed row =
    if launch_observed
    then is_starting_job job_id
    else if row.queue_managed
    then is_claimed_job job_id
    else is_starting_job job_id

unfoldable pub reconciled : String → Bool → ℕ → Job → Jobs → Jobs
unfolding put_back
reconciled job_id launch_observed now row jobs =
    if launch_observed
    then update_where (is_starting_job job_id) (λ j. record j { status = running }) jobs
    else if row.queue_managed
    then put_back job_id row.worker_id jobs
    else update_where (is_starting_job job_id)
        (λ j. record j { status = failed; exit_code = some (negsuc 0); finished_at = now }) jobs

-- `now` is `unixepoch()`.
unfoldable pub reconcile_starting_job : String → Bool → ℕ → Jobs → Option Job × Jobs
reconcile_starting_job job_id launch_observed now jobs =
    elim (find_where (is_starting_job job_id) jobs) [
      | none ↦ (none, jobs)
      | some row ↦
          let after = reconciled job_id launch_observed now row jobs in
          if count_where (reconciled_rows job_id launch_observed row) jobs == 0
          then (none, jobs)
          else (get_job job_id after, after)
    ]
