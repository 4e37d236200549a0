-- ===== src/Workers/Heartbeats.antt =====
-- What a heartbeat and the offline marking do to the registry.
use worker_harness.Base.{
  ℕ, ◌+◌, ◌≤◌, ◌≡◌, ◌≢◌, refl, inl, inr, String, false, none, some, [], ◌∷◌, ◌++◌, map, arith, ◌==◌,
  nat_eq, string_eq, if◌then◌else◌, Option-cases, Bool-cases,
}
use worker_harness.Models.{Worker, WorkerStatus, WorkerRegistration, online, offline, is_offline}
use worker_harness.Table.{update_where, count_where, find_where, All}
use worker_harness.Table.Laws.{find_where-update_where, find_where_sound}
use worker_harness.Workers.{
  update_worker, Workers, has_worker_id, is_overdue, from_registration, update_from_registration,
  get_worker, upsert_worker, mark_workers_offline,
}

abbrev pub IsRegistry : Workers → Type 0
IsRegistry ws = (x : String) → count_where (has_worker_id x) ws ≤ 1

-- What a heartbeat has done.
pub record IsHeartbeat (r : WorkerRegistration) (now : ℕ) (before : Workers) (w : Worker)
    (after : Workers) : Type 0 where
  -- The worker that is returned is the one in the registry,
  pub found : find_where (has_worker_id r.worker_id) after ≡ some w
  -- online and seen now, with the GPUs that were reported,
  pub seen : (w.status ≡ online) × (w.last_heartbeat_ts ≡ now)
  pub telemetry : (w.gpu_count ≡ r.gpu_count) × (w.gpu_busy ≡ map (λ g. g.busy) r.gpus)
  -- and created when it was first seen.
  pub created :
      (old : Worker)
      → find_where (has_worker_id r.worker_id) before ≡ some old
      → w.created_at ≡ old.created_at
  -- The other workers are as they were.
  pub others :
      (x : String)
      → r.worker_id ≢ x
      → find_where (has_worker_id x) after ≡ find_where (has_worker_id x) before

missing_append :
    (x : String) (ws : Workers) (w : Worker)
    → find_where (has_worker_id x) (ws ++ w ∷ []) ≡ elim (find_where (has_worker_id x) ws) [
      | none ↦ if w.id == x then some w else none
      | some old ↦ some old
    ]
unfolding find_where
missing_append x [] w = ground arith
missing_append x (v ∷ vs) w = ground (arith, missing_append x vs w)

refreshed_row :
    (r : WorkerRegistration) (now : ℕ) (ws : Workers) (old : Worker) (x : String)
    → find_where (has_worker_id x) ws ≡ some old
    → find_where (has_worker_id x) (update_worker (update_from_registration r now old) ws)
      ≡ some (update_from_registration r now old)
unfolding update_from_registration
refreshed_row r now ws old x there =
    let new = update_from_registration r now old in
    let same =
      find_where-update_where (has_worker_id old.id) (has_worker_id x)
        (λ row. record new { created_at = row.created_at }) ws (λ w h. ground arith) in
    ground (arith, same, there)

refreshed_other :
    (r : WorkerRegistration) (now : ℕ) (ws : Workers) (old : Worker) (x : String)
    → old.id ≢ x
    → find_where (has_worker_id x) (update_worker (update_from_registration r now old) ws)
      ≡ find_where (has_worker_id x) ws
unfolding update_from_registration
refreshed_other r now ws old x ne =
    let new = update_from_registration r now old in
    let same =
      find_where-update_where (has_worker_id old.id) (has_worker_id x)
        (λ row. record new { created_at = row.created_at }) ws (λ w h. ground arith) in
    elim (Option-cases (find_where (has_worker_id x) ws)) [
      | inl absent ↦ ground (arith, same, absent)
      | inr (w, found) ↦
          ground (arith, same, found, ne, find_where_sound (has_worker_id x) ws w found)
    ]

-- A heartbeat registers the worker or refreshes it, and touches no other.
pub upsert_worker-IsHeartbeat :
    (r : WorkerRegistration) (now : ℕ) (ws : Workers)
    → IsHeartbeat r now ws (upsert_worker r now ws).0 (upsert_worker r now ws).1
unfolding upsert_worker get_worker
upsert_worker-IsHeartbeat r now ws =
    elim (Option-cases (find_where (has_worker_id r.worker_id) ws)) [
      | inl absent ↦
          rw (absent, upsert_worker)
            (record {
              found =
                  unfold from_registration in
                  ground (arith, absent, missing_append r.worker_id ws (from_registration r now));
              seen = unfold from_registration in (refl, refl);
              telemetry = unfold from_registration in (refl, refl);
              created = λ old there. absurd (cc (absent, there));
              others = λ x ne.
                  unfold from_registration in
                  ground (arith, ne, missing_append x ws (from_registration r now));
            })
      | inr (old, there) ↦
          rw (there, upsert_worker)
            (record {
              found = refreshed_row r now ws old r.worker_id there;
              seen = unfold update_from_registration in (refl, refl);
              telemetry = unfold update_from_registration in (refl, refl);
              created =
                  λ first again. unfold update_from_registration in ground (arith, there, again);
              others = λ x ne. refreshed_other r now ws old x (λ same. ne (
                  ground (arith, same, find_where_sound (has_worker_id r.worker_id) ws old there)));
            })
    ]

offline_marking :
    (cutoff_ts : ℕ) (ws : Workers)
    → All
        (λ w. is_offline w.status ≡ false → cutoff_ts ≤ w.last_heartbeat_ts)
        (mark_workers_offline cutoff_ts ws).1
      × (count_where (λ w. is_offline w.status) (mark_workers_offline cutoff_ts ws).1
          ≡ count_where (λ w. is_offline w.status) ws + (mark_workers_offline cutoff_ts ws).0)
      × (mark_workers_offline cutoff_ts (mark_workers_offline cutoff_ts ws).1
          ≡ (0, (mark_workers_offline cutoff_ts ws).1))
unfolding mark_workers_offline count_where update_where
offline_marking cutoff_ts [] = (tt, refl, refl)
offline_marking cutoff_ts (w ∷ ws) =
    let (rest, count, again) = offline_marking cutoff_ts ws in
    ((ground arith, rest), ground (arith, count), ground (arith, again))

module _ (cutoff_ts : ℕ) (ws : Workers) (x : String) (w : Worker)
    (found : find_where (has_worker_id x) ws ≡ some w) where
  marked_row :
      find_where (has_worker_id x) (mark_workers_offline cutoff_ts ws).1
      ≡ some (if is_overdue cutoff_ts w then record w { status = offline } else w)
  unfolding mark_workers_offline
  marked_row =
      let same =
        find_where-update_where (is_overdue cutoff_ts) (has_worker_id x)
          (λ w. record w { status = offline }) ws (λ w h. refl) in
      ground (arith, same, found)

  seen_kept :
      cutoff_ts ≤ w.last_heartbeat_ts
      → find_where (has_worker_id x) (mark_workers_offline cutoff_ts ws).1 ≡ some w
  seen_kept late = let row = marked_row in ground (arith, row)

  status_only :
      (status : WorkerStatus) × (find_where (has_worker_id x) (mark_workers_offline cutoff_ts ws).1
        ≡ some (record w { status = status }))
  status_only =
      let row = marked_row in
      elim (Bool-cases (is_overdue cutoff_ts w)) [
        | inl overdue ↦ (offline, ground (arith, row, overdue))
        | inr seen ↦ (w.status, ground (arith, row, seen))
      ]

-- After the offline marking every worker that is not offline was seen at the cutoff or later, and
-- every worker that was seen at the cutoff or later is as it was; of the others only the status is
-- changed. The number that is returned is that of the workers that were marked, and marking again
-- marks none.
pub mark_workers_offline_overdue :
    (cutoff_ts : ℕ) (ws : Workers)
    → All
        (λ w. is_offline w.status ≡ false → cutoff_ts ≤ w.last_heartbeat_ts)
        (mark_workers_offline cutoff_ts ws).1
      × (count_where (λ w. is_offline w.status) (mark_workers_offline cutoff_ts ws).1
          ≡ count_where (λ w. is_offline w.status) ws + (mark_workers_offline cutoff_ts ws).0)
      × (mark_workers_offline cutoff_ts (mark_workers_offline cutoff_ts ws).1
          ≡ (0, (mark_workers_offline cutoff_ts ws).1))
      × ((x : String) (w : Worker)
          → find_where (has_worker_id x) ws ≡ some w
          → cutoff_ts ≤ w.last_heartbeat_ts
          → find_where (has_worker_id x) (mark_workers_offline cutoff_ts ws).1 ≡ some w)
      × ((x : String) (w : Worker)
          → find_where (has_worker_id x) ws ≡ some w
          → (status : WorkerStatus) × (find_where
                (has_worker_id x)
                (mark_workers_offline cutoff_ts ws).1
              ≡ some (record w { status = status })))
mark_workers_offline_overdue cutoff_ts ws =
    let (seen, count, again) = offline_marking cutoff_ts ws in
    (seen, count, again, seen_kept cutoff_ts ws, status_only cutoff_ts ws)
