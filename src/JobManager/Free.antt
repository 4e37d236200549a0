-- ===== src/JobManager/Free.antt =====
-- `free_gpu_indices` in job.py, and which of them a dispatch hands out.
use worker_harness.Base.{
  ℕ, zero, suc, ◌+◌, ◌*◌, ◌≤◌, ◌<◌, ◌≡◌, ◌↔◌, refl, String, Bool, true, false, ◌&&◌, not, none,
  some, List, [], ◌∷◌, ◌++◌, take, get_elem?, max, arith, nat_eq, Bool-cases, Option-cases, inl,
  inr,
}
use worker_harness.Models.{Worker, is_online}
use worker_harness.Table.{select, exists_where}
use worker_harness.Jobs.{Jobs, is_active_on, mem_index, overlaps, running_queue_gpu_indices}
use worker_harness.Jobs.Load.{count_index, in_the_way}
use worker_harness.JobManager.{
  range, is_idle_by_vram, explicit_busy, is_free_gpu, free_gpu_indices, without, unclaimed,
}

count_index-range-below : (i start n : ℕ) → i < start → count_index i (range start n) ≡ 0
unfolding count_index range
count_index-range-below i start zero h = refl
count_index-range-below i start (suc n) h = ground (arith, count_index-range-below i (start + 1) n)

count_index-range : (i start n : ℕ) → count_index i (range start n) ≤ 1
unfolding count_index range
count_index-range i start zero = omega arith
count_index-range i start (suc n) =
    ground (arith, count_index-range i (start + 1) n, count_index-range-below i (start + 1) n)

count_index-select :
    (p : ℕ → Bool) (i : ℕ) (xs : List ℕ) → count_index i (select p xs) ≤ count_index i xs
unfolding count_index select
count_index-select p i [] = omega arith
count_index-select p i (x ∷ xs) = ground (arith, count_index-select p i xs)

pub count_index-take : (n i : ℕ) (xs : List ℕ) → count_index i (take n xs) ≤ count_index i xs
unfolding count_index take
count_index-take zero i xs = omega arith
count_index-take (suc n) i [] = omega arith
count_index-take (suc n) i (x ∷ xs) = omega (arith, count_index-take n i xs)

pub mem_index-select :
    (p : ℕ → Bool) (i : ℕ) (xs : List ℕ) → mem_index i (select p xs) ≡ mem_index i xs && p i
unfolding mem_index select
mem_index-select p i [] = refl
mem_index-select p i (x ∷ xs) = ground (arith, mem_index-select p i xs)

pub mem_index-take :
    (n i : ℕ) (xs : List ℕ) → mem_index i (take n xs) ≡ true → mem_index i xs ≡ true
unfolding mem_index take
mem_index-take zero i xs h = absurd (cc)
mem_index-take (suc n) i [] h = absurd (cc)
mem_index-take (suc n) i (x ∷ xs) h = ground (arith, mem_index-take n i xs)

mem_index-range :
    (i start n : ℕ) → (mem_index i (range start n) ≡ true) ↔ ((start ≤ i) × (i < start + n))
unfolding mem_index range
mem_index-range i start zero = ((λ h. absurd (cc)), λ h. absurd (omega (arith, h.0, h.1)))
mem_index-range i start (suc n) = ground (arith, mem_index-range i (start + 1) n)

pub free_distinct : (w : Worker) (i : ℕ) → count_index i (free_gpu_indices w) ≤ 1
unfolding free_gpu_indices count_index
free_distinct w i = ground (
  arith,
  count_index-select (is_free_gpu w) i (range 0 w.gpu_count),
  count_index-range i 0 w.gpu_count,
)

-- No index that `unclaimed` leaves is assigned to an active job of the worker.
overlaps-none :
    (xs ys : List ℕ)
    → ((i : ℕ) → mem_index i ys ≡ true → mem_index i xs ≡ false)
    → overlaps xs ys ≡ false
unfolding overlaps mem_index
overlaps-none [] ys apart = refl
overlaps-none (x ∷ xs) ys apart =
    ground (arith, apart x, overlaps-none xs ys (λ i m. ground (arith, apart i m)))

mem_index-append :
    (i : ℕ) (xs ys : List ℕ)
    → mem_index i (xs ++ ys) ≡ false
    → (mem_index i xs ≡ false) × (mem_index i ys ≡ false)
unfolding mem_index
mem_index-append i [] ys h = (refl, h)
mem_index-append i (x ∷ xs) ys h = ground (arith, mem_index-append i xs ys)

not_in_the_way :
    (w : String) (gpus : List ℕ) (jobs : Jobs)
    → ((i : ℕ) → mem_index i gpus ≡ true → mem_index i (running_queue_gpu_indices w jobs) ≡ false)
    → exists_where (in_the_way (some w) gpus) jobs ≡ false
unfolding running_queue_gpu_indices exists_where
not_in_the_way w gpus [] apart = refl
not_in_the_way w gpus (j ∷ js) apart = elim (Bool-cases (is_active_on (some w) j)) [
  | inl active ↦
      let split : (i : ℕ)
          → mem_index i gpus ≡ true
          → mem_index i (j.gpu_indices ++ running_queue_gpu_indices w js) ≡ false =
        λ i m. rw active at (apart i m) in
      let mine = overlaps-none j.gpu_indices gpus (λ i m.
        (mem_index-append i j.gpu_indices (running_queue_gpu_indices w js) (split i m)).0) in
      let others = not_in_the_way w gpus js (λ i m.
        (mem_index-append i j.gpu_indices (running_queue_gpu_indices w js) (split i m)).1) in
      ground (arith, active, mine, others)
  | inr idle ↦
      let others = not_in_the_way w gpus js (λ i m. rw idle at (apart i m)) in
      ground (arith, idle, others)
]

unclaimed_apart :
    (w : Worker) (available : List ℕ) (jobs : Jobs) (i : ℕ)
    → mem_index i (unclaimed w available jobs) ≡ true
    → mem_index i (running_queue_gpu_indices w.id jobs) ≡ false
unfolding unclaimed without
unclaimed_apart w available jobs i m =
    let claimed = running_queue_gpu_indices w.id jobs in
    ground (arith, mem_index-select (λ k. not (mem_index k claimed)) i available)

module _ (w : Worker) (n : ℕ) (available : List ℕ) (jobs : Jobs) where
  -- What a dispatch assigns is in no active job's way,
  pub assigned_free :
      exists_where (in_the_way (some w.id) (take n (unclaimed w available jobs))) jobs ≡ false
  assigned_free = not_in_the_way w.id (take n (unclaimed w available jobs)) jobs (λ i m.
      unclaimed_apart w available jobs i (mem_index-take n i (unclaimed w available jobs) m))

  -- is distinct where the available indices are,
  pub assigned_distinct :
      ((i : ℕ) → count_index i available ≤ 1)
      → (i : ℕ) → count_index i (take n (unclaimed w available jobs)) ≤ 1
  unfolding unclaimed without
  assigned_distinct distinct i =
      let claimed = running_queue_gpu_indices w.id jobs in
      omega (
        arith,
        distinct i,
        count_index-take n i (unclaimed w available jobs),
        count_index-select (λ k. not (mem_index k claimed)) i available,
      )

  -- and is among them.
  pub assigned_available :
      (i : ℕ)
      → mem_index i (take n (unclaimed w available jobs)) ≡ true
      → mem_index i available ≡ true
  unfolding unclaimed without
  assigned_available i m =
      let claimed = running_queue_gpu_indices w.id jobs in
      ground (
        arith,
        mem_index-take n i (unclaimed w available jobs) m,
        mem_index-select (λ k. not (mem_index k claimed)) i available,
      )

-- The last report shows the GPU idle: its flag says so, or it has none and at most 0.5 GB or a tenth
-- of its memory is in use.
pub data IsIdle (w : Worker) (i : ℕ) : Type 0 where
  by_flag : explicit_busy w i ≡ some false → IsIdle w i
  by_vram :
      (total used : ℕ)
      → explicit_busy w i ≡ none
      → get_elem? w.gpu_vram i ≡ some total
      → get_elem? w.gpu_used_vram i ≡ some used
      → 10 * used ≤ max 50 total
      → IsIdle w i

vram-IsIdle :
    (w : Worker) (i : ℕ) → explicit_busy w i ≡ none → is_idle_by_vram w i ≡ true → IsIdle w i
unfolding is_idle_by_vram
vram-IsIdle w i flag h = elim (Option-cases (get_elem? w.gpu_vram i)) [
  | inl missing ↦ absurd (ground (arith, missing))
  | inr (total, t) ↦ elim (Option-cases (get_elem? w.gpu_used_vram i)) [
    | inl missing ↦ absurd (ground (arith, t, missing))
    | inr (used, u) ↦ by_vram total used flag t u (ground (arith, t, u))
  ]
]

free_IsIdle : (w : Worker) (i : ℕ) → is_free_gpu w i ≡ true → IsIdle w i
unfolding is_free_gpu
free_IsIdle w i h = elim (Option-cases (explicit_busy w i)) [
  | inl flag ↦ vram-IsIdle w i flag (ground (arith, flag))
  | inr (busy, flag) ↦ by_flag (ground (arith, flag))
]

IsIdle-free : (w : Worker) (i : ℕ) → IsIdle w i → is_free_gpu w i ≡ true
unfolding is_free_gpu is_idle_by_vram
IsIdle-free w i (by_flag h) = ground (arith, h)
IsIdle-free w i (by_vram total used flag t u small) = ground (arith, flag, t, u)

-- An index is free exactly if the worker is online, it is one of its GPUs, and the last report
-- shows that GPU idle.
pub free_gpu_indices_iff :
    (w : Worker) (i : ℕ)
    → (mem_index i (free_gpu_indices w) ≡ true)
      ↔ ((is_online w.status ≡ true) × (i < w.gpu_count) × IsIdle w i)
unfolding free_gpu_indices mem_index
free_gpu_indices_iff w i =
    let chosen = mem_index-select (is_free_gpu w) i (range 0 w.gpu_count) in
    let within = mem_index-range i 0 w.gpu_count in
    (
      (λ m.
          let (online, small, free) : (is_online w.status ≡ true)
              × (i < w.gpu_count)
              × (is_free_gpu w i ≡ true) =
            ground (arith, m, chosen, within.0) in
          (online, small, free_IsIdle w i free)),
      (λ k.
          let (online, small, idle) = k in
          ground (arith, online, small, IsIdle-free w i idle, chosen, within.1)),
    )
