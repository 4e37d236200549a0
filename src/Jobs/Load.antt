-- ===== src/Jobs/Load.antt =====
-- How often a GPU of a worker is assigned to active queue jobs.
use worker_harness.Base.{
  ℕ, ◌+◌, ◌*◌, ◌≤◌, ◌≡◌, refl, String, Bool, true, false, ◌&&◌, Option, List, [], ◌∷◌, ◌++◌, arith,
  ◌==◌, nat_eq, string_eq, if◌then◌else◌,
}
use worker_harness.Models.{Job}
use worker_harness.Table.{update_where, count_where, exists_where}
use worker_harness.Jobs.{Jobs, is_active_on, mem_index, overlaps}

unfoldable pub count_index : ℕ → List ℕ → ℕ
count_index i [] = 0
count_index i (x ∷ xs) = (if x == i then 1 else 0) + count_index i xs

unfoldable pub job_load : Option String → ℕ → Job → ℕ
job_load w i j = if is_active_on w j then count_index i j.gpu_indices else 0

-- Summed over the table.
unfoldable pub gpu_load : Option String → ℕ → Jobs → ℕ
gpu_load w i [] = 0
gpu_load w i (j ∷ js) = job_load w i j + gpu_load w i js

pub mem_index-count : (i : ℕ) (xs : List ℕ) → mem_index i xs ≡ false → count_index i xs ≡ 0
unfolding mem_index count_index
mem_index-count i [] h = refl
mem_index-count i (x ∷ xs) h = ground (arith, mem_index-count i xs)

-- An index of the second list that does not overlap the first is not in the first.
overlaps-count :
    (i : ℕ) (xs wanted : List ℕ)
    → overlaps xs wanted ≡ false
    → mem_index i wanted ≡ true
    → count_index i xs ≡ 0
unfolding overlaps count_index
overlaps-count i [] wanted h m = refl
overlaps-count i (x ∷ xs) wanted h m = ground (arith, overlaps-count i xs wanted)

abbrev pub in_the_way : Option String → List ℕ → Job → Bool
in_the_way w wanted j = is_active_on w j && overlaps j.gpu_indices wanted

-- If no active job of the worker holds one of the wanted GPUs, they are unassigned.
pub free_of_overlap :
    (w : Option String) (i : ℕ) (wanted : List ℕ) (jobs : Jobs)
    → exists_where (in_the_way w wanted) jobs ≡ false
    → mem_index i wanted ≡ true
    → gpu_load w i jobs ≡ 0
unfolding exists_where gpu_load job_load
free_of_overlap w i wanted [] h m = refl
free_of_overlap w i wanted (j ∷ js) h m =
    ground (arith, overlaps-count i j.gpu_indices wanted, free_of_overlap w i wanted js)

pub gpu_load-append :
    (w : Option String) (i : ℕ) (xs ys : Jobs)
    → gpu_load w i (xs ++ ys) ≡ gpu_load w i xs + gpu_load w i ys
unfolding gpu_load
gpu_load-append w i [] ys = omega arith
gpu_load-append w i (x ∷ xs) ys = omega (arith, gpu_load-append w i xs ys)

-- An UPDATE that gives no row more than it had.
pub gpu_load-update_le :
    (w : Option String) (i : ℕ) (p : Job → Bool) (f : Job → Job) (jobs : Jobs)
    → ((j : Job) → p j ≡ true → job_load w i (f j) ≤ job_load w i j)
    → gpu_load w i (update_where p f jobs) ≤ gpu_load w i jobs
unfolding gpu_load update_where
gpu_load-update_le w i p f [] less = omega arith
gpu_load-update_le w i p f (j ∷ js) less =
    ground (arith, less j, gpu_load-update_le w i p f js less)

-- An UPDATE that gives each row that it matches at most `n` more.
pub gpu_load-update_add :
    (w : Option String) (i n : ℕ) (p : Job → Bool) (f : Job → Job) (jobs : Jobs)
    → ((j : Job) → p j ≡ true → job_load w i (f j) ≤ job_load w i j + n)
    → gpu_load w i (update_where p f jobs) ≤ gpu_load w i jobs + n * count_where p jobs
unfolding gpu_load update_where count_where
gpu_load-update_add w i n p f [] more = omega arith
gpu_load-update_add w i n p f (j ∷ js) more =
    ground (arith, more j, gpu_load-update_add w i n p f js more)
