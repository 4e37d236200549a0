-- ===== src/Table/Deletion.antt =====
-- What a DELETE leaves.
use worker_harness.Base.{◌≤◌, ◌≡◌, inl, inr, Bool, false, some, List, [], ◌∷◌, arith, Bool-cases}
use worker_harness.Table.{delete_where, count_where, find_where, All}

module _ {ℓ} {A : Type ℓ} where
  pub delete_where-All : (p : A → Bool) (xs : List A) → All (λ x. p x ≡ false) (delete_where p xs)
  unfolding delete_where
  delete_where-All p [] = tt
  delete_where-All p (x ∷ xs) = elim (Bool-cases (p x)) [
    | inl hit ↦ rw (hit, delete_where) (delete_where-All p xs)
    | inr miss ↦ rw (miss, delete_where) (miss, delete_where-All p xs)
  ]

  pub All-delete_where {κ} :
      (P : A → Type κ) (p : A → Bool) (xs : List A) → All P xs → All P (delete_where p xs)
  unfolding delete_where
  All-delete_where P p [] h = tt
  All-delete_where P p (x ∷ xs) h = elim (Bool-cases (p x)) [
    | inl hit ↦ rw (hit, delete_where) (All-delete_where P p xs h.1)
    | inr miss ↦ rw (miss, delete_where) (h.0, All-delete_where P p xs h.1)
  ]

  pub count_where-delete_where :
      (q p : A → Bool) (xs : List A) → count_where q (delete_where p xs) ≤ count_where q xs
  unfolding delete_where count_where
  count_where-delete_where q p [] = omega arith
  count_where-delete_where q p (x ∷ xs) = ground (arith, count_where-delete_where q p xs)

  pub find_where-delete_where :
      (q p : A → Bool) (xs : List A) (x : A)
      → find_where q xs ≡ some x
      → p x ≡ false
      → find_where q (delete_where p xs) ≡ some x
  unfolding delete_where find_where
  find_where-delete_where q p [] x found keep = absurd (cc)
  find_where-delete_where q p (y ∷ ys) x found keep =
      ground (arith, keep, find_where-delete_where q p ys x)
