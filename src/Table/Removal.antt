-- ===== src/Table/Removal.antt =====
-- Rows that an UPDATE takes out of a selection.
use worker_harness.Base.{
  ◌++◌, ◌<◌, some, ◌+◌, ◌≡◌, refl, Bool, true, false, ◌&&◌, not, List, [], ◌∷◌, length, arith,
}
use worker_harness.Table.{find_where, select, update_where, count_where}
use worker_harness.Table.Order.{insert_by, order_by}

module _ {ℓ} {A : Type ℓ} where
  pub select-update_where :
      (q p : A → Bool) (f : A → A) (xs : List A)
      → ((x : A) → p x ≡ true → q (f x) ≡ false)
      → select q (update_where p f xs) ≡ select (λ x. q x && not (p x)) xs
  unfolding select update_where
  select-update_where q p f [] out = refl
  select-update_where q p f (x ∷ xs) out = ground (arith, out x, select-update_where q p f xs out)

  pub select-all :
      (q : A → Bool) (xs : List A) → count_where q xs ≡ 0 → select (λ x. not (q x)) xs ≡ xs
  unfolding select count_where
  select-all q [] none_left = refl
  select-all q (x ∷ xs) none_left = ground (arith, select-all q xs)

  pub length-select : (q : A → Bool) (xs : List A) → length (select q xs) ≡ count_where q xs
  unfolding select count_where
  length-select q [] = refl
  length-select q (x ∷ xs) = ground (arith, length-select q xs)

  length-insert_by :
      (le : A → A → Bool) (x : A) (ys : List A) → length (insert_by le x ys) ≡ 1 + length ys
  unfolding insert_by
  length-insert_by le x [] = refl
  length-insert_by le x (y ∷ ys) = ground (arith, length-insert_by le x ys)

  pub length-order_by : (le : A → A → Bool) (xs : List A) → length (order_by le xs) ≡ length xs
  unfolding order_by
  length-order_by le [] = refl
  length-order_by le (x ∷ xs) =
      omega (arith, length-insert_by le x (order_by le xs), length-order_by le xs)

module _ {ℓ} {A : Type ℓ} where
  -- A row that matches a clause counts for it, wherever it was found.
  pub count_where-found :
      (p q : A → Bool) (xs : List A) (x : A)
      → find_where q xs ≡ some x
      → p x ≡ true
      → 0 < count_where p xs
  unfolding find_where count_where
  count_where-found p q [] x found hit = absurd (cc)
  count_where-found p q (y ∷ ys) x found hit = ground (arith, hit, count_where-found p q ys x)

  -- What is found stays found when a row is added.
  pub find_where-append :
      (p : A → Bool) (xs : List A) (y x : A)
      → find_where p xs ≡ some x
      → find_where p (xs ++ y ∷ []) ≡ some x
  unfolding find_where
  find_where-append p [] y x found = absurd (cc)
  find_where-append p (z ∷ zs) y x found = ground (arith, find_where-append p zs y x)
