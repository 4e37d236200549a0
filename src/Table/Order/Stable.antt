-- ===== src/Table/Order/Stable.antt =====
-- ORDER BY and WHERE commute, since the sort is stable.
use worker_harness.Base.{
  ◌≡◌, refl, inl, inr, Bool, true, false, ◌&&◌, Option, none, some, List, [], ◌∷◌, arith,
  Bool-cases,
}
use worker_harness.Table.{select, find_where, All}
use worker_harness.Table.Laws.{All-select}
use worker_harness.Table.Order.{insert_by, order_by}
use worker_harness.Table.Order.Sorted.{IsTotal, All-below, All-insert_by, All-order_by}

module _ {ℓ} {A : Type ℓ} where
  pub select-select :
      (p q : A → Bool) (xs : List A) → select p (select q xs) ≡ select (λ x. q x && p x) xs
  unfolding select
  select-select p q [] = refl
  select-select p q (x ∷ xs) = ground (arith, select-select p q xs)

  pub select_congr :
      (p q : A → Bool) (xs : List A) → ((x : A) → p x ≡ q x) → select p xs ≡ select q xs
  unfolding select
  select_congr p q [] same = refl
  select_congr p q (x ∷ xs) same = ground (arith, same x, select_congr p q xs same)

  unfoldable pub first_row : List A → Option A
  first_row [] = none
  first_row (x ∷ xs) = some x

  pub find_where-select : (p : A → Bool) (xs : List A) → find_where p xs ≡ first_row (select p xs)
  unfolding find_where select first_row
  find_where-select p [] = refl
  find_where-select p (x ∷ xs) = ground (arith, find_where-select p xs)

module _ {ℓ} {A : Type ℓ} {le : A → A → Bool} (t : IsTotal le) where
  abbrev pub IsSorted : List A → Type ℓ
  IsSorted [] = Unit
  IsSorted (x ∷ xs) = All (λ y. le x y ≡ true) xs × IsSorted xs

  insert_by-IsSorted : (x : A) (ys : List A) → IsSorted ys → IsSorted (insert_by le x ys)
  unfolding insert_by
  insert_by-IsSorted x [] s = (tt, tt)
  insert_by-IsSorted x (y ∷ ys) s = elim (Bool-cases (le x y)) [
    | inl before ↦ rw (before, insert_by) ((before, All-below t x y ys before s.0), s)
    | inr after ↦
        rw (after, insert_by)
          (
            All-insert_by le (λ z. le y z ≡ true) x ys (t.total x y after) s.0,
            insert_by-IsSorted x ys s.1,
          )
  ]

  pub order_by-IsSorted : (xs : List A) → IsSorted (order_by le xs)
  unfolding order_by
  order_by-IsSorted [] = tt
  order_by-IsSorted (x ∷ xs) = insert_by-IsSorted x (order_by le xs) (order_by-IsSorted xs)

  insert_by-least : (x : A) (ys : List A) → All (λ y. le x y ≡ true) ys → insert_by le x ys ≡ x ∷ ys
  unfolding insert_by
  insert_by-least x [] h = refl
  insert_by-least x (y ∷ ys) h = ground (arith, h.0)

  select-insert_by_in :
      (p : A → Bool) (x : A) (ys : List A)
      → IsSorted ys
      → p x ≡ true
      → select p (insert_by le x ys) ≡ insert_by le x (select p ys)
  unfolding insert_by select
  select-insert_by_in p x [] s h = ground (arith, h)
  select-insert_by_in p x (y ∷ ys) s h = elim (Bool-cases (le x y)) [
    | inl before ↦
        let least =
          insert_by-least x (select p ys)
            (All-select (λ z. le x z ≡ true) p ys (All-below t x y ys before s.0)) in
        ground (arith, before, h, least)
    | inr after ↦ ground (arith, after, h, select-insert_by_in p x ys s.1 h)
  ]

  select-insert_by_out :
      (p : A → Bool) (x : A) (ys : List A)
      → p x ≡ false
      → select p (insert_by le x ys) ≡ select p ys
  unfolding insert_by select
  select-insert_by_out p x [] h = ground (arith, h)
  select-insert_by_out p x (y ∷ ys) h = ground (arith, h, select-insert_by_out p x ys h)

  pub select-order_by :
      (p : A → Bool) (xs : List A) → select p (order_by le xs) ≡ order_by le (select p xs)
  unfolding order_by select
  select-order_by p [] = refl
  select-order_by p (x ∷ xs) = elim (Bool-cases (p x)) [
    | inl hit ↦ ground (
      arith,
      hit,
      select-insert_by_in p x (order_by le xs) (order_by-IsSorted xs) hit,
      select-order_by p xs,
    )
    | inr miss ↦
        ground (arith, miss, select-insert_by_out p x (order_by le xs) miss, select-order_by p xs)
  ]

module _ {ℓ} {A : Type ℓ} (le ge : A → A → Bool) (p : A → Bool) where
  insert_by_congr :
      ((a b : A) → p a ≡ true → p b ≡ true → le a b ≡ ge a b)
      → (x : A) (ys : List A) → p x ≡ true
      → All (λ y. p y ≡ true) ys
      → insert_by le x ys ≡ insert_by ge x ys
  unfolding insert_by
  insert_by_congr same x [] h k = refl
  insert_by_congr same x (y ∷ ys) h k =
      ground (arith, same x y h k.0, insert_by_congr same x ys h k.1)

  -- Two orders that agree on the rows sort them alike.
  pub order_by_congr :
      ((a b : A) → p a ≡ true → p b ≡ true → le a b ≡ ge a b)
      → (xs : List A) → All (λ y. p y ≡ true) xs
      → order_by le xs ≡ order_by ge xs
  unfolding order_by
  order_by_congr same [] k = refl
  order_by_congr same (x ∷ xs) k =
      rw (order_by_congr same xs k.1)
        (insert_by_congr same x (order_by ge xs) k.0 (All-order_by ge (λ y. p y ≡ true) xs k.1))
