-- ===== src/Table/Order/Sorted.antt =====
-- What ORDER BY promises of its first row.
use worker_harness.Base.{
  ◌+◌, ◌≡◌, refl, inl, inr, Bool, true, false, List, [], ◌∷◌, arith, if◌then◌else◌, Bool-cases,
}
use worker_harness.Table.{count_where, All}
use worker_harness.Table.Order.{insert_by, order_by}

pub record IsTotal {ℓ} {A : Type ℓ} (le : A → A → Bool) : Type ℓ where
  pub total : (a b : A) → le a b ≡ false → le b a ≡ true
  pub trans : (a b c : A) → le a b ≡ true → le b c ≡ true → le a c ≡ true

module _ {ℓ} {A : Type ℓ} {le : A → A → Bool} (t : IsTotal le) where
  pub All-below :
      (x y : A) (zs : List A)
      → le x y ≡ true
      → All (λ z. le y z ≡ true) zs
      → All (λ z. le x z ≡ true) zs
  All-below x y [] h k = tt
  All-below x y (z ∷ zs) h k = (t.trans x y z h k.0, All-below x y zs h k.1)

  reflexive : (x : A) → le x x ≡ true
  reflexive x = elim (Bool-cases (le x x)) [ inl h ↦ h | inr h ↦ t.total x x h ]

  insert_by-ne-nil : (x : A) (ys : List A) → insert_by le x ys ≡ [] → ⊥
  unfolding insert_by
  insert_by-ne-nil x [] e = cc
  insert_by-ne-nil x (y ∷ ys) e = elim (Bool-cases (le x y)) [
    | inl before ↦ cc (rw (before, insert_by) at e)
    | inr after ↦ cc (rw (after, insert_by) at e)
  ]

  -- The first row after an insertion is the new one or the old first one, whichever is before.
  insert_by-head :
      (x y : A) (ys rest : List A) (h : A)
      → insert_by le x (y ∷ ys) ≡ h ∷ rest
      → (h ≡ (if le x y then x else y))
  unfolding insert_by
  insert_by-head x y ys rest h e = elim (Bool-cases (le x y)) [
    | inl before ↦ rw before (cc (rw (before, insert_by) at e))
    | inr after ↦ rw after (cc (rw (after, insert_by) at e))
  ]

  min-below : (x y h : A) → h ≡ (if le x y then x else y) → (le h x ≡ true) × (le h y ≡ true)
  min-below x y h e = elim (Bool-cases (le x y)) [
    | inl before ↦ rw (e, before) (reflexive x, before)
    | inr after ↦ rw (e, after) (t.total x y after, reflexive y)
  ]

  -- The first row of the result is not after any other.
  pub order_by-head :
      (xs : List A) (h : A) (rest : List A)
      → order_by le xs ≡ h ∷ rest
      → All (λ x. le h x ≡ true) xs
  unfolding order_by
  order_by-head [] h rest e = tt
  order_by-head (x ∷ []) h rest e =
      let only : h ≡ x = unfold insert_by in cc in rw only (reflexive x, tt)
  order_by-head (x ∷ z ∷ zs) h rest e = go (order_by le (z ∷ zs)) refl (order_by-head (z ∷ zs))
    where
      go :
          (sorted : List A)
          → order_by le (z ∷ zs) ≡ sorted
          → ((y : A) (ys : List A)
              → order_by le (z ∷ zs) ≡ y ∷ ys
              → All (λ v. le y v ≡ true) (z ∷ zs))
          → All (λ v. le h v ≡ true) (x ∷ z ∷ zs)
      go [] s ih = absurd (insert_by-ne-nil z (order_by le zs) s)
      go (y ∷ ys) s ih =
          let below = min-below x y h (insert_by-head x y ys rest h (rw s at e)) in
          (below.0, All-below h y (z ∷ zs) below.1 (ih y ys s))

module _ {ℓ} {A : Type ℓ} (le : A → A → Bool) where
  pub All-insert_by {κ} :
      (P : A → Type κ) (x : A) (ys : List A) → P x → All P ys → All P (insert_by le x ys)
  unfolding insert_by
  All-insert_by P x [] h k = (h, tt)
  All-insert_by P x (y ∷ ys) h k = elim (Bool-cases (le x y)) [
    | inl before ↦ rw (before, insert_by) (h, k)
    | inr after ↦ rw (after, insert_by) (k.0, All-insert_by P x ys h k.1)
  ]

  pub All-order_by {κ} : (P : A → Type κ) (xs : List A) → All P xs → All P (order_by le xs)
  unfolding order_by
  All-order_by P [] h = tt
  All-order_by P (x ∷ xs) h = All-insert_by P x (order_by le xs) h.0 (All-order_by P xs h.1)

  count_where-insert_by :
      (q : A → Bool) (x : A) (ys : List A)
      → count_where q (insert_by le x ys) ≡ (if q x then 1 else 0) + count_where q ys
  unfolding insert_by count_where
  count_where-insert_by q x [] = refl
  count_where-insert_by q x (y ∷ ys) = ground (arith, count_where-insert_by q x ys)

  -- Sorting neither loses nor repeats a row.
  pub count_where-order_by :
      (q : A → Bool) (xs : List A) → count_where q (order_by le xs) ≡ count_where q xs
  unfolding order_by count_where
  count_where-order_by q [] = refl
  count_where-order_by q (x ∷ xs) =
      omega (arith, count_where-insert_by q x (order_by le xs), count_where-order_by q xs)
