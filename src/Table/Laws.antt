-- ===== src/Table/Laws.antt =====
-- What an UPDATE leaves alone, and what a WHERE clause matches.
use worker_harness.Base.{
  ◌+◌, ◌≤◌, ◌<◌, ◌≡◌, refl, subst, inl, inr, Bool, Bool-cases, true, false, none, some, List, [],
  ◌∷◌, ◌++◌, arith, if◌then◌else◌,
}
use mathlib.Core.Option.{some-injective}
use worker_harness.Table.{select, update_where, count_where, find_where, exists_where, All}

module _ {ℓ} {A : Type ℓ} where
  pub All-append {κ} : (P : A → Type κ) (xs ys : List A) → All P xs → All P ys → All P (xs ++ ys)
  All-append P [] ys h k = k
  All-append P (x ∷ xs) ys h k = (h.0, All-append P xs ys h.1 k)

  pub All-update_where {κ} :
      (P : A → Type κ) (p : A → Bool) (f : A → A) (xs : List A)
      → ((x : A) → p x ≡ true → P x → P (f x))
      → All P xs
      → All P (update_where p f xs)
  unfolding update_where
  All-update_where P p f [] step h = tt
  All-update_where P p f (x ∷ xs) step h = (first (p x) refl, All-update_where P p f xs step h.1)
    where
      first : (b : Bool) → p x ≡ b → P (if b then f x else x)
      first true e = step x e h.0
      first false e = h.0

  pub count_where-update_where :
      (q p : A → Bool) (f : A → A) (xs : List A)
      → ((x : A) → p x ≡ true → q (f x) ≡ q x)
      → count_where q (update_where p f xs) ≡ count_where q xs
  unfolding count_where update_where
  count_where-update_where q p f [] same = refl
  count_where-update_where q p f (x ∷ xs) same =
      ground (arith, same x, count_where-update_where q p f xs same)

  pub count_where-append :
      (q : A → Bool) (xs ys : List A)
      → count_where q (xs ++ ys) ≡ count_where q xs + count_where q ys
  unfolding count_where
  count_where-append q [] ys = omega arith
  count_where-append q (x ∷ xs) ys = omega (arith, count_where-append q xs ys)

  -- A narrower WHERE clause matches no more rows.
  pub count_where_mono :
      (p q : A → Bool) (xs : List A)
      → ((x : A) → p x ≡ true → q x ≡ true)
      → count_where p xs ≤ count_where q xs
  unfolding count_where
  count_where_mono p q [] imp = omega arith
  count_where_mono p q (x ∷ xs) imp = ground (arith, imp x, count_where_mono p q xs imp)

  pub count_where-eq-zero :
      (p : A → Bool) (xs : List A) → exists_where p xs ≡ false → count_where p xs ≡ 0
  unfolding count_where exists_where
  count_where-eq-zero p [] h = refl
  count_where-eq-zero p (x ∷ xs) h = ground (arith, count_where-eq-zero p xs)

  pub find_where_sound :
      (p : A → Bool) (xs : List A) (x : A) → find_where p xs ≡ some x → p x ≡ true
  unfolding find_where
  find_where_sound p [] x h = absurd (cc)
  find_where_sound p (y ∷ ys) x h = ground (arith, find_where_sound p ys x)

  pub update_where_none :
      (p : A → Bool) (f : A → A) (xs : List A) → count_where p xs ≡ 0 → update_where p f xs ≡ xs
  unfolding count_where update_where
  update_where_none p f [] h = refl
  update_where_none p f (x ∷ xs) h = ground (arith, update_where_none p f xs)

  pub All-find_where {κ} :
      (P : A → Type κ) (p : A → Bool) (xs : List A) (x : A)
      → All P xs
      → find_where p xs ≡ some x
      → P x
  unfolding find_where
  All-find_where P p [] x h e = absurd (cc)
  All-find_where P p (y ∷ ys) x h e = elim (Bool-cases (p y)) [
    | inl hit ↦ subst P (some-injective y x (rw (hit, find_where) at e)) h.0
    | inr miss ↦ All-find_where P p ys x h.1 (rw (miss, find_where) at e)
  ]

  pub All-select {κ} :
      (P : A → Type κ) (p : A → Bool) (xs : List A) → All P xs → All P (select p xs)
  unfolding select
  All-select P p [] h = tt
  All-select P p (x ∷ xs) h = elim (Bool-cases (p x)) [
    | inl hit ↦ rw (hit, select) (h.0, All-select P p xs h.1)
    | inr miss ↦ rw (miss, select) (All-select P p xs h.1)
  ]

  -- What holds of all the selected rows holds of every row that matches.
  pub All-of_select {κ} :
      (P : A → Type κ) (p : A → Bool) (xs : List A)
      → All P (select p xs)
      → All (λ x. p x ≡ true → P x) xs
  unfolding select
  All-of_select P p [] h = tt
  All-of_select P p (x ∷ xs) h = elim (Bool-cases (p x)) [
    | inl hit ↦ let k = rw (hit, select) at h in ((λ _. k.0), All-of_select P p xs k.1)
    | inr miss ↦ ((λ hit. absurd (cc (hit, miss))), All-of_select P p xs (rw (miss, select) at h))
  ]

  pub select-All : (p : A → Bool) (xs : List A) → All (λ x. p x ≡ true) (select p xs)
  unfolding select
  select-All p [] = tt
  select-All p (x ∷ xs) = elim (Bool-cases (p x)) [
    | inl hit ↦ rw (hit, select) (hit, select-All p xs)
    | inr miss ↦ rw (miss, select) (select-All p xs)
  ]

  pub count_where-select-le :
      (q p : A → Bool) (xs : List A) → count_where q (select p xs) ≤ count_where q xs
  unfolding count_where select
  count_where-select-le q p [] = omega arith
  count_where-select-le q p (x ∷ xs) = ground (arith, count_where-select-le q p xs)

  no_row :
      (p : A → Bool) (xs : List A) (x : A) → count_where p xs ≡ 0 → All (λ r. p r ≡ true → r ≡ x) xs
  unfolding count_where
  no_row p [] x h = tt
  no_row p (y ∷ ys) x h = ((λ hit. absurd (ground (arith, hit))), no_row p ys x (ground arith))

  -- A key finds the one row that has it.
  pub only_row :
      (p : A → Bool) (xs : List A) (x : A)
      → count_where p xs ≤ 1
      → find_where p xs ≡ some x
      → All (λ r. p r ≡ true → r ≡ x) xs
  unfolding count_where find_where
  only_row p [] x one e = tt
  only_row p (y ∷ ys) x one e = elim (Bool-cases (p y)) [
    | inl hit ↦ ((λ _. ground (arith, hit)), no_row p ys x (ground (arith, hit)))
    | inr miss ↦ (
      (λ hit. absurd (cc (hit, miss))),
      only_row p ys x (ground (arith, miss)) (ground (arith, miss)),
    )
  ]

  pub find_where-counted :
      (p : A → Bool) (xs : List A) → 0 < count_where p xs → (x : A) × (find_where p xs ≡ some x)
  unfolding count_where find_where
  find_where-counted p [] h = absurd (omega arith)
  find_where-counted p (x ∷ xs) h = elim (Bool-cases (p x)) [
    | inl hit ↦ (x, rw (hit, find_where))
    | inr miss ↦
        let (y, e) = find_where-counted p xs (ground (arith, miss)) in (y, rw (miss, find_where) e)
  ]

  pub count_where-pos :
      (p : A → Bool) (xs : List A) (x : A) → find_where p xs ≡ some x → 0 < count_where p xs
  unfolding count_where find_where
  count_where-pos p [] x e = absurd (cc)
  count_where-pos p (y ∷ ys) x e = ground (arith, count_where-pos p ys x)

  -- A narrower WHERE clause finds the row that a key finds.
  pub find_where-narrow :
      (p q : A → Bool) (xs : List A) (x : A)
      → ((r : A) → p r ≡ true → q r ≡ true)
      → count_where q xs ≤ 1
      → find_where p xs ≡ some x
      → find_where q xs ≡ some x
  unfolding count_where find_where
  find_where-narrow p q [] x imp one e = absurd (cc)
  find_where-narrow p q (r ∷ rs) x imp one e = ground (
    arith,
    imp r,
    find_where-narrow p q rs x imp,
    count_where_mono p q rs imp,
    count_where-pos p rs x,
  )

  -- The row that a key finds, after an UPDATE that keeps the key.
  pub find_where-update_where :
      (p q : A → Bool) (f : A → A) (xs : List A)
      → ((x : A) → p x ≡ true → q (f x) ≡ q x)
      → find_where q (update_where p f xs)
        ≡ elim (find_where q xs) [ none ↦ none | some x ↦ some (if p x then f x else x) ]
  unfolding find_where update_where
  find_where-update_where p q f [] same = refl
  find_where-update_where p q f (x ∷ xs) same =
      ground (arith, same x, find_where-update_where p q f xs same)
