-- ===== src/Dict/Entries.antt =====
-- What holds of every entry of a `dict`, and how many there are.
use mathlib.Core.Option.{some-injective}
use worker_harness.Base.{
  ◌+◌, ◌≤◌, ◌<◌, String, true, some, [], ◌∷◌, length, ◌≡◌, inl, inr, subst, arith, is_some, ◌==◌,
  string_eq, Bool-cases,
}
use worker_harness.Table.{All}
use worker_harness.Dict.{Dict, put, remove, get}

module _ {V : Type 0} where
  pub All-put :
      (P : String × V → Type 0) (k : String) (v : V) (d : Dict V)
      → P (k, v)
      → All P d
      → All P (put k v d)
  unfolding put
  All-put P k v [] p h = (p, tt)
  All-put P k v ((j, u) ∷ es) p h = elim (Bool-cases (j == k)) [
    | inl same ↦ rw same (p, h.1)
    | inr differs ↦ rw differs (h.0, All-put P k v es p h.1)
  ]

  pub All-remove :
      (P : String × V → Type 0) (k : String) (d : Dict V) → All P d → All P (remove k d)
  unfolding remove
  All-remove P k [] h = tt
  All-remove P k ((j, u) ∷ es) h = elim (Bool-cases (j == k)) [
    | inl same ↦ rw same (All-remove P k es h.1)
    | inr differs ↦ rw differs (h.0, All-remove P k es h.1)
  ]

  pub All-get :
      (P : String × V → Type 0) (k : String) (d : Dict V) (v : V)
      → All P d
      → get k d ≡ some v
      → P (k, v)
  unfolding get
  All-get P k [] v h = λ e. absurd (ground arith)
  All-get P k ((j, u) ∷ es) v h = elim (Bool-cases (j == k)) [
    | inl same ↦ rw same (λ e.
        subst (λ t. P (k, t)) (some-injective u v e)
          (subst (λ t. P (t, u)) ((string_eq.eq?_iff j k).0 same) h.0))
    | inr differs ↦ rw differs (All-get P k es v h.1)
  ]

  pub length-put : (k : String) (v : V) (d : Dict V) → length (put k v d) ≤ length d + 1
  unfolding put
  length-put k v [] = ground arith
  length-put k v ((j, u) ∷ es) = ground (arith, length-put k v es)

  pub length-put-again :
      (k : String) (v : V) (d : Dict V) → is_some (get k d) ≡ true → length (put k v d) ≡ length d
  unfolding put get
  length-put-again k v [] h = absurd (ground arith)
  length-put-again k v ((j, u) ∷ es) h = ground (arith, length-put-again k v es)

  pub length-remove : (k : String) (d : Dict V) → length (remove k d) ≤ length d
  unfolding remove
  length-remove k [] = ground arith
  length-remove k ((j, u) ∷ es) = ground (arith, length-remove k es)

  pub length-remove-present :
      (k : String) (d : Dict V) → is_some (get k d) ≡ true → length (remove k d) < length d
  unfolding remove get
  length-remove-present k [] h = absurd (ground arith)
  length-remove-present k ((j, u) ∷ es) h =
      ground (arith, length-remove-present k es, length-remove k es)
