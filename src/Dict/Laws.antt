-- ===== src/Dict/Laws.antt =====
-- The laws of `dict`.
use worker_harness.Base.{
  ◌≤◌, ◌≡◌, ◌≢◌, refl, String, none, some, [], ◌∷◌, is_some, ◌==◌, string_eq, arith, if◌then◌else◌,
}
use worker_harness.Dict.{Dict, get, put, remove, count_key}

module _ {ℓ} {V : Type ℓ} where
  pub get-put : (k : String) (v : V) (d : Dict V) → get k (put k v d) ≡ some v
  unfolding get put
  get-put k v [] = ground arith
  get-put k v ((j, u) ∷ es) = ground (arith, get-put k v es)

  pub get-put-other : (k j : String) (v : V) (d : Dict V) → k ≢ j → get j (put k v d) ≡ get j d
  unfolding get put
  get-put-other k j v [] ne = ground arith
  get-put-other k j v ((i, u) ∷ es) ne = ground (arith, get-put-other k j v es ne)

  pub get-remove : (k : String) (d : Dict V) → get k (remove k d) ≡ none
  unfolding get remove
  get-remove k [] = refl
  get-remove k ((j, u) ∷ es) = ground (arith, get-remove k es)

  pub get-remove-other : (k j : String) (d : Dict V) → k ≢ j → get j (remove k d) ≡ get j d
  unfolding get remove
  get-remove-other k j [] ne = refl
  get-remove-other k j ((i, u) ∷ es) ne = ground (arith, get-remove-other k j es ne)

  pub count_key-put :
      (k j : String) (v : V) (d : Dict V)
      → count_key j (put k v d)
        ≡ (if k == j then (if is_some (get j d) then count_key j d else 1) else count_key j d)
  unfolding count_key put get
  count_key-put k j v [] = ground arith
  count_key-put k j v ((i, u) ∷ es) = ground (arith, count_key-put k j v es)

  pub count_key-remove : (k j : String) (d : Dict V) → count_key j (remove k d) ≤ count_key j d
  unfolding count_key remove
  count_key-remove k j [] = omega arith
  count_key-remove k j ((i, u) ∷ es) = ground (arith, count_key-remove k j es)
