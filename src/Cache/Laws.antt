-- ===== src/Cache/Laws.antt =====
-- What `invalidate_prefix` in cache.py removes.
use worker_harness.Base.{
  ◌≡◌, refl, String, Bool, true, false, ◌&&◌, none, List, [], ◌∷◌, is_some, ◌==◌, string_eq,
  string_discrete, starts_with, arith, if◌then◌else◌,
}
use worker_harness.Dict.{Dict, remove}
use worker_harness.Dict.{get as dict_get}
use worker_harness.Dict.Laws.{get-remove, get-remove-other}
use worker_harness.Cache.{Entry, keys_under, remove_all}

unfoldable pub has_key : String → List String → Bool
has_key j [] = false
has_key j (k ∷ ks) = if k == j then true else has_key j ks

module _ {V : Type 0} where
  get-remove-cases :
      (k j : String) (d : Dict (Entry V))
      → dict_get j (remove k d) ≡ (if k == j then none else dict_get j d)
  get-remove-cases k j d = elim (string_discrete k j) [
    | yes same ↦ ground (arith, same, get-remove k d)
    | no ne ↦ ground (arith, ne, get-remove-other k j d ne)
  ]

  get-remove_all :
      (j : String) (ks : List String) (d : Dict (Entry V))
      → dict_get j (remove_all ks d) ≡ (if has_key j ks then none else dict_get j d)
  unfolding remove_all has_key
  get-remove_all j [] d = refl
  get-remove_all j (k ∷ ks) d =
      ground (arith, get-remove_all j ks (remove k d), get-remove-cases k j d)

  has_key-keys_under :
      (prefix j : String) (d : Dict (Entry V))
      → has_key j (keys_under prefix d) ≡ starts_with prefix j && is_some (dict_get j d)
  unfolding has_key keys_under dict_get
  has_key-keys_under prefix j [] = ground arith
  has_key-keys_under prefix j ((k, e) ∷ es) = ground (arith, has_key-keys_under prefix j es)

  -- The keys under the prefix are gone, and no other.
  pub get-remove_all-keys_under :
      (prefix j : String) (d : Dict (Entry V))
      → dict_get j (remove_all (keys_under prefix d) d)
        ≡ (if starts_with prefix j then none else dict_get j d)
  get-remove_all-keys_under prefix j d =
      ground (arith, get-remove_all j (keys_under prefix d) d, has_key-keys_under prefix j d)
