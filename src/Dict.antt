-- ===== src/Dict.antt =====
-- Python's `dict` with texts as keys: its entries in insertion order, each key once.
pub mod Laws
pub mod Entries
use worker_harness.Base.{
  ℕ, suc, ◌≤◌, String, Bool, Option, none, some, List, [], ◌∷◌, ◌==◌, string_eq, if◌then◌else◌,
}

abbrev pub Dict {ℓ} : Type ℓ → Type ℓ
Dict V = List (String × V)

module _ {ℓ} {V : Type ℓ} where
  -- `d.get(key)`
  unfoldable pub get : String → Dict V → Option V
  get k [] = none
  get k ((j, v) ∷ es) = if j == k then some v else get k es

  -- `d[key] = value`
  unfoldable pub put : String → V → Dict V → Dict V
  put k v [] = (k, v) ∷ []
  put k v ((j, u) ∷ es) = let rest = put k v es in if j == k then (k, v) ∷ es else (j, u) ∷ rest

  -- `d.pop(key, None)`
  unfoldable pub remove : String → Dict V → Dict V
  remove k [] = []
  remove k ((j, u) ∷ es) = let rest = remove k es in if j == k then rest else (j, u) ∷ rest

  -- how many entries have the key
  unfoldable pub count_key : String → Dict V → ℕ
  count_key k [] = 0
  count_key k ((j, u) ∷ es) = let rest = count_key k es in if j == k then suc rest else rest

  abbrev pub IsDict : Dict V → Type 0
  IsDict d = (k : String) → count_key k d ≤ 1
