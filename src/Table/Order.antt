-- ===== src/Table/Order.antt =====
-- ORDER BY: a stable insertion sort, and the collation of texts.
pub mod Laws
pub mod Sorted
pub mod Stable
use Prim.Native.Char.{code}
use worker_harness.Base.{
  ℕ, String, Bool, true, false, List, [], ◌∷◌, ltb, ◌==◌, nat_eq, if◌then◌else◌,
}

module _ {ℓ} {A : Type ℓ} where
  unfoldable pub insert_by : (A → A → Bool) → A → List A → List A
  insert_by le x [] = x ∷ []
  insert_by le x (y ∷ ys) = if le x y then x ∷ y ∷ ys else y ∷ insert_by le x ys

  unfoldable pub order_by : (A → A → Bool) → List A → List A
  unfolding insert_by
  order_by le [] = []
  order_by le (x ∷ xs) = insert_by le x (order_by le xs)

-- The BINARY collation on texts: by code points.
unfoldable pub text_le : String → String → Bool
text_le String.[] t = true
text_le (String.◌∷◌ c s) String.[] = false
text_le (String.◌∷◌ c s) (String.◌∷◌ d t) =
    if code c == code d then text_le s t else ltb (code c) (code d)
