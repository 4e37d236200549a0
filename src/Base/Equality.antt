-- ===== src/Base/Equality.antt =====
-- Python's `==` on the types of the program, as one operator over an instance.
use Prim.Native.Nat.{ℕ, compare, Ordering}
use Prim.Native.String.{String}
use mathlib.Core.Path.{◌≡◌}
use mathlib.Core.Logic.{◌↔◌, ◌⊎◌, inl, inr}
use mathlib.Core.Bool.{Bool, true, false}
use native.Mathlib.Omega.{arith}
use text.Mathlib.Text.{◌==◌ as str_eq}
use text.Mathlib.TextEquality.{eq_iff}
use worker_harness.Base.Tests.{is_yes, Bool-cases}

-- A type whose values the program compares, with what the comparison decides.
pub record HasEq {ℓ} (K : Type ℓ) : Type ℓ where
  pub eq? : K → K → Bool
  pub eq?_iff : (x y : K) → (eq? x y ≡ true) ↔ (x ≡ y)

infix 50 ◌==◌
abbrev pub ◌==◌ {ℓ} : {K : Type ℓ} ⦃inst : HasEq K⦄ → K → K → Bool
◌==◌ ⦃inst⦄ x y = inst.eq? x y

string_dec_by : (s t : String) → (str_eq s t ≡ true) ⊎ (str_eq s t ≡ false) → Dec (s ≡ t)
string_dec_by s t (inl p) = yes ((eq_iff s t).0 p)
string_dec_by s t (inr p) = no (λ e. cc ((eq_iff s t).1 e))

unfoldable pub string_discrete : Discrete String
unfolding string_dec_by Bool-cases
string_discrete s t = string_dec_by s t (Bool-cases (str_eq s t))

abbrev pub nat_beq : ℕ → ℕ → Bool
nat_beq a b = elim (compare a b) [ Ordering.eq ↦ true | _ ↦ false ]

pub nat_beq_iff : (a b : ℕ) → (nat_beq a b ≡ true) ↔ (a ≡ b)
nat_beq_iff a b = ground arith

pub is_yes_iff {ℓ} : {A : Type ℓ} (d : Discrete A) (a b : A) → (is_yes (d a b) ≡ true) ↔ (a ≡ b)
is_yes_iff d a b = ground arith

instance abbrev pub nat_eq : HasEq ℕ
nat_eq = record { eq? = nat_beq; eq?_iff = nat_beq_iff }

-- Equality of a type by a decision procedure for it.
abbrev pub eq_of {ℓ} : {A : Type ℓ} → Discrete A → HasEq A
eq_of d = record { eq? = λ a b. is_yes (d a b); eq?_iff = is_yes_iff d }

instance abbrev pub string_eq : HasEq String
string_eq = eq_of string_discrete
