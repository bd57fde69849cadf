-- ===== src/Prelude/Equality.antt =====
-- `===` on the types whose values the code compares.
use Prim.Native.Nat.{ℕ, compare, Ordering}
use mathlib.Core.Path.{◌≡◌, refl}
use mathlib.Core.Logic.{◌↔◌}
use mathlib.Core.Bool.{Bool, true, false, not}
use native.Mathlib.Omega.{arith}

-- A Boolean test that decides whether two values are equal.
pub record Eq {ℓ} (T : Type ℓ) : Type ℓ where
  pub same : T → T → Bool
  pub same_iff : (x y : T) → (same x y ≡ true) ↔ (x ≡ y)

infix 50 ◌==◌
abbrev pub ◌==◌ {ℓ} : {T : Type ℓ} ⦃test : Eq T⦄ → T → T → Bool
◌==◌ ⦃test⦄ x y = test.same x y

pub same_refl {ℓ} : {T : Type ℓ} ⦃test : Eq T⦄ (x : T) → (x == x) ≡ true
same_refl ⦃test⦄ x = (test.same_iff x x).1 refl

abbrev pub bool_same : Bool → Bool → Bool
bool_same x true = x
bool_same x false = not x

pub bool_same_iff : (x y : Bool) → (bool_same x y ≡ true) ↔ (x ≡ y)
bool_same_iff x true = ground arith
bool_same_iff x false = ground arith

abbrev pub nat_same : ℕ → ℕ → Bool
nat_same m n = elim (compare m n) [ Ordering.lt ↦ false | Ordering.eq ↦ true | Ordering.gt ↦ false ]

pub nat_same_iff : (m n : ℕ) → (nat_same m n ≡ true) ↔ (m ≡ n)
nat_same_iff m n = ground arith

instance abbrev pub bool_eq : Eq Bool
bool_eq = record { same_iff = bool_same_iff; same = bool_same }

instance abbrev pub nat_eq : Eq ℕ
nat_eq = record { same_iff = nat_same_iff; same = nat_same }
