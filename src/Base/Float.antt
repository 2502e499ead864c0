-- ===== src/Base/Float.antt =====
-- Python's `float` as an interface: the operations that the code calls, and the facts of IEEE 754
-- arithmetic that the proofs use. A NaN is a value that is not `<=` itself.
use Prim.Native.Nat.{ℕ}
use mathlib.Core.Path.{◌≡◌}
use mathlib.Core.List.{List, [], ◌∷◌}
use mathlib.Core.Bool.{Bool, true, false}
use rootmem.Base.Tests.{if◌then◌else◌}

pub record Float (F : Type 0) : Type 0 where
  -- `float(n)`, and the literal `n / 10 ** k`
  pub of_ℕ : ℕ → F
  pub decimal : ℕ → ℕ → F
  pub lt : F → F → Bool
  pub le : F → F → Bool
  pub eq : F → F → Bool
  pub add : F → F → F
  pub sub : F → F → F
  pub mul : F → F → F
  pub div : F → F → F
  pub neg : F → F
  pub exp : F → F
  pub log1p : F → F
  pub sqrt : F → F
  -- `(a - b).total_seconds()` of two instants
  pub seconds : ℕ → ℕ → F

module _ {F : Type 0} ⦃fl : Float F⦄ where
  -- `max(a, b)` and `min(a, b)` return `a` unless the test favours `b`.
  unfoldable pub max : F → F → F
  max a b = if fl.lt a b then b else a

  unfoldable pub min : F → F → F
  min a b = if fl.lt b a then b else a

  -- `max(0.0, min(1.0, value))`
  unfoldable pub clip01 : F → F
  unfolding max min
  clip01 value = max (fl.of_ℕ 0) (min (fl.of_ℕ 1) value)

  -- `sum(xs)` starts from the integer 0
  unfoldable pub sum_from : F → List F → F
  sum_from acc [] = acc
  sum_from acc (x ∷ xs) = sum_from (fl.add acc x) xs

  unfoldable pub sum : List F → F
  unfolding sum_from
  sum xs = sum_from (fl.of_ℕ 0) xs

  infix 4 ◌≼◌ ◌≺◌
  abbrev pub ◌≼◌ : F → F → Type 0
  a ≼ b = fl.le a b ≡ true

  abbrev pub ◌≺◌ : F → F → Type 0
  a ≺ b = fl.lt a b ≡ true

  -- In the closed unit interval, and so no NaN.
  abbrev pub InUnit : F → Type 0
  InUnit a = (fl.of_ℕ 0 ≼ a) × (a ≼ fl.of_ℕ 1)

-- The order: `<` is strict and `<=` is its complement away from NaN.
pub record IsOrdered (F : Type 0) ⦃fl : Float F⦄ : Type 0 where
  pub le_trans : (a b c : F) → a ≼ b → b ≼ c → a ≼ c
  pub le_of_lt : (a b : F) → a ≺ b → a ≼ b
  pub number_of_le : (a b : F) → a ≼ b → (a ≼ a) × (b ≼ b)
  pub le_of_not_lt : (a b : F) → a ≼ a → b ≼ b → fl.lt b a ≡ false → a ≼ b
  pub lt_asym : (a b : F) → a ≺ b → fl.lt b a ≡ false
  pub not_lt_of_le : (a b : F) → a ≼ b → fl.lt b a ≡ false
  pub lt_of_lt_le : (a b c : F) → a ≺ b → b ≼ c → a ≺ c
  pub lt_nan : (a b : F) → a ≺ b → (a ≼ a) × (b ≼ b)
  pub zero_lt_one : fl.of_ℕ 0 ≺ fl.of_ℕ 1

-- Rounding is monotone, so these hold of the rounded operations; `largest` bounds the finite values.
pub record IsMonotone (F : Type 0) ⦃fl : Float F⦄ : Type 0 where
  pub largest : F
  pub sub_unit : (c : F) → InUnit c → InUnit (fl.sub (fl.of_ℕ 1) c)
  pub mul_unit :
      (c w : F)
      → InUnit c
      → fl.of_ℕ 0 ≼ w
      → w ≼ largest
      → (fl.of_ℕ 0 ≼ fl.mul c w) × (fl.mul c w ≼ largest)
  pub mul_comm : (a b : F) → fl.mul a b ≡ fl.mul b a
  pub add_pos : (a w : F) → fl.of_ℕ 0 ≺ a → fl.of_ℕ 0 ≼ w → fl.of_ℕ 0 ≺ fl.add a w
  pub le_add : (a w : F) → fl.of_ℕ 0 ≺ a → fl.of_ℕ 0 ≼ w → a ≼ fl.add a w
