-- ===== src/Rational.antt =====
-- The values of Python's `decimal.Decimal`: exact rational numbers. Two decimals that `==` calls
-- equal (1.0 and 1.00) are one value here, so a value is a class of fractions.
pub mod Fractions
pub mod Ring
pub mod Order
pub mod Abs
pub mod Integral
use mathlib.Core.Quot
use mathlib.Core.Quot.{Quot, Quot-set}
use mathlib.Core.HLevel.{→_set}
use capital.Prelude.{ℕ, ◌≡◌, Bool, fun_ext}
use Fractions.{
  Fraction, ◌∼◌, sum, product, opposite, inverse, fraction_leb, sum-congr_left, sum-congr_right,
  product-congr_left, product-congr_right, opposite-congr, inverse-congr, fraction_leb-congr_left,
  fraction_leb-congr_right,
}

abbrev pub ℚ : Type 0
ℚ = Quot ◌∼◌

pub ℚ_set : IsSet ℚ
ℚ_set = Quot-set

abbrev pub of_fraction : Fraction → ℚ
of_fraction = Quot.mk

-- A function of two classes, from one of two fractions.
abbrev lift₂ :
    {B : Type 0} (set : IsSet B) (f : Fraction → Fraction → B)
    → ((x x' y : Fraction) → x ∼ x' → f x y ≡ f x' y)
    → ((x y y' : Fraction) → y ∼ y' → f x y ≡ f x y')
    → ℚ
    → ℚ
    → B
lift₂ set f left right =
    Quot.lift (→_set set) (λ x. Quot.lift set (f x) (right x))
      λ x x' r. fun_ext (Quot.ind (λ _. set _ _) λ y. left x x' y r)

infixl 65 ◌+ℚ◌ ◌-ℚ◌
infixl 70 ◌*ℚ◌ ◌/ℚ◌
unfoldable pub ◌+ℚ◌ : ℚ → ℚ → ℚ
◌+ℚ◌ =
    lift₂ Quot-set (λ x y. of_fraction (sum x y)) (λ x x' y r. Quot.sound (sum-congr_left x x' y r))
      (λ x y y' r. Quot.sound (sum-congr_right x y y' r))

unfoldable pub ◌*ℚ◌ : ℚ → ℚ → ℚ
◌*ℚ◌ =
    lift₂ Quot-set (λ x y. of_fraction (product x y))
      (λ x x' y r. Quot.sound (product-congr_left x x' y r))
      (λ x y y' r. Quot.sound (product-congr_right x y y' r))

unfoldable pub neg : ℚ → ℚ
neg =
    Quot.lift Quot-set (λ x. of_fraction (opposite x)) (λ x y r. Quot.sound (opposite-congr x y r))

-- 1 / x; the value at 0 is 0, and the program's divisions by it are errors of the model's own.
unfoldable pub inv : ℚ → ℚ
inv = Quot.lift Quot-set (λ x. of_fraction (inverse x)) (λ x y r. Quot.sound (inverse-congr x y r))

unfoldable pub ◌-ℚ◌ : ℚ → ℚ → ℚ
a -ℚ b = a +ℚ neg b

unfoldable pub ◌/ℚ◌ : ℚ → ℚ → ℚ
a /ℚ b = a *ℚ inv b

-- `a <= b`
unfoldable pub le? : ℚ → ℚ → Bool
le? = lift₂ (hlevel) fraction_leb fraction_leb-congr_left fraction_leb-congr_right

abbrev pub of_ℕ : ℕ → ℚ
of_ℕ n = of_fraction (n, 0, 0)
