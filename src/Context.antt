-- ===== src/Context.antt =====
-- Decimal arithmetic as the program meets it. A `Context` holds the roundings that the program
-- leaves to its environment: that of the active `decimal` context, which every arithmetic result
-- goes through (28 significant digits and half-even by default), and that of a database
-- column, NUMERIC(28, 10) for amounts and NUMERIC(24, 8) for prices, which a value goes through
-- when a row is written and read back. They are parameters, so the theorems hold for any of them;
-- `IsRounding` states what a rounding does.
pub mod Rounding
pub mod Percent
use capital.Prelude.{◌≡◌, refl, Bool, true, List, [], ◌∷◌, if◌then◌else◌}
use capital.Rational.{ℚ, of_ℕ, ◌+ℚ◌, ◌-ℚ◌, ◌*ℚ◌, ◌/ℚ◌, neg}
use capital.Rational.Order.{◌≤ℚ◌, lt?, eq?}
use capital.Effects.{Result, ok, err, arithmetic_error}

pub record Context : Type 0 where
  pub round : ℚ → ℚ
  pub column : ℚ → ℚ
  pub price_column : ℚ → ℚ
  -- Whether an integer has no more digits than the context, as `quantize` asks.
  pub precise : ℚ → Bool

-- A rounding keeps the order and the sign, and leaves a rounded value alone.
pub record IsRounding (r : ℚ → ℚ) : Type 0 where
  pub mono : (a b : ℚ) → a ≤ℚ b → r a ≤ℚ r b
  pub zero : r (of_ℕ 0) ≡ of_ℕ 0
  pub odd : (a : ℚ) → r (neg a) ≡ neg (r a)
  pub idem : (a : ℚ) → r (r a) ≡ r a

-- A context that never runs out of digits, with columns that never do.
abbrev pub unlimited : Context
unlimited = record { round = λ a. a; column = λ a. a; price_column = λ a. a; precise = λ a. true }

pub unlimited-IsRounding : IsRounding unlimited.round
unlimited-IsRounding = record { mono = λ a b h. h; zero = refl; odd = λ a. refl; idem = λ a. refl }

module _ ⦃c : Context⦄ where
  -- `Fits a`: the context holds `a` as it is. `Stores a`: a column does.
  abbrev pub Fits : ℚ → Type 0
  Fits a = c.round a ≡ a

  abbrev pub Stores : ℚ → Type 0
  Stores a = c.column a ≡ a

  infixl 65 ◌⊕◌ ◌⊖◌
  infixl 70 ◌⊗◌
  abbrev pub ◌⊕◌ : ℚ → ℚ → ℚ
  a ⊕ b = c.round (a +ℚ b)

  abbrev pub ◌⊖◌ : ℚ → ℚ → ℚ
  a ⊖ b = c.round (a -ℚ b)

  abbrev pub ◌⊗◌ : ℚ → ℚ → ℚ
  a ⊗ b = c.round (a *ℚ b)

  -- Unary minus and `abs` round too.
  abbrev pub minus : ℚ → ℚ
  minus a = c.round (neg a)

  abbrev pub absolute : ℚ → ℚ
  absolute a = c.round (if lt? a (of_ℕ 0) then neg a else a)

  -- The quotient by a divisor that is known not to be 0.
  abbrev pub quotient : ℚ → ℚ → ℚ
  quotient a b = c.round (a /ℚ b)

  -- `a / b`, which raises on 0
  abbrev pub divide : ℚ → ℚ → Result ℚ
  divide a b = if eq? b (of_ℕ 0) then err arithmetic_error else ok (quotient a b)

  -- `a.quantize(Decimal(1), rounding=...)`, given the integer that the rounding mode picks.
  abbrev pub quantize : (ℚ → ℚ) → ℚ → Result ℚ
  quantize mode a = if c.precise (mode a) then ok (mode a) else err arithmetic_error

  -- `sum(xs, Decimal(0))`
  abbrev pub sum_from : ℚ → List ℚ → ℚ
  sum_from acc [] = acc
  sum_from acc (x ∷ xs) = sum_from (acc ⊕ x) xs

  abbrev pub sum : List ℚ → ℚ
  sum = sum_from (of_ℕ 0)

-- `max` and `min` compare and do not round; the first of two equal arguments is returned.
abbrev pub maximum : ℚ → ℚ → ℚ
maximum a b = if lt? a b then b else a

abbrev pub minimum : ℚ → ℚ → ℚ
minimum a b = if lt? b a then b else a
