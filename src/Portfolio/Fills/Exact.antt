-- ===== src/Portfolio/Fills/Exact.antt =====
-- The specification of a fill on exact numbers: a signed holding with its average entry and its
-- realized PnL.
pub mod Value
use capital.Prelude.{Bool, true, false, not, ◌||◌, if◌then◌else◌}
use capital.Rational.{ℚ, of_ℕ, ◌+ℚ◌, ◌-ℚ◌, ◌*ℚ◌, neg, ◌/ℚ◌}
use capital.Rational.Order.{eq?, lt?}
use capital.Rational.Abs.{abs}
use capital.Context.{minimum}
use capital.Portfolio.Positions.{direction}
use capital.Models.{FillSide, buy, sell}

pub record Holding : Type 0 where
  pub size : ℚ
  pub entry : ℚ
  pub realized : ℚ

abbrev pub exact_delta : FillSide → ℚ → ℚ
exact_delta buy qty = qty
exact_delta sell qty = neg qty

abbrev pub is_adding : ℚ → ℚ → Bool
is_adding size delta =
    eq? size (of_ℕ 0)
    || (if lt? (of_ℕ 0) size then lt? (of_ℕ 0) delta else not (lt? (of_ℕ 0) delta))

abbrev pub exact_average : ℚ → ℚ → ℚ → ℚ → ℚ
exact_average size entry qty price = (abs size *ℚ entry +ℚ qty *ℚ price) /ℚ (abs size +ℚ qty)

abbrev pub exact_booked : ℚ → ℚ → ℚ → ℚ → ℚ
exact_booked size entry qty price =
    (price -ℚ entry) *ℚ minimum qty (abs size) *ℚ direction (lt? (of_ℕ 0) size)

abbrev pub exact_reduced : ℚ → ℚ → ℚ → ℚ → ℚ
exact_reduced size delta entry price =
    if lt? (abs size) (abs delta)
    then price
    else (if eq? (size +ℚ delta) (of_ℕ 0) then of_ℕ 0 else entry)

abbrev pub added : Holding → ℚ → ℚ → ℚ → Holding
added h delta qty price = record {
  size = h.size +ℚ delta;
  entry = exact_average h.size h.entry qty price;
  realized = h.realized;
}

abbrev pub reduced : Holding → ℚ → ℚ → ℚ → Holding
reduced h delta qty price = record {
  size = h.size +ℚ delta;
  entry = exact_reduced h.size delta h.entry price;
  realized = h.realized +ℚ exact_booked h.size h.entry qty price;
}

unfoldable pub exact_fill : Holding → FillSide → ℚ → ℚ → Holding
exact_fill h side qty price =
    let delta = exact_delta side qty in
    if is_adding h.size delta then added h delta qty price else reduced h delta qty price

-- Realized PnL with the open portion marked at a price.
unfoldable pub value : Holding → ℚ → ℚ
value h mark = h.realized +ℚ (mark -ℚ h.entry) *ℚ h.size

-- What buying or selling at `price` and marking at `mark` earns.
abbrev pub gain : ℚ → ℚ → ℚ → ℚ
gain delta price mark = delta *ℚ (mark -ℚ price)
