-- ===== src/Portfolio/Fills/Worth.antt =====
-- engine/trading/portfolio.py: what a fill does to the marked value of a position.
use capital.Prelude.{◌≡◌, ap, ◌∙◌}
use capital.Rational.{ℚ, of_ℕ, ◌+ℚ◌}
use capital.Rational.Order.{◌<ℚ◌}
use capital.Context.{Context, IsRounding}
use capital.Models.{Position, FillSide, Time}
use capital.Effects.{ok}
use capital.Portfolio.Fills.{fold_fill}
use capital.Portfolio.Fills.Exact.{value, gain, exact_delta, exact_fill}
use capital.Portfolio.Fills.Exact.Value.{value-exact_fill}
use capital.Portfolio.Fills.Refinement.{
  FillFits, IsValid, holding_of, position_at, fold_fill-refines, holding_of-position_at,
}

-- Where the context holds the numbers on the way, a fill of a positive quantity gives a valid row,
-- whose realized PnL plus marked open portion is, at every mark, that of the row before plus the
-- signed quantity times the move from the fill's price to the mark: averaging, reducing, closing
-- and flipping create no money and lose none.
pub fold_fill-value :
    ⦃c : Context⦄ (r : IsRounding c.round) (p : Position) (side : FillSide) (qty price fee mark : ℚ)
    (now : Time)
    → of_ℕ 0 <ℚ qty
    → FillFits p side qty price fee
    → (q : Position) × ((fold_fill p side qty price fee now ≡ ok q)
        × (IsValid q
            × (value (holding_of q) mark
                ≡ value (holding_of p) mark +ℚ gain (exact_delta side qty) price mark)))
fold_fill-value r p side qty price fee mark now pos fits =
    let h = exact_fill (holding_of p) side qty price in
    let (same, valid) = holding_of-position_at p h (p.fees_paid +ℚ fee) now in
    (
      position_at p h (p.fees_paid +ℚ fee) now,
      (
        fold_fill-refines r p side qty price fee now pos fits,
        (
          valid,
          ap (λ k. value k mark) same ∙ value-exact_fill (holding_of p) side qty price mark pos,
        ),
      ),
    )
