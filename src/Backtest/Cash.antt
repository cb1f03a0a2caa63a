-- ===== src/Backtest/Cash.antt =====
-- What the trade log of a backtest earns, and the fill of a backtest as an exact fill.
use capital.Prelude.{◌≡◌, refl, sym, ◌∙◌, Bool-cases, inl, inr, List, [], ◌∷◌, ◌++◌}
use capital.Rational.{ℚ, of_ℕ, ◌+ℚ◌}
use capital.Rational.Ring.{+ℚ_assoc, +ℚ-zero, zero-+ℚ}
use capital.Rational.Order.{◌<ℚ◌}
use capital.Rational.Abs.{abs, abs-nonneg, +ℚ-pos_of_nonneg}
use capital.Context.{Context, Fits, absolute}
use capital.Models.{FillSide, buy, sell}
use capital.Effects.{ok}
use capital.Portfolio.Fills.Exact.{Holding, exact_fill, exact_delta, is_adding, gain}
use capital.Backtest.{BacktestTrade, SimPosition, apply, booked_by, delta_of}

-- What the fills of the log earn at a mark.
abbrev pub earned : List BacktestTrade → ℚ → ℚ
earned [] mark = of_ℕ 0
earned (t ∷ ts) mark = gain (exact_delta t.side t.quantity) t.price mark +ℚ earned ts mark

-- The fees of the log.
abbrev pub fees_in : List BacktestTrade → ℚ
fees_in [] = of_ℕ 0
fees_in (t ∷ ts) = t.fee +ℚ fees_in ts

pub earned-append :
    (ts : List BacktestTrade) (t : BacktestTrade) (mark : ℚ)
    → earned (ts ++ t ∷ []) mark
      ≡ earned ts mark +ℚ gain (exact_delta t.side t.quantity) t.price mark
earned-append [] t mark = +ℚ-zero _ ∙ sym (zero-+ℚ _)
earned-append (u ∷ us) t mark = rw (earned-append us t mark) (sym (+ℚ_assoc _ _ _))

pub fees_in-append :
    (ts : List BacktestTrade) (t : BacktestTrade) → fees_in (ts ++ t ∷ []) ≡ fees_in ts +ℚ t.fee
fees_in-append [] t = +ℚ-zero _ ∙ sym (zero-+ℚ _)
fees_in-append (u ∷ us) t = rw (fees_in-append us t) (sym (+ℚ_assoc _ _ _))

abbrev pub holding_of : SimPosition → Holding
holding_of p = record { size = p.qty; entry = p.entry_price; realized = p.realized_pnl }

abbrev pub held_as : Holding → SimPosition
held_as h = record { qty = h.size; entry_price = h.entry; realized_pnl = h.realized }

module _ ⦃c : Context⦄ where
  -- A context that holds every number as it is.
  abbrev pub Exact : Type 0
  Exact = (a : ℚ) → Fits a

  module _ (exact : Exact) where
    absolute-exact : (a : ℚ) → absolute a ≡ abs a
    absolute-exact a = exact _

    delta_of-exact : (side : FillSide) (qty : ℚ) → delta_of side qty ≡ exact_delta side qty
    delta_of-exact buy qty = refl
    delta_of-exact sell qty = exact _

    -- In such a context a fill of a positive quantity succeeds, and is the exact fill.
    pub apply-exact :
        (p : SimPosition) (side : FillSide) (qty price : ℚ)
        → of_ℕ 0 <ℚ qty
        → (booked : ℚ) × (apply p side qty price
            ≡ ok (booked, held_as (exact_fill (holding_of p) side qty price)))
    unfolding apply exact_fill
    apply-exact p side qty price pos =
        let d : ℚ = exact_delta side qty in
        rw (delta_of-exact side qty) (elim (Bool-cases (is_adding p.qty d)) [
          | inl add ↦ (
            of_ℕ 0,
            rw add (simp (exact, +ℚ-pos_of_nonneg (abs p.qty) qty (abs-nonneg p.qty) pos)),
          )
          | inr red ↦ (booked_by p qty price, rw red (simp (exact)))
        ])
