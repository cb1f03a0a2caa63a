-- ===== src/Backtest/Mirror.antt =====
-- engine/backtest/runner.py mirrors engine/trading/portfolio.py, as its comment says: the position
-- of a backtest and the row of the ledger take one and the same fill.
use capital.Prelude.{◌≡◌, refl, sym, ap, ◌∙◌, Bool-cases, inl, inr}
use capital.Rational.{ℚ, of_ℕ, neg}
use capital.Rational.Ring.{neg-neg}
use capital.Rational.Order.{◌<ℚ◌, ≤ℚ_of_lt, ≤ℚ_refl}
use capital.Rational.Abs.{sign_cases}
use capital.Context.{Context, IsRounding, minus, absolute}
use capital.Models.{Position, long, short, flat, FillSide, buy, sell, Time}
use capital.Effects.{Result, ok, err}
use capital.Effects.Fallible.{Result-cases}
use capital.Portfolio.Positions.{signed_qty}
use capital.Portfolio.Fills.{
  fold_fill, same_direction, signed_delta, average_entry, settle, side_of,
}
use capital.Backtest.{SimPosition, apply, delta_of}

module _ ⦃c : Context⦄ where
  -- A row as the backtest would hold it.
  abbrev pub view : Position → SimPosition
  view p = record { qty = signed_qty p; entry_price = p.entry_price; realized_pnl = p.realized_pnl }

  abbrev pub viewed : Result Position → Result SimPosition
  viewed (ok p) = ok (view p)
  viewed (err e) = err e

  abbrev pub outcome : Result (ℚ × SimPosition) → Result SimPosition
  outcome (ok (booked, p)) = ok p
  outcome (err e) = err e

  delta-mirrors : (side : FillSide) (qty : ℚ) → delta_of side qty ≡ signed_delta side qty
  delta-mirrors buy qty = refl
  delta-mirrors sell qty = refl

  module _ (r : IsRounding c.round) where
    minus-absolute : (x : ℚ) → c.round x <ℚ of_ℕ 0 → minus (absolute (c.round x)) ≡ c.round x
    minus-absolute x h =
        ap minus (rw (absolute, h) (r.odd (c.round x) ∙ ap neg (r.idem x)))
        ∙ (r.odd (neg (c.round x)) ∙ (ap neg (r.odd (c.round x)) ∙ (neg-neg _ ∙ r.idem x)))

    -- The size and the side that a fill leaves read back as the signed size.
    signed-settle :
        (x : ℚ)
        → elim (side_of (c.round x)) [
          | long ↦ absolute (c.round x)
          | short ↦ minus (absolute (c.round x))
          | flat ↦ of_ℕ 0
        ]
          ≡ c.round x
    signed-settle x = elim (sign_cases (c.round x)) [
      | inl h ↦ rw h (rw (absolute, ≤ℚ_of_lt _ _ h) (r.idem x))
      | inr (inl h) ↦ rw h (rw (≤ℚ_refl (of_ℕ 0)))
      | inr (inr h) ↦ rw (≤ℚ_of_lt _ _ h) (rw (h) (minus-absolute x h))
    ]

    signed_qty-settle :
        (p : Position) (entry realized fees x : ℚ) (now : Time)
        → signed_qty (settle p entry realized fees (c.round x) now) ≡ c.round x
    unfolding signed_qty
    signed_qty-settle p entry realized fees x now = signed-settle x

    view-settle :
        (p : Position) (entry realized fees x : ℚ) (now : Time)
        → view (settle p entry realized fees (c.round x) now)
          ≡ record { qty = c.round x; entry_price = entry; realized_pnl = realized }
    view-settle p entry realized fees x now i = record {
      qty = signed_qty-settle p entry realized fees x now i;
      entry_price = entry;
      realized_pnl = realized;
    }

    -- `_SimPosition.apply` mirrors `apply_fill`: seen as a backtest position, the row that a fill
    -- leaves is the position that `apply` leaves, and one raises where the other does; for every
    -- rounding of the decimal context, whatever the quantity, the price and the fee.
    pub apply-fold_fill :
        (p : Position) (side : FillSide) (qty price fee : ℚ) (now : Time)
        → outcome (apply (view p) side qty price) ≡ viewed (fold_fill p side qty price fee now)
    unfolding apply fold_fill
    apply-fold_fill p side qty price fee now =
        let s : ℚ = signed_qty p in
        let d : ℚ = signed_delta side qty in
        rw (delta-mirrors side qty) (elim (Bool-cases (same_direction s d)) [
          | inl add ↦ rw add (elim (Result-cases (average_entry s p.entry_price qty price)) [
            | inl (entry, e) ↦ rw e (ap ok (sym (view-settle p entry _ _ _ now)))
            | inr (x, e) ↦ rw e refl
          ])
          | inr red ↦ rw red (ap ok (sym (view-settle p _ _ _ _ now)))
        ])
