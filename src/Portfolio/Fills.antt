-- ===== src/Portfolio/Fills.antt =====
-- engine/trading/portfolio.py: `apply_fill` and `record_fill`.
pub mod Exact
pub mod Refinement
pub mod Frame
pub mod Rows
pub mod Log
pub mod Worth
pub mod History
use capital.Prelude.{
  ℕ, String, ◌≡◌, Bool, true, false, not, Option, none, some, List, [], ◌∷◌, ◌++◌, if◌then◌else◌,
  ◌||◌,
}
use capital.Rational.{ℚ, of_ℕ, le?, ◌+ℚ◌, ◌-ℚ◌, ◌*ℚ◌, neg, ◌/ℚ◌}
use capital.Rational.Order.{eq?, lt?}
use capital.Context.{Context, minus, absolute, divide, minimum, ◌⊕◌, ◌⊖◌, ◌⊗◌}
use capital.Models.{
  Position, PositionSide, long, short, flat, FillSide, buy, sell, is_buy, Database, Time, Order,
  Fill, Trade,
}
use capital.Effects.{Result, ok, err, value_error}
use capital.Effects.Stateful.{Action, ◌>>=◌, ◌>>◌, raise_if, lift, modify}
use capital.Effects.Fallible as F
use capital.Portfolio.Positions.{signed_qty, direction, get_or_create_position, replace_position}

-- `(a > 0) == (b > 0)`
abbrev pub same_sign : ℚ → ℚ → Bool
same_sign a b = if lt? (of_ℕ 0) a then lt? (of_ℕ 0) b else not (lt? (of_ℕ 0) b)

abbrev pub side_of : ℚ → PositionSide
side_of signed = if lt? (of_ℕ 0) signed then long else (if lt? signed (of_ℕ 0) then short else flat)

abbrev pub opened : Bool → Option Time → Time → Option Time
opened true before now = none
opened false (some t) now = some t
opened false none now = some now

module _ ⦃c : Context⦄ where
  -- `qty if side is FillSide.buy else -qty`
  abbrev pub signed_delta : FillSide → ℚ → ℚ
  signed_delta buy qty = qty
  signed_delta sell qty = minus qty

  -- `signed == 0 or (signed > 0) == (delta > 0)`
  abbrev pub same_direction : ℚ → ℚ → Bool
  same_direction signed delta = eq? signed (of_ℕ 0) || same_sign signed delta

  -- The volume-weighted average entry of an opening or adding fill.
  abbrev pub average_entry : ℚ → ℚ → ℚ → ℚ → Result ℚ
  average_entry signed entry qty price =
      divide (absolute signed ⊗ entry ⊕ qty ⊗ price) (absolute signed ⊕ qty)

  -- The PnL that a reducing, closing or flipping fill books.
  abbrev pub booked_pnl : ℚ → ℚ → ℚ → ℚ → ℚ
  booked_pnl signed entry qty price =
      (price ⊖ entry) ⊗ minimum qty (absolute signed) ⊗ direction (lt? (of_ℕ 0) signed)

  -- The entry price that such a fill leaves.
  abbrev pub reduced_entry : ℚ → ℚ → ℚ → ℚ → ℚ
  reduced_entry signed delta entry price =
      if lt? (absolute signed) (absolute delta)
      then price
      else (if eq? (signed ⊕ delta) (of_ℕ 0) then of_ℕ 0 else entry)

  -- The last assignments of `apply_fill`: size, side and times.
  abbrev pub settle : Position → ℚ → ℚ → ℚ → ℚ → Time → Position
  settle p entry realized fees new_signed now = record p {
    entry_price = entry;
    realized_pnl = realized;
    fees_paid = fees;
    qty = absolute new_signed;
    side = side_of new_signed;
    opened_at = opened (eq? new_signed (of_ℕ 0)) p.opened_at now;
    updated_at = some now;
  }

  -- The body of `apply_fill` on the row, before it is written.
  unfoldable pub fold_fill : Position → FillSide → ℚ → ℚ → ℚ → Time → Result Position
  fold_fill p side qty price fee now =
      let signed = signed_qty p in
      let delta = signed_delta side qty in
      let new_signed = signed ⊕ delta in
      let fees = p.fees_paid ⊕ fee in
      if same_direction signed delta
      then F.◌>>=◌ (average_entry signed p.entry_price qty price)
          (λ entry. ok (settle p entry p.realized_pnl fees new_signed now))
      else ok (
          settle p (reduced_entry signed delta p.entry_price price)
            (p.realized_pnl ⊕ booked_pnl signed p.entry_price qty price) fees new_signed now)

  -- What a row reads as once it has been written.
  abbrev pub stored : Position → Position
  stored p = record p {
    qty = c.column p.qty;
    entry_price = c.column p.entry_price;
    realized_pnl = c.column p.realized_pnl;
    fees_paid = c.column p.fees_paid;
  }

  -- `session.add(pos); session.commit(); session.refresh(pos)`
  abbrev pub save_position : Position → Action Database Position
  save_position p db =
      (ok (stored p), record db { positions = replace_position (stored p) db.positions })

  unfoldable pub apply_fill :
      String → String → String → FillSide → ℚ → ℚ → ℚ → Time → Action Database Position
  unfolding get_or_create_position fold_fill replace_position
  apply_fill strategy market symbol side qty price fee now = do
    raise_if (le? qty (of_ℕ 0)) value_error
    p ← get_or_create_position strategy market symbol
    q ← lift (fold_fill p side qty price fee now)
    save_position q

  -- The row that `record_fill` appends, as it reads once written.
  abbrev pub new_trade : String → Order → ℚ → ℚ → ℚ → ℚ → Option String → Time → Trade
  new_trade mode order qty price fee realized client_order_id now = record {
    strategy = order.strategy;
    market = order.market;
    symbol = order.symbol;
    side = order.side;
    quantity = c.column qty;
    price = c.column price;
    fee = c.column fee;
    realized_pnl = c.column realized;
    mode = mode;
    client_order_id = client_order_id;
    executed_at = now;
  }

  abbrev pub new_fill : Order → ℚ → ℚ → ℚ → ℚ → Fill
  new_fill order qty price fee realized = record {
    strategy = order.strategy;
    market = order.market;
    symbol = order.symbol;
    side = order.side;
    quantity = qty;
    price = price;
    fee = fee;
    realized_pnl = realized;
  }

  abbrev pub add_trade : Trade → Database → Database
  add_trade t db = record db { trades = db.trades ++ t ∷ [] }

  unfoldable pub record_fill :
      String → Order → ℚ → ℚ → ℚ → Option String → Time → Action Database Fill
  unfolding get_or_create_position apply_fill
  record_fill mode order qty price fee client_order_id now = do
    before ← get_or_create_position order.strategy order.market order.symbol
    after ← apply_fill order.strategy order.market order.symbol order.side qty price fee now
    let realized = after.realized_pnl ⊖ before.realized_pnl
    modify (add_trade (new_trade mode order qty price fee realized client_order_id now))
    λ db. (ok (new_fill order qty price fee realized), db)
