-- ===== src/Risk.antt =====
-- engine/trading/risk.py: the limits that every order passes before it reaches an executor.
pub mod Stops
pub mod Gate
pub mod Reducing
use capital.Prelude.{
  ℕ, ◌-◌, ◌%◌, String, ◌≡◌, Bool, true, false, not, ◌&&◌, ◌||◌, Option, none, some, List, [], ◌∷◌,
  map, select, sort_by, last_or, leb, if◌then◌else◌,
}
use capital.Rational.{ℚ, of_ℕ, le?}
use capital.Rational.Order.{lt?}
use capital.Context.{Context, minus, absolute, quotient, maximum, sum, ◌⊕◌, ◌⊖◌, ◌⊗◌}
use capital.Models.{
  Position, PositionSide, long, short, flat, is_flat, is_long, FillSide, buy, sell, Order, Trade,
  EquitySnapshot, Database, Time,
}
use capital.Portfolio.Positions.{signed_qty, unrealized_pnl}
use capital.Portfolio.Fills.{signed_delta}

pub record RiskManager : Type 0 where
  pub max_position_notional : ℚ
  pub stop_loss_pct : ℚ
  pub take_profit_pct : ℚ
  pub daily_loss_limit : ℚ
  pub max_drawdown_pct : ℚ

-- Why the kill switch is on, with the figure of its message.
pub data HaltReason : Type 0 where
  daily_loss : ℚ → HaltReason
  drawdown : ℚ → HaltReason

-- The order that closes a position.
abbrev pub closing_side : PositionSide → FillSide
closing_side side = if is_long side then sell else buy

abbrev pub closing_order : Position → Order
closing_order p = record {
  strategy = p.strategy;
  market = p.market;
  symbol = p.symbol;
  side = closing_side p.side;
  quantity = p.qty;
}

-- Microseconds of a day, and the midnight that a time follows.
abbrev pub day : Time
day = 86_400_000_000

abbrev pub start_of_day : Time → Time
start_of_day now = now - now % day

-- `max` of a series that starts with a given value.
abbrev pub peak_from : ℚ → List ℚ → ℚ
peak_from top [] = top
peak_from top (x ∷ xs) = peak_from (maximum top x) xs

abbrev pub equities : Database → List ℚ
equities db = map (λ s. s.equity) (sort_by (λ s. s.ts) db.snapshots)

module _ ⦃c : Context⦄ where
  -- `hit_sl or hit_tp`
  abbrev pub is_stopped : RiskManager → ℚ → Bool
  is_stopped risk pnl_pct =
      (lt? (of_ℕ 0) risk.stop_loss_pct && le? pnl_pct (minus risk.stop_loss_pct))
      || (lt? (of_ℕ 0) risk.take_profit_pct && le? risk.take_profit_pct pnl_pct)

  abbrev pub pnl_percent : Position → ℚ → ℚ → ℚ
  pnl_percent p mark basis = quotient (unrealized_pnl p mark) basis ⊗ of_ℕ 100

  unfoldable pub stop_order : RiskManager → Position → ℚ → Option Order
  unfolding unrealized_pnl
  stop_order risk p mark =
      let basis = p.entry_price ⊗ p.qty in
      if is_flat p.side || le? p.qty (of_ℕ 0) || le? basis (of_ℕ 0)
      then none
      else (if is_stopped risk (pnl_percent p mark basis) then some (closing_order p) else none)

  unfoldable pub cap_order_size : RiskManager → Order → ℚ → Option Order
  cap_order_size risk order price =
      let max_qty = quotient risk.max_position_notional price in
      if le? risk.max_position_notional (of_ℕ 0)
      then some order
      else (if le? price (of_ℕ 0)
          then none
          else (if le? order.quantity max_qty
              then some order
              else some (record order { quantity = max_qty })))

  unfoldable pub daily_realized_loss : Time → Database → ℚ
  daily_realized_loss now db = sum (
      map (λ t. t.realized_pnl ⊖ t.fee)
        (select (λ t. leb (start_of_day now) t.executed_at) db.trades))

  -- The drawdown of the last of some equities from the greatest.
  abbrev pub drawdown_of : List ℚ → ℚ
  drawdown_of [] = of_ℕ 0
  drawdown_of (e ∷ es) =
      let peak = peak_from e es in
      let latest = last_or e es in
      if le? peak (of_ℕ 0)
      then of_ℕ 0
      else maximum (quotient (peak ⊖ latest) peak ⊗ of_ℕ 100) (of_ℕ 0)

  unfoldable pub equity_drawdown_pct : Database → ℚ
  equity_drawdown_pct db = drawdown_of (equities db)

  abbrev pub drawdown_check : RiskManager → Database → Option HaltReason
  drawdown_check risk db =
      let fall = equity_drawdown_pct db in
      if lt? (of_ℕ 0) risk.max_drawdown_pct && le? risk.max_drawdown_pct fall
      then some (drawdown fall)
      else none

  unfoldable pub kill_switch_tripped : RiskManager → Time → Database → Option HaltReason
  unfolding daily_realized_loss equity_drawdown_pct
  kill_switch_tripped risk now db =
      let loss = daily_realized_loss now db in
      if lt? (of_ℕ 0) risk.daily_loss_limit && le? loss (minus risk.daily_loss_limit)
      then some (daily_loss loss)
      else drawdown_check risk db

  unfoldable pub increases_exposure : Order → Position → Bool
  unfolding signed_qty
  increases_exposure order p =
      lt? (absolute (signed_qty p))
        (absolute (signed_qty p ⊕ signed_delta order.side order.quantity))

  abbrev pub is_halted : Option HaltReason → Bool
  is_halted (some reason) = true
  is_halted none = false

  abbrev pub gate : RiskManager → Time → Database → Position → Option Order → Option Order
  gate risk now db p none = none
  gate risk now db p (some sized) =
      if increases_exposure sized p && is_halted (kill_switch_tripped risk now db)
      then none
      else some sized

  unfoldable pub review : RiskManager → Time → Database → Order → Position → ℚ → Option Order
  unfolding cap_order_size increases_exposure kill_switch_tripped
  review risk now db order p price = gate risk now db p (cap_order_size risk order price)
