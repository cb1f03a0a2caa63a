-- ===== src/Backtest.antt =====
-- engine/backtest/runner.py: a strategy replayed over candles, in memory. The square root of a
-- variance is a method of `Decimal`, which `root` stands for.
pub mod Mirror
pub mod Cash
pub mod Ledger
pub mod Scores
use capital.Prelude.{
  ℕ, ◌+◌, ◌-◌, String, Bool, true, false, not, ◌&&◌, ◌||◌, Option, none, some, List, [], ◌∷◌, ◌++◌,
  map, select, length, ltb, leb, last_or, if◌then◌else◌,
}
use capital.Rational.{ℚ, of_ℕ, of_fraction, le?}
use capital.Rational.Order.{lt?, eq?}
use capital.Context.{
  Context, minus, absolute, divide, quotient, maximum, minimum, sum, ◌⊕◌, ◌⊖◌, ◌⊗◌,
}
use capital.Models.{
  Candle, Position, PositionSide, long, short, flat, FillSide, buy, sell, Order, Time,
}
use capital.Effects.{Result, ok, err}
use capital.Effects.Fallible.{◌>>=◌}
use capital.Portfolio.Positions.{new_position, direction}
use capital.Strategies.{Strategy, StrategyContext}

pub record FeeModel : Type 0 where
  pub slippage_bps : ℚ
  pub fee_rate : ℚ
  pub funding_rate : ℚ

-- 2 basis points, a commission of 0.001, no funding.
abbrev pub default_fees : FeeModel
default_fees = record {
  slippage_bps = of_ℕ 2;
  fee_rate = of_fraction (1, 0, 999);
  funding_rate = of_ℕ 0;
}

pub record BacktestTrade : Type 0 where
  pub time : Time
  pub side : FillSide
  pub quantity : ℚ
  pub price : ℚ
  pub fee : ℚ
  pub realized_pnl : ℚ

pub record BacktestMetrics : Type 0 where
  pub total_return_pct : ℚ
  pub win_rate_pct : ℚ
  pub max_drawdown_pct : ℚ
  pub sharpe : ℚ
  pub trades : ℕ
  pub wins : ℕ
  pub losses : ℕ

abbrev pub Curve : Type 0
Curve = List (Time × ℚ)

pub record BacktestResult : Type 0 where
  pub initial_capital : ℚ
  pub final_equity : ℚ
  pub net_pnl : ℚ
  pub total_fees : ℚ
  pub equity_curve : Curve
  pub trades : List BacktestTrade
  pub metrics : BacktestMetrics

-- `_SimPosition`: a signed position with its average entry and its realized PnL.
pub record SimPosition : Type 0 where
  pub qty : ℚ
  pub entry_price : ℚ
  pub realized_pnl : ℚ

-- What the loop of `run_backtest` carries from bar to bar.
pub record Run : Type 0 where
  pub pos : SimPosition
  pub trades : List BacktestTrade
  pub equity_curve : Curve
  pub total_fees : ℚ
  pub total_funding : ℚ

abbrev pub start : Run
start = record {
  pos = record { qty = of_ℕ 0; entry_price = of_ℕ 0; realized_pnl = of_ℕ 0 };
  trades = [];
  equity_curve = [];
  total_fees = of_ℕ 0;
  total_funding = of_ℕ 0;
}

-- `equity_curve[-1][1] if equity_curve else initial`
abbrev pub final_of : ℚ → Curve → ℚ
final_of initial [] = initial
final_of initial ((t, e) ∷ rest) = final_of e rest

module _ ⦃c : Context⦄ where
  abbrev pub delta_of : FillSide → ℚ → ℚ
  delta_of buy qty = qty
  delta_of sell qty = minus qty

  abbrev pub adds : ℚ → ℚ → Bool
  adds signed delta =
      eq? signed (of_ℕ 0)
      || (if lt? (of_ℕ 0) signed then lt? (of_ℕ 0) delta else not (lt? (of_ℕ 0) delta))

  -- The branch of `apply` that adds to the position.
  abbrev pub add_to : SimPosition → ℚ → ℚ → ℚ → Result (ℚ × SimPosition)
  add_to p delta qty price = do
    entry ← divide (absolute p.qty ⊗ p.entry_price ⊕ qty ⊗ price) (absolute p.qty ⊕ qty)
    ok (of_ℕ 0, record p { entry_price = entry; qty = p.qty ⊕ delta })

  -- The PnL that the other branch books, and the position that it leaves.
  abbrev pub booked_by : SimPosition → ℚ → ℚ → ℚ
  booked_by p qty price =
      (price ⊖ p.entry_price) ⊗ minimum qty (absolute p.qty) ⊗ direction (lt? (of_ℕ 0) p.qty)

  abbrev pub reduce : SimPosition → ℚ → ℚ → ℚ → SimPosition
  reduce p delta qty price = record {
    realized_pnl = p.realized_pnl ⊕ booked_by p qty price;
    entry_price =
        if lt? (absolute p.qty) (absolute delta)
        then price
        else (if eq? (p.qty ⊕ delta) (of_ℕ 0) then of_ℕ 0 else p.entry_price);
    qty = p.qty ⊕ delta;
  }

  -- `_SimPosition.apply`: the PnL that the fill books, and the position after it.
  unfoldable pub apply : SimPosition → FillSide → ℚ → ℚ → Result (ℚ × SimPosition)
  apply p side qty price =
      if adds p.qty (delta_of side qty)
      then add_to p (delta_of side qty) qty price
      else ok (booked_by p qty price, reduce p (delta_of side qty) qty price)

  -- `_SimPosition.as_model`
  abbrev pub as_model : SimPosition → String → String → String → Position
  as_model p strategy market symbol = record (new_position strategy market symbol) {
    side = if lt? (of_ℕ 0) p.qty then long else (if lt? p.qty (of_ℕ 0) then short else flat);
    qty = absolute p.qty;
    entry_price = p.entry_price;
  }

  abbrev pub unrealized : SimPosition → ℚ → ℚ
  unrealized p price = (price ⊖ p.entry_price) ⊗ p.qty

  -- Slippage moves the fill price against us.
  abbrev pub fill_price : FeeModel → FillSide → ℚ → ℚ
  fill_price fees buy price = price ⊗ (of_ℕ 1 ⊕ quotient fees.slippage_bps (of_ℕ 10_000))
  fill_price fees sell price = price ⊗ (of_ℕ 1 ⊖ quotient fees.slippage_bps (of_ℕ 10_000))

  abbrev pub fee_of : FeeModel → Order → ℚ → ℚ
  fee_of fees order price = price ⊗ order.quantity ⊗ fees.fee_rate

  abbrev pub trade_of : FeeModel → Candle → Order → ℚ → ℚ → BacktestTrade
  trade_of fees candle order price booked = record {
    time = candle.open_time;
    side = order.side;
    quantity = order.quantity;
    price = price;
    fee = fee_of fees order price;
    realized_pnl = booked;
  }

  abbrev pub booked_run : FeeModel → Candle → Order → ℚ → Run → ℚ × SimPosition → Run
  booked_run fees candle order price run (booked, pos) = record run {
    pos = pos;
    trades = run.trades ++ trade_of fees candle order price booked ∷ [];
    total_fees = run.total_fees ⊕ fee_of fees order price;
  }

  -- `if order is not None and order.quantity > 0: ...`
  unfoldable pub fill_bar : FeeModel → Candle → Option Order → Run → Result Run
  unfolding apply
  fill_bar fees candle none run = ok run
  fill_bar fees candle (some order) run =
      let price = fill_price fees order.side candle.close in
      if lt? (of_ℕ 0) order.quantity
      then (do
        after ← apply run.pos order.side order.quantity price
        ok (booked_run fees candle order price run after))
      else ok run

  -- Futures funding of the bar, and the bar's point of the equity curve.
  abbrev pub accrue : FeeModel → Candle → Run → Run
  accrue fees candle run = record run {
    total_funding =
        if not (eq? run.pos.qty (of_ℕ 0)) && not (eq? fees.funding_rate (of_ℕ 0))
        then run.total_funding ⊕ absolute run.pos.qty ⊗ candle.close ⊗ fees.funding_rate
        else run.total_funding;
  }

  abbrev pub equity_of : ℚ → ℚ → Run → ℚ
  equity_of initial price run =
      initial ⊕ run.pos.realized_pnl ⊕ unrealized run.pos price ⊖ run.total_fees ⊖ run.total_funding

  abbrev pub mark : ℚ → Candle → Run → Run
  mark initial candle run = record run {
    equity_curve = run.equity_curve ++ (candle.open_time, equity_of initial candle.close run) ∷ [];
  }

  abbrev pub context_of : Strategy → ℚ → List Candle → Candle → Run → StrategyContext
  context_of strategy initial seen candle run = record {
    candles = seen;
    position = as_model run.pos strategy.name strategy.market strategy.symbol;
    allocation = initial;
    price = candle.close;
  }

  -- The body of the loop, given the candles up to this one.
  unfoldable pub bar : Strategy → FeeModel → ℚ → List Candle → Candle → Run → Result Run
  unfolding fill_bar
  bar strategy fees initial seen candle run = do
    order ← strategy.evaluate (context_of strategy initial seen candle run)
    filled ← fill_bar fees candle order run
    ok (mark initial candle (accrue fees candle filled))

  -- The loop, given the candles that it has passed.
  unfoldable pub replay : Strategy → FeeModel → ℚ → List Candle → List Candle → Run → Result Run
  unfolding bar
  replay strategy fees initial past [] run = ok run
  replay strategy fees initial past (k ∷ ks) run = do
    after ← bar strategy fees initial (past ++ k ∷ []) k run
    replay strategy fees initial (past ++ k ∷ []) ks after

  abbrev pub result_of :
      (ℚ → Curve → List BacktestTrade → BacktestMetrics) → ℚ → Run → BacktestResult
  result_of metrics initial run = record {
    initial_capital = initial;
    final_equity = final_of initial run.equity_curve;
    net_pnl = final_of initial run.equity_curve ⊖ initial;
    total_fees = run.total_fees;
    equity_curve = run.equity_curve;
    trades = run.trades;
    metrics = metrics initial run.equity_curve run.trades;
  }
