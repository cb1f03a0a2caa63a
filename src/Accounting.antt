-- ===== src/Accounting.antt =====
-- engine/trading/accounting.py: PnL, fees and equity, per strategy and for the portfolio.
pub mod Costs
use capital.Prelude.{
  ℕ, ◌+◌, String, ◌==◌, Bool, not, ◌&&◌, List, [], ◌∷◌, ◌++◌, map, select, length, sort_by,
  take_last, sorted_names, lookup, or_else, if◌then◌else◌,
}
use capital.Rational.{ℚ, of_ℕ}
use capital.Rational.Order.{lt?}
use capital.Context.{Context, quotient, maximum, sum, ◌⊕◌, ◌⊖◌, ◌⊗◌}
use capital.Models.{Position, is_flat, Trade, EquitySnapshot, Database, Time}
use capital.Effects.{ok}
use capital.Effects.Stateful.{Action}
use capital.Portfolio.Positions.{unrealized_pnl}
use capital.Portfolio.Allocation.{find_allocation, allocated_or_zero}

abbrev pub MarkPrices : Type 0
MarkPrices = List (String × ℚ)

pub record StrategySummary : Type 0 where
  pub strategy : String
  pub allocated : ℚ
  pub realized_pnl : ℚ
  pub unrealized_pnl : ℚ
  pub fees : ℚ
  pub net_pnl : ℚ
  pub open_positions : ℕ

pub record PortfolioSummary : Type 0 where
  pub total_allocated : ℚ
  pub realized_pnl : ℚ
  pub unrealized_pnl : ℚ
  pub total_fees : ℚ
  pub net_pnl : ℚ
  pub equity : ℚ
  pub deployed_capital : ℚ
  pub idle_capital : ℚ
  pub open_positions : ℕ
  pub strategies : List StrategySummary

pub record CostSummary : Type 0 where
  pub total_fees : ℚ
  pub fees_by_market : List (String × ℚ)
  pub traded_volume : ℚ
  pub fee_pct_of_volume : ℚ

abbrev pub is_open : Position → Bool
is_open p = not (is_flat p.side) && lt? (of_ℕ 0) p.qty

abbrev pub total : List ℕ → ℕ
total [] = 0
total (n ∷ ns) = n + total ns

-- `mark_prices.get(p.symbol, p.entry_price)`
abbrev pub mark_of : MarkPrices → Position → ℚ
mark_of marks p = or_else p.entry_price (lookup p.symbol marks)

abbrev pub positions_of : String → Database → List Position
positions_of strategy db = select (λ p. p.strategy == strategy) db.positions

-- Every strategy with a position or an allocation row, once, in order.
abbrev pub strategy_names : Database → List String
strategy_names db =
    sorted_names (map (λ p. p.strategy) db.positions ++ map (λ a. a.strategy) db.allocations)

module _ ⦃c : Context⦄ where
  abbrev pub realized_of : List Position → ℚ
  realized_of ps = sum (map (λ p. p.realized_pnl) ps)

  abbrev pub fees_of : List Position → ℚ
  fees_of ps = sum (map (λ p. p.fees_paid) ps)

  abbrev pub unrealized_of : MarkPrices → List Position → ℚ
  unrealized_of marks ps = sum (map (λ p. unrealized_pnl p (mark_of marks p)) (select is_open ps))

  abbrev pub deployed_of : List Position → ℚ
  deployed_of ps = sum (map (λ p. p.qty ⊗ p.entry_price) (select is_open ps))

  unfoldable pub strategy_summary : MarkPrices → Database → String → StrategySummary
  unfolding unrealized_pnl
  strategy_summary marks db strategy =
      let ps = positions_of strategy db in
      record {
        strategy = strategy;
        allocated = allocated_or_zero (find_allocation strategy db);
        realized_pnl = realized_of ps;
        unrealized_pnl = unrealized_of marks ps;
        fees = fees_of ps;
        net_pnl = realized_of ps ⊕ unrealized_of marks ps ⊖ fees_of ps;
        open_positions = length (select is_open ps);
      }

  abbrev pub summarise : List StrategySummary → List Position → PortfolioSummary
  summarise ss ps =
      let allocated = sum (map (λ s. s.allocated) ss) in
      let realized = sum (map (λ s. s.realized_pnl) ss) in
      let unreal = sum (map (λ s. s.unrealized_pnl) ss) in
      let fees = sum (map (λ s. s.fees) ss) in
      let net = realized ⊕ unreal ⊖ fees in
      let deployed = deployed_of ps in
      record {
        total_allocated = allocated;
        realized_pnl = realized;
        unrealized_pnl = unreal;
        total_fees = fees;
        net_pnl = net;
        equity = allocated ⊕ net;
        deployed_capital = deployed;
        idle_capital = maximum (allocated ⊖ deployed) (of_ℕ 0);
        open_positions = total (map (λ s. s.open_positions) ss);
        strategies = ss;
      }

  unfoldable pub portfolio_summary : MarkPrices → Database → PortfolioSummary
  unfolding strategy_summary
  portfolio_summary marks db =
      summarise (map (strategy_summary marks db) (strategy_names db)) db.positions

  -- The row as it reads once written.
  abbrev pub snapshot_of : PortfolioSummary → Time → EquitySnapshot
  snapshot_of s now = record {
    ts = now;
    equity = c.column s.equity;
    realized_pnl = c.column s.realized_pnl;
    unrealized_pnl = c.column s.unrealized_pnl;
    fees = c.column s.total_fees;
    net_pnl = c.column s.net_pnl;
  }

  unfoldable pub record_equity_snapshot : MarkPrices → Time → Action Database EquitySnapshot
  unfolding portfolio_summary
  record_equity_snapshot marks now db =
      let snap = snapshot_of (portfolio_summary marks db) now in
      (ok snap, record db { snapshots = db.snapshots ++ snap ∷ [] })

  -- `fees[market] = fees.get(market, Decimal(0)) + fee`
  abbrev pub add_fee : String → ℚ → List (String × ℚ) → List (String × ℚ)
  add_fee market fee [] = (market, of_ℕ 0 ⊕ fee) ∷ []
  add_fee market fee ((m, f) ∷ rest) =
      if m == market then (m, f ⊕ fee) ∷ rest else (m, f) ∷ add_fee market fee rest

  abbrev pub Costs : Type 0
  Costs = List (String × ℚ) × ℚ × ℚ

  abbrev pub add_cost : Costs → Trade → Costs
  add_cost (fees, all, volume) t =
      (add_fee t.market t.fee fees, all ⊕ t.fee, volume ⊕ t.quantity ⊗ t.price)

  abbrev pub costs_from : Costs → List Trade → Costs
  costs_from acc [] = acc
  costs_from acc (t ∷ ts) = costs_from (add_cost acc t) ts

  unfoldable pub cost_summary : Database → CostSummary
  cost_summary db =
      let (fees, all, volume) = costs_from ([], of_ℕ 0, of_ℕ 0) db.trades in
      record {
        total_fees = all;
        fees_by_market = fees;
        traded_volume = volume;
        fee_pct_of_volume = if lt? (of_ℕ 0) volume then quotient all volume ⊗ of_ℕ 100 else of_ℕ 0;
      }

-- The latest `limit` snapshots, oldest first.
unfoldable pub equity_history : ℕ → Database → List EquitySnapshot
equity_history limit db = take_last limit (sort_by (λ s. s.ts) db.snapshots)
