-- ===== src/Engine/Controls.antt =====
-- engine/trading/engine.py: `register`, `start`, `stop`, `_prune` and `flatten`. The scheduler is
-- outside: it calls `tick`, one at a time.
use capital.Prelude.{ℕ, ◌+◌, String, true, false, some, List, [], ◌∷◌, ◌++◌, lookup, or_else}
use capital.Rational.{ℚ}
use capital.Models.{Position, Order, Fill, Time}
use capital.Effects.{Result, ok, err, execution_error}
use capital.Effects.Stateful.{Action, ◌>>=◌}
use capital.Executors.{Executor}
use capital.Portfolio.Positions.{list_positions}
use capital.Risk.{closing_side}
use capital.Ops.Retention.{prune_all}
use capital.Engine.{Engine, Runner, World, with_db, on_db, ask}

abbrev pub register : Runner → Engine → Engine
register s e = record e { strategies = e.strategies ++ s ∷ [] }

abbrev pub stop_engine : World → World
stop_engine w = record w { stopping = true }

-- `start` while no scheduler runs.
abbrev pub start_engine : World → World
start_engine w = record w { stopping = false }

unfoldable pub prune : ℕ → ℕ → Time → World → World
unfolding prune_all
prune candle_days equity_days now w = with_db (prune_all candle_days equity_days now w.db).1 w

-- The order of the manual close, addressed to the strategy by its name.
abbrev pub flatten_order : String → Position → Order
flatten_order strategy p = record {
  strategy = strategy;
  market = p.market;
  symbol = p.symbol;
  side = closing_side p.side;
  quantity = p.qty;
}

-- `self._last_prices.get(pos.symbol, pos.entry_price)`
abbrev pub flatten_price : List (String × ℚ) → Position → ℚ
flatten_price prices p = or_else p.entry_price (lookup p.symbol prices)

-- A fill counts; a refused order is skipped; another exception ends the loop.
abbrev pub count_closed : ℕ → (ℕ → Action World ℕ) → Result Fill × World → Result ℕ × World
count_closed n next (ok fill, w) = next (n + 1) w
count_closed n next (err execution_error, w) = next n w
count_closed n next (err x, w) = (err x, w)

abbrev pub close_all : Executor → String → Time → List Position → ℕ → Action World ℕ
close_all executor strategy now [] n w = (ok n, w)
close_all executor strategy now (p ∷ ps) n w =
    count_closed n (close_all executor strategy now ps)
      (on_db (executor.execute (flatten_order strategy p) (flatten_price w.last_prices p) now) w)

unfoldable pub flatten : Engine → String → Time → Action World ℕ
unfolding list_positions
flatten e strategy now = do
  executor ← ask e.resolve_executor
  positions ← ask (λ db. ok (list_positions (some strategy) true db))
  close_all executor strategy now positions 0
