-- ===== src/Engine/Tick.antt =====
-- engine/trading/engine.py: `_tick_strategy` and `tick`.
use capital.Prelude.{
  String, ◌==◌, Bool, true, false, Option, none, some, List, [], ◌∷◌, last_or, if◌then◌else◌,
}
use capital.Rational.{ℚ, of_ℕ}
use capital.Context.{Context}
use capital.Models.{Candle, Position, is_buy, Order, Fill, Database, Time}
use capital.Effects.{Result, ok, err, execution_error, llm_error}
use capital.Effects.Stateful.{Action, ◌>>=◌, ◌>>◌, pure, lift, modify, continue}
use capital.Executors.{Executor}
use capital.Portfolio.Positions.{get_or_create_position}
use capital.Portfolio.Allocation.{get_allocation, enforce_allocation}
use capital.Lifecycle.{is_enabled}
use capital.Accounting.{record_equity_snapshot}
use capital.MarketData.Cache.{refresh_venue_candles}
use capital.MarketData.Freshness.{feed_is_stale, codes}
use capital.Settings.{get_strategy_action_mode, set_setting}
use capital.Risk.{stop_order, review}
use capital.Strategies.{StrategyContext, Address}
use capital.Ai.Decisions.{AiStrategy, Decision, Turn, Provider, evaluate, action_value, no_turn}
use capital.Ai.Signals.{Advice, record_signal}
use capital.Engine.{
  Runner, plain, advised, Engine, World, signal_notice, trade_notice, with_db, on_db, ask,
  see_price, notify, llm_cap_reached, record_ai_usage,
}

abbrev pub address_of : Runner → Address
address_of (plain s) = record { name = s.name; market = s.market; symbol = s.symbol }
address_of (advised s) = s.address

abbrev pub timeframe_of : Runner → String
timeframe_of (plain s) = s.timeframe
timeframe_of (advised s) = s.timeframe

abbrev pub side_value : Order → String
side_value order = if is_buy order.side then "buy" else "sell"

-- What a signal says: the decision's words, or the order's where there is no decision.
abbrev pub advice_of : String → Order → ℚ → Option Decision → Advice
advice_of name order price none = record {
  strategy = name;
  symbol = order.symbol;
  market = order.market;
  action = side_value order;
  confidence = of_ℕ 0;
  reasoning = "";
  reference_price = price;
  quantity = order.quantity;
}
advice_of name order price (some d) = record {
  strategy = name;
  symbol = order.symbol;
  market = order.market;
  action = action_value d.action;
  confidence = d.confidence;
  reasoning = d.reasoning;
  reference_price = price;
  quantity = order.quantity;
}

-- `except ExecutionError: return`, and the notice of a fill.
abbrev pub report : String → Result Fill × World → Result (Unit {0}) × World
report name (ok fill, w) = (ok tt, notify (trade_notice name fill) w)
report name (err execution_error, w) = (ok tt, w)
report name (err x, w) = (err x, w)

module _ ⦃c : Context⦄ (e : Engine) where
  -- An order that passed every check, to the executor.
  abbrev pub place : Executor → String → Order → ℚ → Time → Action World (Unit {0})
  place executor name order price now w = report name (on_db (executor.execute order price now) w)

  -- Notify-only: the decision waits for the operator.
  abbrev pub signal : String → Order → ℚ → Option Decision → Time → Action World (Unit {0})
  signal name order price decision now = do
    row ← on_db (record_signal (advice_of name order price decision) now)
    modify (notify (signal_notice name order price row.confidence))

  abbrev pub act : Runner → Executor → Turn → Order → ℚ → Time → Action World (Unit {0})
  act (plain s) executor turn order price now w = place executor s.name order price now w
  act (advised s) executor turn order price now w =
      if get_strategy_action_mode s.address.name w.db.settings == "notify"
      then signal s.address.name order price turn.last_decision now w
      else place executor s.address.name order price now w

  -- The allocation, then the risk manager.
  unfoldable pub vet : Position → ℚ → Order → ℚ → Time → Database → Option Order
  unfolding enforce_allocation review
  vet position allocation order price now db =
      elim (enforce_allocation position allocation order price) [
        | none ↦ none
        | some sized ↦ review e.risk now db sized position price
      ]

  abbrev pub act_on : Runner → Executor → Turn → ℚ → Time → Option Order → Action World (Unit {0})
  act_on s executor turn price now none = pure tt
  act_on s executor turn price now (some order) = act s executor turn order price now

  abbrev pub carry_out :
      Runner → Executor → Position → ℚ → Turn → ℚ → Time → Option Order → Action World (Unit {0})
  carry_out s executor position allocation turn price now none w = (ok tt, w)
  carry_out s executor position allocation turn price now (some order) w =
      act_on s executor turn price now (vet position allocation order price now w.db) w

  -- After `evaluate`: the usage is recorded, then the order is carried out.
  abbrev pub follow : Runner → Executor → Position → ℚ → ℚ → Time → Turn → Action World (Unit {0})
  follow s executor position allocation price now turn = do
    modify (λ w. with_db (record_ai_usage e (address_of s).name turn now w.db) w)
    carry_out s executor position allocation turn price now turn.order

  -- The model is resolved unless the spend cap is reached; a misconfigured one is skipped.
  abbrev pub advise :
      AiStrategy
      → StrategyContext
      → (Turn → Action World (Unit {0}))
      → Result (Option Provider × Option String)
      → Action World (Unit {0})
  advise s ctx next (err llm_error) w = (ok tt, w)
  advise s ctx next (err x) w = (err x, w)
  advise s ctx next (ok (provider, model)) w = continue next (evaluate s provider model ctx, w)

  abbrev pub advise_unless :
      AiStrategy
      → StrategyContext
      → (Turn → Action World (Unit {0}))
      → Bool
      → Action World (Unit {0})
  advise_unless s ctx next true w = (ok tt, w)
  advise_unless s ctx next false w = advise s ctx next (e.resolve_ai w.db s.address.name) w

  abbrev pub decide :
      Runner → StrategyContext → Time → (Turn → Action World (Unit {0})) → Action World (Unit {0})
  decide (plain s) ctx now next = do
    order ← lift (s.evaluate ctx)
    next (record no_turn { order = order })
  decide (advised s) ctx now next = do
    reached ← ask (llm_cap_reached e now)
    advise_unless s ctx next reached

  -- An enabled strategy decides; a disabled one is skipped.
  abbrev pub consider :
      Runner → Executor → List Candle → Position → ℚ → Time → Action World (Unit {0})
  consider s executor candles position price now w =
      let allocation = get_allocation (address_of s).name w.db in
      let ctx : StrategyContext = record {
        candles = candles;
        position = position;
        allocation = allocation;
        price = price;
      } in
      if is_enabled (address_of s).name w.db
      then decide s ctx now (follow s executor position allocation price now) w
      else (ok tt, w)

  -- A breached stop closes the position, whatever the strategy's state.
  abbrev pub stop_or :
      Executor → ℚ → Time → Action World (Unit {0}) → Option Order → Action World (Unit {0})
  stop_or executor price now next (some order) = do
    on_db (executor.execute order price now)
    pure tt
  stop_or executor price now next none = next

  abbrev pub trade : Runner → List Candle → ℚ → Time → Action World (Unit {0})
  trade s candles price now = do
    modify (see_price (address_of s).symbol price)
    position ←
        on_db
          (get_or_create_position (address_of s).name (address_of s).market (address_of s).symbol)
    executor ← ask e.resolve_executor
    stop_or executor price now (consider s executor candles position price now)
        (stop_order e.risk position price)

  abbrev pub trade_unless : Runner → List Candle → ℚ → Time → Bool → Action World (Unit {0})
  trade_unless s candles price now true = pure tt
  trade_unless s candles price now false = trade s candles price now

  -- No candle, no tick; a stale feed freezes trading.
  abbrev pub tick_on : Runner → Time → List Candle → Action World (Unit {0})
  tick_on s now [] = pure tt
  tick_on s now (k ∷ ks) = do
    stale ← lift (feed_is_stale (last_or k ks) (codes (timeframe_of s)) now)
    trade_unless s (k ∷ ks) (last_or k ks).close now stale

  -- `_tick_strategy`
  unfoldable pub tick_strategy : Runner → Time → Action World (Unit {0})
  unfolding refresh_venue_candles feed_is_stale get_or_create_position stop_order is_enabled
      get_allocation llm_cap_reached evaluate record_ai_usage vet get_strategy_action_mode
      record_signal
  tick_strategy s now = do
    venue ← ask e.resolve_venue
    candles ← on_db (
        refresh_venue_candles venue (address_of s).market (address_of s).symbol (timeframe_of s)
          e.candle_limit)
    tick_on s now candles

  -- Every strategy once; a failing one leaves what it committed and does not abort the tick.
  abbrev pub tick_all : List Runner → Time → World → World
  tick_all [] now w = w
  tick_all (s ∷ ss) now w = tick_all ss now (tick_strategy s now w).1

  -- The equity snapshot and the heartbeat.
  abbrev pub account : Time → World → World
  account now w =
      let snapped = (record_equity_snapshot w.last_prices now w.db).1 in
      with_db
        (record snapped {
          settings = set_setting "engine_heartbeat" (e.isoformat now) snapped.settings;
        })
        w

  unfoldable pub tick : Time → World → World
  unfolding tick_strategy record_equity_snapshot set_setting
  tick now w = if w.stopping then w else account now (tick_all e.strategies now w)
