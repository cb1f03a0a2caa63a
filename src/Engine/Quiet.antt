-- ===== src/Engine/Quiet.antt =====
-- engine/trading/engine.py: an AI strategy in notify mode only ever records signals.
use capital.Prelude.{
  String, ◌≡◌, refl, ap, ◌∙◌, Bool, true, false, Option, none, some, Bool-cases, inl, inr, List, [],
  ◌∷◌, last_or,
}
use capital.Rational.{ℚ, of_ℕ}
use capital.Context.{Context}
use capital.Models.{Position, Candle, Order, Database, Time}
use capital.Effects.{
  Result, ok, err, value_error, execution_error, lifecycle_error, llm_error, venue_error, key_error,
  arithmetic_error, other_error, http_error, binance_error, invalid_token, json_error,
}
use capital.Effects.Stateful.{Action, continue, ◌>>=◌}
use capital.Executors.{Executor}
use capital.Risk.{RiskManager, stop_order}
use capital.Settings.{get_strategy_action_mode}
use capital.Strategies.{StrategyContext}
use capital.Ai.Decisions.{AiStrategy, Provider, Turn, evaluate}
use capital.Ai.Usage.{record_usage, Completion}
use capital.Ai.Signals.{record_signal}
use capital.MarketData.Freshness.{feed_is_stale, codes}
use capital.MarketData.Cache.{refresh_venue_candles}
use capital.Lifecycle.{is_enabled}
use capital.Portfolio.Positions.{get_or_create_position}
use capital.Portfolio.Allocation.{get_allocation}
use capital.Executors.Venue.{Venue}
use capital.Rational.{le?}
use capital.Rational.Order.{≤ℚ_refl}
use capital.Prelude.{◌||◌}
use capital.Models.{is_flat}
use capital.Context.{◌⊗◌}
use capital.Engine.{
  on_db, ask, see_price, Runner, plain, advised, Engine, World, record_ai_usage, llm_cap_reached,
  with_db,
}
use capital.Engine.Steps.{refresh-changes, get_or_create-changes}
use capital.Engine.Tick.{
  tick_strategy, tick_on, trade_unless, trade, stop_or, consider, advise_unless, advise, follow,
  carry_out, act_on, vet,
}

-- The trade log and the settings of a world are those of another.
pub record Kept (v w : World) : Type 0 where
  pub trades : w.db.trades ≡ v.db.trades
  pub settings : w.db.settings ≡ v.db.settings

module _ {A B : Type 0} (v : World) where
  -- What follows an outcome keeps them if it does from every world that keeps them.
  continue-Kept :
      (f : A → Action World B) (out : Result A × World)
      → Kept v out.1
      → ((a : A) (w : World) → Kept v w → Kept v (f a w).1)
      → Kept v (continue f out).1
  continue-Kept f (ok a, w) k next = next a w k
  continue-Kept f (err x, w) k next = k

module _ ⦃c : Context⦄ (e : Engine) (s : AiStrategy) (v : World)
    (notifies : get_strategy_action_mode s.address.name v.db.settings ≡ "notify") (now : Time) where
  record_ai_usage-Kept :
      (turn : Turn) (w : World)
      → Kept v w
      → Kept v (with_db (record_ai_usage e s.address.name turn now w.db) w)
  unfolding record_ai_usage record_usage
  record_ai_usage-Kept turn w k = by_usage turn.last_usage
    where
      by_usage :
          (used : Option Completion)
          → Kept v (
              with_db
                (elim used [
                  | none ↦ w.db
                  | some u ↦
                      (record_usage e.norm u
                        (some s.address.name)
                        (capital.Engine.action_of e turn.last_decision)
                        (capital.Engine.confidence_of e turn.last_decision)
                        now
                        w.db).1
                ])
                w)
      by_usage none = record { trades = k.trades; settings = k.settings }
      by_usage (some u) = record { trades = k.trades; settings = k.settings }

  act_on-Kept :
      (executor : Executor) (turn : Turn) (price : ℚ) (order : Option Order) (w : World)
      → Kept v w
      → Kept v (act_on e (advised s) executor turn price now order w).1
  unfolding record_signal
  act_on-Kept executor turn price none w k = k
  act_on-Kept executor turn price (some order) w k =
      rw (ap (get_strategy_action_mode s.address.name) k.settings ∙ notifies)
        (record { trades = k.trades; settings = k.settings })

  carry_out-Kept :
      (executor : Executor) (p : Position) (allocation : ℚ) (turn : Turn) (price : ℚ)
      (order : Option Order) (w : World)
      → Kept v w
      → Kept v (carry_out e (advised s) executor p allocation turn price now order w).1
  carry_out-Kept executor p allocation turn price none w k = k
  carry_out-Kept executor p allocation turn price (some order) w k =
      act_on-Kept executor turn price (vet e p allocation order price now w.db) w k

  advise-Kept :
      (executor : Executor) (p : Position) (allocation price : ℚ) (ctx : StrategyContext)
      (found : Result (Option Provider × Option String)) (w : World)
      → Kept v w
      → Kept v (advise e s ctx (follow e (advised s) executor p allocation price now) found w).1
  advise-Kept executor p allocation price ctx (err llm_error) w k = k
  advise-Kept executor p allocation price ctx (err value_error) w k = k
  advise-Kept executor p allocation price ctx (err execution_error) w k = k
  advise-Kept executor p allocation price ctx (err lifecycle_error) w k = k
  advise-Kept executor p allocation price ctx (err venue_error) w k = k
  advise-Kept executor p allocation price ctx (err key_error) w k = k
  advise-Kept executor p allocation price ctx (err arithmetic_error) w k = k
  advise-Kept executor p allocation price ctx (err other_error) w k = k
  advise-Kept executor p allocation price ctx (err (http_error n)) w k = k
  advise-Kept executor p allocation price ctx (err (binance_error f)) w k = k
  advise-Kept executor p allocation price ctx (err invalid_token) w k = k
  advise-Kept executor p allocation price ctx (err json_error) w k = k
  advise-Kept executor p allocation price ctx (ok (provider, model)) w k =
      continue-Kept v (follow e (advised s) executor p allocation price now)
        (evaluate s provider model ctx, w) k
        λ turn u j.
          carry_out-Kept executor p allocation turn price turn.order _
            (record_ai_usage-Kept turn u j)

  advise_unless-Kept :
      (executor : Executor) (p : Position) (allocation price : ℚ) (ctx : StrategyContext)
      (reached : Bool) (w : World)
      → Kept v w
      → Kept v
          (advise_unless e s ctx (follow e (advised s) executor p allocation price now) reached w).1
  advise_unless-Kept executor p allocation price ctx true w k = k
  advise_unless-Kept executor p allocation price ctx false w k =
      advise-Kept executor p allocation price ctx (e.resolve_ai w.db s.address.name) w k

  consider-Kept :
      (executor : Executor) (candles : List Candle) (p : Position) (price : ℚ) (w : World)
      → Kept v w
      → Kept v (consider e (advised s) executor candles p price now w).1
  consider-Kept executor candles p price w k = elim (Bool-cases (is_enabled s.address.name w.db)) [
    | inr off ↦ rw off k
    | inl on ↦ rw on (
        continue-Kept v _ (llm_cap_reached e now w.db, w) k
          (advise_unless-Kept executor p (get_allocation s.address.name w.db) price _))
  ]

  module _ (unstopped : (p : Position) (mark : ℚ) → stop_order e.risk p mark ≡ none) where
    stop_or-Kept :
        (executor : Executor) (candles : List Candle) (p : Position) (price : ℚ) (w : World)
        → Kept v w
        → Kept v
            (stop_or e executor price now
              (consider e (advised s) executor candles p price now)
              (stop_order e.risk p price)
              w).1
    stop_or-Kept executor candles p price w k =
        rw (unstopped p price) (consider-Kept executor candles p price w k)

    trade-Kept :
        (candles : List Candle) (price : ℚ) (w : World)
        → Kept v w
        → Kept v (trade e (advised s) candles price now w).1
    trade-Kept candles price w k =
        let (ps, same) =
          get_or_create-changes s.address.name s.address.market s.address.symbol w.db in
        let row : Action Database Position =
          get_or_create_position s.address.name s.address.market s.address.symbol in
        let seen : World = see_price s.address.symbol price w in
        continue-Kept v
          (λ p. ask e.resolve_executor >>= λ executor.
            stop_or e executor price now (consider e (advised s) executor candles p price now)
              (stop_order e.risk p price))
          (on_db row seen)
          (record {
            trades = ap (λ db. db.trades) same ∙ k.trades;
            settings = ap (λ db. db.settings) same ∙ k.settings;
          })
          (λ p u j.
            continue-Kept v
              (λ executor.
                stop_or e executor price now (consider e (advised s) executor candles p price now)
                  (stop_order e.risk p price))
              (e.resolve_executor u.db, u) j (λ executor. stop_or-Kept executor candles p price))

    trade_unless-Kept :
        (candles : List Candle) (price : ℚ) (stale : Bool) (w : World)
        → Kept v w
        → Kept v (trade_unless e (advised s) candles price now stale w).1
    trade_unless-Kept candles price true w k = k
    trade_unless-Kept candles price false w k = trade-Kept candles price w k

    tick_on-Kept :
        (candles : List Candle) (w : World)
        → Kept v w
        → Kept v (tick_on e (advised s) now candles w).1
    tick_on-Kept [] w k = k
    tick_on-Kept (h ∷ hs) w k =
        continue-Kept v _ (feed_is_stale (last_or h hs) (codes s.timeframe) now, w) k
          (trade_unless-Kept (h ∷ hs) (last_or h hs).close)

    tick-Kept : Kept v (tick_strategy e (advised s) now v).1
    unfolding tick_strategy
    tick-Kept =
        let fetch : Venue → Action Database (List Candle) = λ venue.
          refresh_venue_candles venue s.address.market s.address.symbol s.timeframe
            e.candle_limit in
        continue-Kept v (λ venue. on_db (fetch venue) >>= tick_on e (advised s) now)
          (e.resolve_venue v.db, v) (record { trades = refl; settings = refl })
          λ venue u j.
            let (ks, same) =
              refresh-changes venue s.address.market s.address.symbol s.timeframe e.candle_limit
                u.db in
            continue-Kept v (tick_on e (advised s) now) (on_db (fetch venue) u)
              (record {
                trades = ap (λ db. db.trades) same ∙ j.trades;
                settings = ap (λ db. db.settings) same ∙ j.settings;
              })
              tick_on-Kept

-- Without a stop-loss and a take-profit no position is ever stopped out.
pub stop_order-disabled :
    ⦃c : Context⦄ (risk : RiskManager)
    → risk.stop_loss_pct ≡ of_ℕ 0
    → risk.take_profit_pct ≡ of_ℕ 0
    → (p : Position) (mark : ℚ) → stop_order risk p mark ≡ none
unfolding stop_order
stop_order-disabled risk sl tp p mark =
    let basis : ℚ = p.entry_price ⊗ p.qty in
    elim (Bool-cases (is_flat p.side || le? p.qty (of_ℕ 0) || le? basis (of_ℕ 0))) [
      | inl e ↦ rw e refl
      | inr e ↦ rw e (rw (sl, tp) (rw (≤ℚ_refl (of_ℕ 0)) refl))
    ]

-- A tick of an AI strategy whose action mode is "notify" leaves the trade log and the settings as
-- they were, whatever the model answers, whatever the venue, the routers and the executor do, and
-- whether or not the tick raises; provided that the stop-loss and the take-profit are off, since a
-- stop closes a position in every mode.
pub notify-never_trades :
    ⦃c : Context⦄ (e : Engine) (s : AiStrategy) (now : Time) (w : World)
    → get_strategy_action_mode s.address.name w.db.settings ≡ "notify"
    → e.risk.stop_loss_pct ≡ of_ℕ 0
    → e.risk.take_profit_pct ≡ of_ℕ 0
    → ((tick_strategy e (advised s) now w).1.db.trades ≡ w.db.trades)
      × ((tick_strategy e (advised s) now w).1.db.settings ≡ w.db.settings)
notify-never_trades e s now w notifies sl tp =
    let kept = tick-Kept e s w notifies now (stop_order-disabled e.risk sl tp) in
    (kept.trades, kept.settings)
