-- ===== src/Engine/Frozen.antt =====
-- engine/trading/engine.py: a disabled strategy and a stalled feed trade nothing.
use capital.Prelude.{◌≡◌, refl, ap, ◌∙◌, Bool, true, false, none, List, [], ◌∷◌, last_or}
use capital.Rational.{ℚ, of_ℕ}
use capital.Context.{Context}
use capital.Models.{Position, Candle, Database, Time}
use capital.Effects.{Result, ok, err}
use capital.Effects.Stateful.{Action, continue, ◌>>=◌}
use capital.Executors.{Executor}
use capital.Executors.Venue.{Venue}
use capital.Risk.{stop_order}
use capital.MarketData.Freshness.{feed_is_stale, codes}
use capital.MarketData.Cache.{refresh_venue_candles}
use capital.Lifecycle.{is_enabled}
use capital.Portfolio.Positions.{get_or_create_position}
use capital.Engine.{Runner, Engine, World, on_db, ask, see_price}
use capital.Engine.Steps.{refresh-changes, get_or_create-changes}
use capital.Engine.Quiet.{stop_order-disabled}
use capital.Engine.Tick.{
  tick_strategy, tick_on, trade_unless, trade, stop_or, consider, address_of, timeframe_of,
}

-- Only candles and positions, and the prices seen, differ.
pub record Unmoved (v w : World) : Type 0 where
  pub trades : w.db.trades ≡ v.db.trades
  pub allocations : w.db.allocations ≡ v.db.allocations
  pub usage : w.db.usage ≡ v.db.usage
  pub signals : w.db.signals ≡ v.db.signals
  pub notices : w.notices ≡ v.notices

continue-Unmoved :
    {A B : Type 0} (v : World) (f : A → Action World B) (out : Result A × World)
    → Unmoved v out.1
    → ((a : A) (w : World) → Unmoved v w → Unmoved v (f a w).1)
    → Unmoved v (continue f out).1
continue-Unmoved v f (ok a, w) k next = next a w k
continue-Unmoved v f (err x, w) k next = k

module _ ⦃c : Context⦄ (e : Engine) (s : Runner) (v : World)
    (disabled : is_enabled (address_of s).name v.db ≡ false)
    (unstopped : (p : Position) (mark : ℚ) → stop_order e.risk p mark ≡ none) (now : Time) where
  still_disabled : (w : World) → Unmoved v w → is_enabled (address_of s).name w.db ≡ false
  unfolding is_enabled
  still_disabled w k =
      ap (λ rows. is_enabled (address_of s).name (record v.db { allocations = rows })) k.allocations
      ∙ disabled

  after_stop-Unmoved :
      (executor : Executor) (candles : List Candle) (p : Position) (price : ℚ) (w : World)
      → Unmoved v w
      → Unmoved v
          (stop_or e executor price now
            (consider e s executor candles p price now)
            (stop_order e.risk p price)
            w).1
  after_stop-Unmoved executor candles p price w k =
      rw (unstopped p price) (rw (still_disabled w k) k)

  trade-Unmoved :
      (candles : List Candle) (price : ℚ) (w : World)
      → Unmoved v w
      → Unmoved v (trade e s candles price now w).1
  trade-Unmoved candles price w k =
      let a = address_of s in
      let (ps, same) = get_or_create-changes a.name a.market a.symbol w.db in
      let row : Action Database Position = get_or_create_position a.name a.market a.symbol in
      let next : Position → Executor → Action World (Unit {0}) = λ p executor.
        stop_or e executor price now (consider e s executor candles p price now)
          (stop_order e.risk p price) in
      continue-Unmoved v (λ p. ask e.resolve_executor >>= next p)
        (on_db row (see_price a.symbol price w))
        (record {
          trades = ap (λ db. db.trades) same ∙ k.trades;
          allocations = ap (λ db. db.allocations) same ∙ k.allocations;
          usage = ap (λ db. db.usage) same ∙ k.usage;
          signals = ap (λ db. db.signals) same ∙ k.signals;
          notices = k.notices;
        })
        (λ p u j.
          continue-Unmoved v (next p) (e.resolve_executor u.db, u) j
            (λ executor. after_stop-Unmoved executor candles p price))

  trade_unless-Unmoved :
      (candles : List Candle) (price : ℚ) (stale : Bool) (w : World)
      → Unmoved v w
      → Unmoved v (trade_unless e s candles price now stale w).1
  trade_unless-Unmoved candles price true w k = k
  trade_unless-Unmoved candles price false w k = trade-Unmoved candles price w k

  tick_on-Unmoved :
      (candles : List Candle) (w : World) → Unmoved v w → Unmoved v (tick_on e s now candles w).1
  tick_on-Unmoved [] w k = k
  tick_on-Unmoved (h ∷ hs) w k =
      continue-Unmoved v (trade_unless e s (h ∷ hs) (last_or h hs).close now)
        (feed_is_stale (last_or h hs) (codes (timeframe_of s)) now, w) k
        (trade_unless-Unmoved (h ∷ hs) (last_or h hs).close)

  tick-Unmoved : Unmoved v (tick_strategy e s now v).1
  unfolding tick_strategy
  tick-Unmoved =
      let a = address_of s in
      let fetch : Venue → Action Database (List Candle) =
        λ venue. refresh_venue_candles venue a.market a.symbol (timeframe_of s) e.candle_limit in
      continue-Unmoved v (λ venue. on_db (fetch venue) >>= tick_on e s now)
        (e.resolve_venue v.db, v)
        (record { trades = refl; allocations = refl; usage = refl; signals = refl; notices = refl })
        λ venue u j.
          let (ks, same) =
            refresh-changes venue a.market a.symbol (timeframe_of s) e.candle_limit u.db in
          continue-Unmoved v (tick_on e s now) (on_db (fetch venue) u)
            (record {
              trades = ap (λ db. db.trades) same ∙ j.trades;
              allocations = ap (λ db. db.allocations) same ∙ j.allocations;
              usage = ap (λ db. db.usage) same ∙ j.usage;
              signals = ap (λ db. db.signals) same ∙ j.signals;
              notices = j.notices;
            })
            tick_on-Unmoved

-- A tick of a disabled strategy, of either kind, makes no trade, writes no allocation, records no
-- model call and no signal, and sends nothing, whatever its `evaluate`, the venue, the routers and
-- the executor do; provided that the stop-loss and the take-profit are off.
pub disabled-Unmoved :
    ⦃c : Context⦄ (e : Engine) (s : Runner) (now : Time) (w : World)
    → is_enabled (address_of s).name w.db ≡ false
    → e.risk.stop_loss_pct ≡ of_ℕ 0
    → e.risk.take_profit_pct ≡ of_ℕ 0
    → Unmoved w (tick_strategy e s now w).1
disabled-Unmoved e s now w disabled sl tp =
    tick-Unmoved e s w disabled (stop_order-disabled e.risk sl tp) now
