-- ===== src/Tests/Ticks.antt =====
-- Ticks of the engine at concrete inputs.
use capital.Prelude.{◌+◌, ◌≡◌, refl, true, []}
use capital.Context.{unlimited}
use capital.Models.{Candle, Time}
use capital.Effects.{ok}
use capital.Settings.{get_strategy_action_mode}
use capital.Engine.{advised}
use capital.Engine.Tick.{tick_strategy}
use capital.Engine.Quiet.{notify-never_trades}
use capital.Tests.Data.{allocated, world_of, engine, no_limits, adviser_of, buy_decision}

-- An enabled adviser with a budget of 600 that asks to buy, and no setting: the mode is "notify".
notify-never_trades_example :
    ((tick_strategy ⦃c = unlimited⦄
        (engine no_limits [])
        (advised (adviser_of (ok buy_decision)))
        3_700_000_000
        (world_of (allocated true 600))).1.db.trades
      ≡ [])
    × ((tick_strategy ⦃c = unlimited⦄
          (engine no_limits [])
          (advised (adviser_of (ok buy_decision)))
          3_700_000_000
          (world_of (allocated true 600))).1.db.settings
        ≡ [])
unfolding get_strategy_action_mode
notify-never_trades_example =
    notify-never_trades ⦃c = unlimited⦄ (engine no_limits []) (adviser_of (ok buy_decision))
      3_700_000_000 (world_of (allocated true 600)) refl refl refl

-- The newest bar opened at hour 1, and it is hour 10.
abbrev late : Time
late = 36_000_000_000

abbrev bar_row : Candle → Candle
bar_row k = record k { close_time = k.open_time + 3_599_999_000 }
