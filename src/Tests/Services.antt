-- ===== src/Tests/Services.antt =====
-- Settings, routing, lifecycle, candles, retention, the watchdog and the lockout at concrete inputs.
use capital.Prelude.{◌≡◌, refl, ◌⊎◌, String, ◌==◌, false, some, List, [], ◌∷◌, All}
use capital.Rational.{of_ℕ, le?}
use capital.Rational.Order.{◌≤ℚ◌, lt?}
use capital.Context.{unlimited, unlimited-IsRounding, absolute, ◌⊖◌}
use capital.Models.{Database, Setting}
use capital.Effects.{ok}
use capital.Lifecycle.{delete_strategy}
use capital.Lifecycle.Safety.{delete_strategy-cases, Refused, Deleted}
use capital.Settings.{
  live, get_setting, set_setting, get_strategy_action_mode, set_strategy_action_mode,
}
use capital.Settings.Store.{get_setting-set_setting, action_mode-cases}
use capital.Routing.{Builder, RouteCache}
use capital.Reconcile.{Quantities, default_tolerance, quantity_at, reconcile_positions}
use capital.Reconcile.Drift.{is_reported, net, drift_at, reconcile_positions-drift}
use capital.MarketData.Cache.{refresh_venue_candles}
use capital.MarketData.Cache.Inserts.{Extends, refresh_venue_candles-Extends}
use capital.RateLimit.{Limits}
use capital.Tests.Data.{empty_db, one_position, two_bars, candle_at}

delete_strategy-cases_example :
    Refused "s" one_position (delete_strategy "s" one_position)
    ⊎ Deleted "s" one_position (delete_strategy "s" one_position)
delete_strategy-cases_example = delete_strategy-cases "s" one_position

abbrev two_settings : List Setting
two_settings =
    record { key = "trading_mode"; value = "live"; is_secret = false }
    ∷ record { key = "active_venue"; value = "alpaca"; is_secret = false }
    ∷ []

get_setting-set_setting_example :
    (get_setting "active_venue" (set_setting "active_venue" "binance" two_settings)
      ≡ some "binance")
    × ((other : String)
        → ("active_venue" == other) ≡ false
        → get_setting other (set_setting "active_venue" "binance" two_settings)
          ≡ get_setting other two_settings)
get_setting-set_setting_example = get_setting-set_setting "active_venue" "binance" two_settings

action_mode-cases_example :
    ((get_strategy_action_mode "s" two_settings ≡ "notify")
      ⊎ (get_strategy_action_mode "s" two_settings ≡ "auto"))
    × (get_strategy_action_mode "s" (set_strategy_action_mode "s" "auto" two_settings) ≡ "auto")
action_mode-cases_example = action_mode-cases "s" "auto" two_settings

abbrev kept_route : RouteCache
kept_route = (("alpaca", live), two_bars) ∷ []

abbrev any_venue : Builder
any_venue rows name mode = ok two_bars

refresh_venue_candles-Extends_example :
    Extends ⦃c = unlimited⦄ two_bars "spot" "BTC" "1h" 200 empty_db
      (refresh_venue_candles ⦃c = unlimited⦄ two_bars "spot" "BTC" "1h" 200 empty_db).1
refresh_venue_candles-Extends_example =
    refresh_venue_candles-Extends ⦃c = unlimited⦄ two_bars "spot" "BTC" "1h" 200 empty_db

abbrev two_candles : Database
two_candles = record empty_db { candles = candle_at 0 100 ∷ candle_at 172_800_000_000 120 ∷ [] }

abbrev five_attempts : Limits
five_attempts = record { max_attempts = 5; lockout_minutes = 15 }

-- The venue holds 5 of what one row holds 2 of, and something that no row holds.
abbrev held_by_venue : Quantities
held_by_venue = (("spot", "BTC"), of_ℕ 5) ∷ (("futures", "ETH"), of_ℕ 1) ∷ []

tolerance-nonneg : of_ℕ 0 ≤ℚ default_tolerance
unfolding le?
tolerance-nonneg = refl

reconcile_positions-drift_example :
    (is_reported
        ("spot", "BTC")
        (reconcile_positions ⦃c = unlimited⦄ held_by_venue default_tolerance one_position)
      ≡ lt? default_tolerance (
          absolute ⦃c = unlimited⦄ (
            ◌⊖◌ ⦃c = unlimited⦄
              (net ⦃c = unlimited⦄ ("spot", "BTC") one_position)
              (quantity_at ("spot", "BTC") held_by_venue))))
    × All
        (λ d. d ≡ drift_at ⦃c = unlimited⦄ held_by_venue one_position (d.market, d.symbol))
        (reconcile_positions ⦃c = unlimited⦄ held_by_venue default_tolerance one_position)
reconcile_positions-drift_example =
    reconcile_positions-drift ⦃c = unlimited⦄ unlimited-IsRounding held_by_venue default_tolerance
      one_position ("spot", "BTC") tolerance-nonneg
