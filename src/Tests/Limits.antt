-- ===== src/Tests/Limits.antt =====
-- The allocation, the risk manager and the strategies at concrete inputs.
use capital.Prelude.{◌≡◌, ◌≢◌, refl, arith, true, false, none, some, [], ◌∷◌}
use capital.Rational.{ℚ, of_ℕ, le?, ◌+ℚ◌, ◌*ℚ◌, ◌-ℚ◌, ◌/ℚ◌, inv, neg, of_fraction}
use capital.Rational.Order.{◌≤ℚ◌, ◌<ℚ◌}
use capital.Context.{unlimited, unlimited-IsRounding, maximum, minimum}
use capital.Context.Percent.{of_ℕ_mono}
use capital.Models.{Order, Database, long, flat, buy, sell}
use capital.Portfolio.Fills.Exact.{exact_delta}
use capital.Portfolio.Fills.Refinement.{exact_signed}
use capital.Portfolio.Allocation.{enforce_allocation, headroom, cap_quantity}
use capital.Portfolio.Positions.{signed_qty, unrealized_pnl}
use capital.Portfolio.Allocation.Bounds.{enforce_allocation_bound, along}
use capital.Risk.{
  review, stop_order, cap_order_size, is_halted, kill_switch_tripped, increases_exposure,
}
use capital.Risk.Gate.{Clips, review_sound}
use capital.Risk.Reducing.{Reduces, review_reducing}
use capital.Risk.Stops.{stop_order_closes}
use capital.Strategies.{order_of}
use capital.Strategies.Builtin.{dca}
use capital.Tests.Data.{long_two, one_position, order_for, strict, context_at, spot_btc}

-- A budget of 500 at a price of 100 leaves room for 3 more.
abbrev room_left : ℚ
room_left =
    headroom ⦃c = unlimited⦄ buy (cap_quantity ⦃c = unlimited⦄ (of_ℕ 500) (of_ℕ 100))
      (signed_qty ⦃c = unlimited⦄ long_two)

abbrev clipped_order : Order
clipped_order = record (order_for buy 9) { quantity = room_left }

clipped :
    enforce_allocation ⦃c = unlimited⦄ long_two (of_ℕ 500) (order_for buy 9) (of_ℕ 100)
    ≡ some clipped_order
unfolding enforce_allocation le? signed_qty ◌+ℚ◌ ◌-ℚ◌ ◌*ℚ◌ ◌/ℚ◌ inv neg
clipped = refl

enforce_allocation_bound_example :
    Clips (order_for buy 9) clipped_order
    × (of_ℕ 0 <ℚ room_left)
    × (along buy (exact_signed long_two +ℚ exact_delta buy room_left) *ℚ of_ℕ 100
        ≤ℚ maximum (of_ℕ 500) (of_ℕ 0))
enforce_allocation_bound_example =
    enforce_allocation_bound ⦃c = unlimited⦄ unlimited-IsRounding long_two (of_ℕ 500) (of_ℕ 100)
      (order_for buy 9) clipped_order refl refl refl clipped

long≢flat : long ≢ flat
long≢flat h = cc

-- Selling 1 of the 2.
reduces : Reduces (order_for sell 1) long_two
reduces = record {
  is_open = long≢flat;
  against = refl;
  nonneg = of_ℕ_mono 0 1 (omega arith);
  within = of_ℕ_mono 1 2 (omega arith);
}

-- A day with a loss of 60 trips the kill switch.
abbrev lossy : Database
lossy = record one_position {
  trades =
      record {
        strategy = "s";
        market = "spot";
        symbol = "BTC";
        side = sell;
        quantity = of_ℕ 1;
        price = of_ℕ 40;
        fee = of_ℕ 60;
        realized_pnl = of_ℕ 0;
        mode = "sim";
        client_order_id = none;
        executed_at = 7;
      }
      ∷ [];
}

passed :
    review ⦃c = unlimited⦄ strict 9 lossy (order_for sell 1) long_two (of_ℕ 100)
    ≡ some (order_for sell 1)
unfolding review le? signed_qty ◌+ℚ◌ ◌-ℚ◌ ◌*ℚ◌ ◌/ℚ◌ inv neg
passed = refl

review_sound_example :
    Clips (order_for sell 1) (order_for sell 1)
    × (is_halted ⦃c = unlimited⦄ (kill_switch_tripped ⦃c = unlimited⦄ strict 9 lossy) ≡ true
        → increases_exposure ⦃c = unlimited⦄ (order_for sell 1) long_two ≡ false)
review_sound_example =
    review_sound ⦃c = unlimited⦄ strict 9 lossy (order_for sell 1) (order_for sell 1) long_two
      (of_ℕ 100) passed

review_reducing_example :
    review ⦃c = unlimited⦄ strict 9 lossy (order_for sell 1) long_two (of_ℕ 100)
    ≡ cap_order_size ⦃c = unlimited⦄ strict (order_for sell 1) (of_ℕ 100)
review_reducing_example =
    review_reducing ⦃c = unlimited⦄ unlimited-IsRounding strict 9 lossy (order_for sell 1) long_two
      (of_ℕ 100) reduces refl refl

-- At 90 the loss is 10 percent.
stopped : stop_order ⦃c = unlimited⦄ strict long_two (of_ℕ 90) ≡ some (order_for sell 2)
unfolding stop_order unrealized_pnl le? signed_qty ◌+ℚ◌ ◌-ℚ◌ ◌*ℚ◌ ◌/ℚ◌ inv neg
stopped = refl

stop_order_closes_example :
    ((order_for sell 2).strategy ≡ long_two.strategy)
    × ((order_for sell 2).market ≡ long_two.market)
    × ((order_for sell 2).symbol ≡ long_two.symbol)
    × (of_ℕ 0 <ℚ of_ℕ 2)
    × (exact_signed long_two +ℚ exact_delta sell (of_ℕ 2) ≡ of_ℕ 0)
stop_order_closes_example =
    stop_order_closes ⦃c = unlimited⦄ strict long_two (of_ℕ 90) (order_for sell 2) stopped

-- A tenth of 600, at 120, with 240 deployed.
abbrev tranche_order : Order
tranche_order =
    order_of spot_btc buy
      (minimum (of_fraction (1, 0, 9) *ℚ of_ℕ 600) (of_ℕ 600 -ℚ of_ℕ 2 *ℚ of_ℕ 120) /ℚ of_ℕ 120)

tranche :
    dca ⦃c = unlimited⦄ spot_btc (of_fraction (1, 0, 9)) (context_at 120 long_two)
    ≡ some tranche_order
unfolding dca le? ◌+ℚ◌ ◌-ℚ◌ ◌*ℚ◌ ◌/ℚ◌ inv neg
tranche = refl
