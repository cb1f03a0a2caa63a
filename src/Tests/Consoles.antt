-- ===== src/Tests/Consoles.antt =====
-- The theorems on the endpoints that act on the trading core at concrete inputs.
use capital.Prelude.{String, ◌==◌, ◌≡◌, refl, true, false, some, [], ◌∷◌, ◌++◌}
use capital.Context.{unlimited}
use capital.Models.{buy}
use capital.Effects.{ok}
use capital.Rational.{of_ℕ}
use capital.Engine as E
use capital.Engine.Tick.{tick_strategy}
use capital.Engine.Frozen.{Unmoved}
use capital.Executors.Sim.{default_sim, sim_executor}
use capital.Json.{bool}
use capital.Lifecycle.{is_enabled}
use capital.Auth.{audit_entry}
use capital.Api.{Console}
use capital.Api.Orders.{ManualOrderRequest, Desk}
use capital.Api.Orders.Gated.{Gated}
use capital.Api.Strategies.{Page, from_to, update_enabled}
use capital.Api.Strategies.Switch.{update_enabled-Unmoved}
use capital.Tests.Data.{two_bars, strict, no_limits, buyer, engine, allocated, world_of}
use capital.Tests.Accounts.{plain, root, accounts}

abbrev console : Console
console = record { world = world_of (allocated true 600); accounts = accounts }

abbrev buy_one : ManualOrderRequest
buy_one = record { symbol = "BTC"; side = buy; quantity = of_ℕ 1; market = "spot" }

abbrev desk : Desk
desk = record {
  resolve_venue = λ db. ok two_bars;
  resolve_executor = λ db. ok (sim_executor ⦃c = unlimited⦄ default_sim);
  risk = strict;
  show = λ q. "1";
}

abbrev page : Page
page = record {
  engine = engine no_limits (E.plain buyer ∷ []);
  kind_of = λ s. "rule";
  spot = [];
  futures = [];
  show = λ q. "600";
}

update_enabled-Unmoved_example :
    let t' = (update_enabled ⦃c = unlimited⦄ plain page "s" false root console).1 in
    Unmoved t'.world (tick_strategy ⦃c = unlimited⦄ page.engine (E.plain buyer) 9 t'.world).1
    × ((other : String)
        → ("s" == other) ≡ false
        → is_enabled other t'.world.db ≡ is_enabled other console.world.db)
    × (t'.accounts.audit
        ≡ console.accounts.audit
          ++ audit_entry plain "root" "strategy.enabled" (some "s") (
              some (
                from_to ⦃c = unlimited⦄ plain page
                  (bool (is_enabled "s" console.world.db))
                  (bool false)))
            ∷ [])
update_enabled-Unmoved_example =
    update_enabled-Unmoved ⦃c = unlimited⦄ plain page "s" (E.plain buyer) root 9 console refl refl
      refl
