-- ===== src/Api/Orders/Gated.antt =====
-- engine/api/orders.py: an order by hand does not get past the risk manager, and is audited.
use capital.Prelude.{◌≡◌, true, false}
use capital.Rational.{ℚ}
use capital.Context.{Context}
use capital.Models.{Order, Fill, Position, Database, Time}
use capital.Effects.{Result, ok, err}
use capital.Executors.{Executor}
use capital.Portfolio.Positions.{get_or_create_position}
use capital.Risk.{increases_exposure, is_halted, kill_switch_tripped}
use capital.Risk.Gate.{Clips}
use capital.Auth.{User, Library}
use capital.Api.{Console}
use capital.Api.Orders.{
  ManualOrderRequest, Desk, manual_strategy, manual_order, quoted, audit_order,
}

abbrev with_db : Database → Console → Console
with_db db s = record s { world = record s.world { db = db } }

module _ ⦃c : Context⦄ (lib : Library) (desk : Desk) (body : ManualOrderRequest) (admin : User)
    (now : Time) where
  -- What stands behind a fill: the quote, the row of the manual orders, the executor that the
  -- settings route to, and the order that the risk manager let through.
  pub record Passed (s : Console) (fill : Fill) (t : Console) : Type 0 where
    pub price : ℚ
    pub position : Position
    pub db : Database
    pub order : Order
    pub executor : Executor
    pub priced : quoted body (desk.resolve_venue s.world.db) ≡ ok price
    pub found :
        get_or_create_position manual_strategy body.market body.symbol s.world.db
        ≡ (ok position, db)
    pub clips : Clips (manual_order body) order
    pub halted :
        is_halted (kill_switch_tripped desk.risk now db) ≡ true
        → increases_exposure order position ≡ false
    pub routed : desk.resolve_executor db ≡ ok executor
    pub executed : executor.execute order price now db ≡ (ok fill, t.world.db)
    pub audited : t.accounts ≡ (audit_order lib desk admin body order executor s).accounts

  -- A fill has passed the risk manager; without one, no table of engine/auth has changed.
  abbrev pub Gated : Console → Result Fill × Console → Type 0
  Gated s (ok fill, t) = Passed s fill t
  Gated s (err e, t) = t.accounts ≡ s.accounts
