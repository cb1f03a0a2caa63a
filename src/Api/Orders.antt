-- ===== src/Api/Orders.antt =====
-- engine/api/orders.py: an order placed by hand, through the same risk manager and executor.
pub mod Gated
use capital.Prelude.{String, Option, none, some}
use capital.Rational.{ℚ}
use capital.Context.{Context}
use capital.Models.{FillSide, buy, sell, Order, Fill, Position, Database, Time}
use capital.Effects.{Result, ok, err, execution_error, venue_error, http_error}
use capital.Effects.Fallible as F
use capital.Effects.Stateful.{Action, ◌>>=◌, ◌>>◌, lift, pure, raise, modify}
use capital.Executors.{Executor}
use capital.Executors.Venue.{Venue}
use capital.Portfolio.Positions.{get_or_create_position}
use capital.Risk.{RiskManager, review}
use capital.Json.{Json, text, obj, field, end}
use capital.Auth.{User, Library, record_audit}
use capital.Api.{Console, on_db, on_accounts, ask}

pub record ManualOrderRequest : Type 0 where
  pub symbol : String
  pub side : FillSide
  pub quantity : ℚ
  pub market : String

-- The routers, the limits of the settings, and `str` of a Decimal.
pub record Desk : Type 0 where
  pub resolve_venue : Database → Result Venue
  pub resolve_executor : Database → Result Executor
  pub risk : RiskManager
  pub show : ℚ → String

abbrev pub manual_strategy : String
manual_strategy = "manual"

abbrev pub manual_order : ManualOrderRequest → Order
manual_order body = record {
  strategy = manual_strategy;
  market = body.market;
  symbol = body.symbol;
  side = body.side;
  quantity = body.quantity;
}

-- `except VenueError: raise HTTPException(502)`
abbrev pub bad_gateway : {A : Type 0} → Result A → Result A
bad_gateway (ok a) = ok a
bad_gateway (err venue_error) = err (http_error 502)
bad_gateway (err e) = err e

-- `except ExecutionError: raise HTTPException(400)`
abbrev pub bad_request : {A : Type 0} → Result A → Result A
bad_request (ok a) = ok a
bad_request (err execution_error) = err (http_error 400)
bad_request (err e) = err e

abbrev pub side_value : FillSide → String
side_value buy = "buy"
side_value sell = "sell"

abbrev pub unblocked : Option Order → Result Order
unblocked none = err (http_error 409)
unblocked (some o) = ok o

abbrev pub quoted : ManualOrderRequest → Result Venue → Result ℚ
quoted body venue = bad_gateway (F.◌>>=◌ venue (λ v. v.price body.symbol))

module _ (lib : Library) (desk : Desk) where
  abbrev pub order_detail : ManualOrderRequest → Order → Executor → Json
  order_detail body reviewed executor = obj (
      field "symbol" (text body.symbol) (
        field "side" (text (side_value body.side)) (
          field "quantity" (text (desk.show reviewed.quantity))
            (field "mode" (text executor.mode) end))))

  abbrev pub audit_order : User → ManualOrderRequest → Order → Executor → Console → Console
  audit_order admin body reviewed executor = on_accounts (
      record_audit lib admin.username "order.manual" none
        (some (order_detail body reviewed executor)))

  -- `try: executor.execute(...)`
  abbrev pub run_order : Executor → Order → ℚ → Time → Action Database Fill
  run_order executor order price now db =
      let out = executor.execute order price now db in (bad_request out.0, out.1)

  module _ ⦃c : Context⦄ where
    -- What follows the quote of a price.
    abbrev pub submit : ManualOrderRequest → User → Time → ℚ → Position → Action Console Fill
    submit body admin now price position = do
      reviewed ← ask (λ db. unblocked (review desk.risk now db (manual_order body) position price))
      executor ← ask desk.resolve_executor
      fill ← on_db (run_order executor reviewed price now)
      modify (audit_order admin body reviewed executor)
      pure fill

    unfoldable pub place_manual_order : ManualOrderRequest → User → Time → Action Console Fill
    unfolding get_or_create_position review
    place_manual_order body admin now = do
      price ← ask (λ db. quoted body (desk.resolve_venue db))
      position ← on_db (get_or_create_position manual_strategy body.market body.symbol)
      submit body admin now price position
