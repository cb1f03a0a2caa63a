-- ===== src/Executors/Venue.antt =====
-- engine/trading/executors/venue.py and engine/venues/base.py: orders placed through a venue. What
-- a venue answers comes from outside, so a `Venue` is a record of functions.
use capital.Prelude.{ℕ, String, ◌==◌, Bool, ◌&&◌, Option, none, some, List, [], ◌∷◌, if◌then◌else◌}
use capital.Rational.{ℚ, of_ℕ, le?}
use capital.Rational.Order.{lt?}
use capital.Context.{Context, ◌⊗◌}
use capital.Models.{Order, Fill, FillSide, Database, Time}
use capital.Effects.{Result, ok, err, execution_error, venue_error}
use capital.Effects.Stateful.{Action, ◌>>=◌, ◌>>◌, raise_if, lift}
use capital.Portfolio.Fills.{record_fill}
use capital.Executors.{SymbolFilters, default_filters, round_quantity}

pub record Instrument : Type 0 where
  pub symbol : String
  pub base : String
  pub quote : String
  pub tick_size : ℚ
  pub size_step : ℚ
  pub min_notional : ℚ

pub record VenueCandle : Type 0 where
  pub open_time : Time
  pub open_price : ℚ
  pub high : ℚ
  pub low : ℚ
  pub close : ℚ
  pub volume : ℚ

pub data OrderType : Type 0 where
  market_order : OrderType
  limit_order : OrderType

-- `if request.order_type is not OrderType.market: raise VenueError`
abbrev pub market_only : OrderType → Result (Unit {0})
market_only market_order = ok tt
market_only limit_order = err venue_error

pub record OrderRequest : Type 0 where
  pub symbol : String
  pub side : FillSide
  pub quantity : ℚ
  pub order_type : OrderType
  pub limit_price : Option ℚ
  pub market : Option String
  pub client_order_id : Option String

pub record OrderResult : Type 0 where
  pub symbol : String
  pub side : FillSide
  pub filled_quantity : ℚ
  pub price : ℚ
  pub fee : ℚ
  pub order_id : String
  pub client_order_id : String

pub record Venue : Type 0 where
  pub name : String
  pub instrument : String → Option String → Result Instrument
  pub candles : String → String → ℕ → Option String → Result (List VenueCandle)
  pub price : String → Result ℚ
  pub place_order : OrderRequest → Result OrderResult
  pub positions : Result (List (String × ℚ))

abbrev pub FilterCache : Type 0
FilterCache = List ((String × String) × SymbolFilters)

-- The database and the executor's cache of instrument filters.
pub record VenueState : Type 0 where
  pub db : Database
  pub cache : FilterCache

abbrev pub cached_filters : String → String → FilterCache → Option SymbolFilters
cached_filters symbol market [] = none
cached_filters symbol market ((k, f) ∷ rest) =
    if k.0 == symbol && k.1 == market then some f else cached_filters symbol market rest

-- `except VenueError`: permissive defaults. Any other exception goes on.
abbrev pub filters_of : Result Instrument → Result SymbolFilters
filters_of (ok inst) = ok (record {
  tick_size = inst.tick_size;
  step_size = inst.size_step;
  min_notional = inst.min_notional;
})
filters_of (err venue_error) = ok default_filters
filters_of (err e) = err e

abbrev pub remember : String → String → Result SymbolFilters → Action VenueState SymbolFilters
remember symbol market (ok f) s = (ok f, record s { cache = ((symbol, market), f) ∷ s.cache })
remember symbol market (err e) s = (err e, s)

abbrev pub fetch_filters :
    Venue → String → String → Option SymbolFilters → Action VenueState SymbolFilters
fetch_filters venue symbol market (some f) s = (ok f, s)
fetch_filters venue symbol market none s =
    remember symbol market (filters_of (venue.instrument symbol (some market))) s

unfoldable pub filters_for : Venue → String → String → Action VenueState SymbolFilters
filters_for venue symbol market s =
    fetch_filters venue symbol market (cached_filters symbol market s.cache) s

-- `except VenueError as exc: raise ExecutionError`
abbrev pub placed : Result OrderResult → Result OrderResult
placed (ok r) = ok r
placed (err venue_error) = err execution_error
placed (err e) = err e

-- `result.client_order_id or client_order_id`
abbrev pub echoed_id : String → String → String
echoed_id echoed own = if echoed == "" then own else echoed

abbrev pub on_db : {A : Type 0} → Action Database A → Action VenueState A
on_db m s = let (r, db) = m s.db in (r, record s { db = db })

module _ ⦃c : Context⦄ where
  -- `ref > 0 and qty * ref < filt.min_notional`
  abbrev pub below_min : SymbolFilters → ℚ → ℚ → Bool
  below_min filt qty ref = lt? (of_ℕ 0) ref && lt? (qty ⊗ ref) filt.min_notional

  abbrev pub request : Order → ℚ → String → OrderRequest
  request order qty id = record {
    symbol = order.symbol;
    side = order.side;
    quantity = qty;
    order_type = market_order;
    limit_price = none;
    market = some order.market;
    client_order_id = some id;
  }

  -- `id` is what `uuid4().hex` returned.
  unfoldable pub execute : Venue → String → String → Order → ℚ → Time → Action VenueState Fill
  unfolding filters_for record_fill round_quantity
  execute venue mode id order ref now = do
    filt ← filters_for venue order.symbol order.market
    qty ← lift (round_quantity filt order.quantity)
    raise_if (le? qty (of_ℕ 0)) execution_error
    raise_if (below_min filt qty ref) execution_error
    result ← lift (placed (venue.place_order (request order qty id)))
    raise_if (le? result.filled_quantity (of_ℕ 0)) execution_error
    on_db (
        record_fill mode order result.filled_quantity result.price result.fee
          (some (echoed_id result.client_order_id id)) now)
