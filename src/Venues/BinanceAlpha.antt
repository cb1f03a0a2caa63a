-- ===== src/Venues/BinanceAlpha.antt =====
-- engine/venues/binance_alpha.py: tokenized stocks, market data only.
use Prim.Native.String.{◌++◌ as concat}
use capital.Prelude.{ℕ, String, Bool, false, Option, none, some, List, [], ◌∷◌, if◌then◌else◌}
use capital.Rational.{ℚ, of_ℕ, of_fraction}
use capital.Effects.{Result, ok, err, venue_error}
use capital.Effects.Fallible.{◌>>=◌, traverse}
use capital.Executors.Venue.{Instrument, VenueCandle, OrderRequest, OrderResult, Venue}
use capital.Exchange.Market.{decimal_at, decimal_nth, time_nth}
use capital.Json.{
  Json, null, num, bool, arr, nil, obj, end, text, Reader, get, elements, or_json, as_text, decimal,
  truthy, is_text,
}
use capital.Venues.Http.{Response, Params, Http, accepted, rows_of}

-- 0.0001
abbrev pub default_step : ℚ
default_step = of_fraction (1, 0, 9999)

pub record BinanceAlphaVenue : Type 0 where
  pub reader : Reader
  pub http : Http

-- The `data` of an envelope that says it is a success.
abbrev pub unwrap : Json → Result Json
unwrap payload = do
  success ← get "success" payload
  if truthy (or_json (bool false) success)
      then (do inner ← get "data" payload; ok (or_json null inner))
      else err venue_error

abbrev pub opened : Result Response → Result Json
opened (err e) = err e
opened (ok response) = do payload ← accepted response; unwrap payload

-- `next((r for r in rows if r.get("symbol") == symbol), None)`
abbrev pub is_named : String → Option Json → Bool
is_named symbol none = false
is_named symbol (some name) = is_text symbol name

abbrev pub find_row : String → List Json → Result Json
find_row symbol [] = err venue_error
find_row symbol (r ∷ rs) = do
  name ← get "symbol" r
  if is_named symbol name then ok r else find_row symbol rs

-- The last filter of a type, or an empty dictionary.
abbrev pub last_typed : String → Json → List Json → Result Json
last_typed kind best [] = ok best
last_typed kind best (f ∷ fs) = do
  name ← get "filterType" f
  last_typed kind (if is_named kind name then f else best) fs

module _ (v : BinanceAlphaVenue) where
  -- `_get`
  abbrev pub fetch : String → Params → Result Json
  fetch path params =
      opened
        (v.http.get (concat "https://www.binance.com/bapi/defi/v1/public/alpha-trade/" path) params)

  -- `Decimal(str(x)) if x else default`
  abbrev pub filter_or : ℚ → Option Json → Result ℚ
  filter_or default none = ok default
  filter_or default (some x) = if truthy x then decimal v.reader.parse x else ok default

  abbrev pub filter_of : String → String → ℚ → List Json → Result ℚ
  filter_of kind key default filters = do
    f ← last_typed kind (obj end) filters
    x ← get key f
    filter_or default x

  unfoldable pub instrument : String → Option String → Result Instrument
  instrument symbol market = do
    payload ← fetch "get-exchange-info" []
    rows ← rows_of payload
    row ← find_row symbol rows
    listed ← get "filters" row
    filters ← elements (or_json (arr nil) listed)
    base ← get "baseAsset" row
    base_name ← as_text (or_json (text symbol) base)
    quote ← get "quoteAsset" row
    quote_name ← as_text (or_json (text "USDT") quote)
    tick ← filter_of "PRICE_FILTER" "tickSize" default_step filters
    step ← filter_of "LOT_SIZE" "stepSize" default_step filters
    least ← filter_of "MIN_NOTIONAL" "minNotional" (of_ℕ 1) filters
    ok (record {
      symbol = symbol;
      base = base_name;
      quote = quote_name;
      tick_size = tick;
      size_step = step;
      min_notional = least;
    })

  abbrev pub kline : Json → Result VenueCandle
  kline k = do
    at ← time_nth v.reader 0 k
    open_price ← decimal_nth v.reader 1 k
    high ← decimal_nth v.reader 2 k
    low ← decimal_nth v.reader 3 k
    close ← decimal_nth v.reader 4 k
    volume ← decimal_nth v.reader 5 k
    ok (record {
      open_time = at;
      open_price = open_price;
      high = high;
      low = low;
      close = close;
      volume = volume;
    })

  unfoldable pub candles : String → String → ℕ → Option String → Result (List VenueCandle)
  candles symbol interval limit market = do
    payload ←
        fetch "klines"
          (("symbol", text symbol) ∷ ("interval", text interval) ∷ ("limit", num (of_ℕ limit)) ∷ [])
    rows ← rows_of payload
    traverse kline rows

  unfoldable pub price : String → Result ℚ
  price symbol = do
    ticker ← fetch "ticker" (("symbol", text symbol) ∷ [])
    decimal_at v.reader "lastPrice" ticker

  unfoldable pub place_order : OrderRequest → Result OrderResult
  place_order request = err venue_error

  abbrev pub as_venue : Venue
  as_venue = record {
    name = "binance-alpha";
    instrument = instrument;
    candles = candles;
    price = price;
    place_order = place_order;
    positions = ok [];
  }
