-- ===== src/Venues/Alpaca.antt =====
-- engine/venues/alpaca.py: US stocks over Alpaca's REST API.
use Prim.Native.String.{◌++◌ as concat}
use capital.Prelude.{
  ℕ, String, Bool, false, Option, none, some, List, [], ◌∷◌, lookup, put, eqb, if◌then◌else◌,
}
use capital.Rational.{ℚ, of_ℕ, of_fraction, le?}
use capital.Context.{Context, absolute, minus}
use capital.Models.{FillSide, buy, sell, Time}
use capital.Effects.{Result, ok, err, venue_error}
use capital.Effects.Fallible.{◌>>=◌, ◌>>◌, traverse}
use capital.Executors.Venue.{market_only, Instrument, VenueCandle, OrderRequest, OrderResult, Venue}
use capital.Exchange.Market.{decimal_at, text_at}
use capital.Json.{
  Json, num, arr, nil, text, bool, Reader, get, at_key, elements, or_json, or_truthy, decimal,
  truthy, is_text,
}
use capital.Venues.Http.{Response, Params, Http, accepted}

abbrev pub paper_api : String
paper_api = "https://paper-api.alpaca.markets"

abbrev pub live_api : String
live_api = "https://api.alpaca.markets"

abbrev pub data_api : String
data_api = "https://data.alpaca.markets"

abbrev pub timeframes : List (String × String)
timeframes =
    ("1m", "1Min")
    ∷ ("5m", "5Min")
    ∷ ("15m", "15Min")
    ∷ ("30m", "30Min")
    ∷ ("1h", "1Hour")
    ∷ ("1d", "1Day")
    ∷ []

-- `fromisoformat` and the text of a Decimal come from the standard library.
pub record AlpacaVenue : Type 0 where
  pub reader : Reader
  pub fromisoformat : Json → Result Time
  pub show_decimal : ℚ → String
  pub http : Http
  pub paper : Bool

abbrev pub side_text : FillSide → String
side_text buy = "buy"
side_text sell = "sell"

abbrev pub frame_of : Option String → Result String
frame_of none = err venue_error
frame_of (some frame) = ok frame

-- The checks of `_get`: a 404 is told apart only by its message.
abbrev pub fetched : Result Response → Result Json
fetched (err e) = err e
fetched (ok response) = if eqb response.status_code 404 then err venue_error else accepted response

abbrev pub posted : Result Response → Result Json
posted (err e) = err e
posted (ok response) = accepted response

module _ (v : AlpacaVenue) where
  abbrev pub trading : String
  trading = if v.paper then paper_api else live_api

  -- `_get`
  abbrev pub fetch : String → Params → Result Json
  fetch url params = fetched (v.http.get url params)

  unfoldable pub instrument : String → Option String → Result Instrument
  instrument symbol market = do
    asset ← fetch (concat trading (concat "/v2/assets/" symbol)) []
    tradable ← get "tradable" asset
    if truthy (or_json (bool false) tradable)
        then ok (record {
          symbol = symbol;
          base = symbol;
          quote = "USD";
          tick_size = of_fraction (1, 0, 99);
          size_step = of_ℕ 1;
          min_notional = of_ℕ 1;
        })
        else err venue_error

  abbrev pub parse_bar : Json → Result VenueCandle
  parse_bar b = do
    at ← at_key "t" b
    opened ← v.fromisoformat at
    open_price ← decimal_at v.reader "o" b
    high ← decimal_at v.reader "h" b
    low ← decimal_at v.reader "l" b
    close ← decimal_at v.reader "c" b
    volume ← decimal_at v.reader "v" b
    ok (record {
      open_time = opened;
      open_price = open_price;
      high = high;
      low = low;
      close = close;
      volume = volume;
    })

  unfoldable pub candles : String → String → ℕ → Option String → Result (List VenueCandle)
  candles symbol interval limit market = do
    timeframe ← frame_of (lookup interval timeframes)
    payload ←
        fetch (concat data_api (concat "/v2/stocks/" (concat symbol "/bars")))
          (("timeframe", text timeframe) ∷ ("limit", num (of_ℕ limit)) ∷ [])
    bars ← get "bars" payload
    rows ← elements (or_json (arr nil) bars)
    traverse parse_bar rows

  unfoldable pub price : String → Result ℚ
  price symbol = do
    payload ← fetch (concat data_api (concat "/v2/stocks/" (concat symbol "/trades/latest"))) []
    trade ← at_key "trade" payload
    decimal_at v.reader "p" trade

  abbrev pub order_body : OrderRequest → Params
  order_body request =
      ("symbol", text request.symbol)
      ∷ ("qty", text (v.show_decimal request.quantity))
      ∷ ("side", text (side_text request.side))
      ∷ ("type", text "market")
      ∷ ("time_in_force", text "day")
      ∷ []

  -- `Decimal(str(order.get(key) or "0"))`
  abbrev pub decimal_or_0 : String → Json → Result ℚ
  decimal_or_0 key order = do x ← get key order; decimal v.reader.parse (or_truthy (num (of_ℕ 0)) x)

  abbrev pub result_of : OrderRequest → ℚ → ℚ → Json → OrderResult
  result_of request filled p id = record {
    symbol = request.symbol;
    side = request.side;
    filled_quantity = filled;
    price = p;
    fee = of_ℕ 0;
    order_id = v.reader.show id;
    client_order_id = "";
  }

  abbrev pub settle_filled : OrderRequest → Json → ℚ → Result OrderResult
  settle_filled request order filled = if le? filled (of_ℕ 0) then err venue_error else (do
    p ← decimal_or_0 "filled_avg_price" order
    id ← at_key "id" order
    ok (result_of request filled p id))

  -- What is made of an order that was read back.
  abbrev pub settle : OrderRequest → Json → Result OrderResult
  settle request order = do
    filled ← decimal_or_0 "filled_qty" order
    settle_filled request order filled

  abbrev pub fetch_order : Json → Result Json
  fetch_order id = fetch (concat trading (concat "/v2/orders/" (v.reader.show id))) []

  abbrev pub post_order : OrderRequest → Result Json
  post_order request = posted (v.http.post (concat trading "/v2/orders") (order_body request))

  abbrev pub read_back : OrderRequest → Json → Result OrderResult
  read_back request id = do order ← fetch_order id; settle request order

  abbrev pub read_placed : OrderRequest → Json → Result OrderResult
  read_placed request placed = do id ← at_key "id" placed; read_back request id

  unfoldable pub place_order : OrderRequest → Result OrderResult
  place_order request = do
    market_only request.order_type
    placed ← post_order request
    read_placed request placed

  module _ ⦃c : Context⦄ where
    -- A short position is a negative quantity, whatever the sign of the row.
    abbrev pub signed : Option Json → ℚ → ℚ
    signed none qty = qty
    signed (some side) qty = if is_text "short" side then minus (absolute qty) else qty

    abbrev pub positions_from : List (String × ℚ) → List Json → Result (List (String × ℚ))
    positions_from d [] = ok d
    positions_from d (row ∷ rows) = do
      qty ← decimal_at v.reader "qty" row
      side ← get "side" row
      symbol ← text_at v.reader "symbol" row
      positions_from (put symbol (signed side qty) d) rows

    unfoldable pub positions : Result (List (String × ℚ))
    positions = do
      payload ← fetch (concat trading "/v2/positions") []
      rows ← elements payload
      positions_from [] rows

    abbrev pub as_venue : Venue
    as_venue = record {
      name = "alpaca";
      instrument = instrument;
      candles = candles;
      price = price;
      place_order = place_order;
      positions = positions;
    }
