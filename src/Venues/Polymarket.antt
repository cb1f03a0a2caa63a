-- ===== src/Venues/Polymarket.antt =====
-- engine/venues/polymarket.py: prediction markets over Polymarket's API. The client that signs
-- orders is a parameter.
use capital.Prelude.{
  ℕ, ◌*◌, String, ◌==◌, Option, none, some, List, [], ◌∷◌, lookup, put, take_last, eqb,
  if◌then◌else◌,
}
use capital.Rational.{ℚ, of_ℕ, of_fraction, le?}
use capital.Rational.Order.{eq?}
use capital.Effects.{Result, ok, err, venue_error}
use capital.Effects.Fallible.{◌>>=◌, ◌>>◌, traverse}
use capital.Executors.Venue.{market_only, Instrument, VenueCandle, OrderRequest, OrderResult, Venue}
use capital.Exchange.Market.{decimal_at, decimal_or, text_at}
use capital.Json.{Json, arr, nil, text, Reader, get, at_key, elements, or_json}
use capital.Venues.Http.{Response, Params, Http, accepted}
use capital.Venues.Binance.{side_text}

abbrev pub intervals : List (String × String)
intervals = ("1m", "1m") ∷ ("1h", "1h") ∷ ("1d", "1d") ∷ ("1w", "1w") ∷ []

-- `place_market_order(token_id, side, size)`
abbrev pub SigningClient : Type 0
SigningClient = String → String → ℚ → Result Json

pub record PolymarketVenue : Type 0 where
  pub reader : Reader
  pub http : Http
  pub order_client : Option SigningClient
  pub wallet_address : String

abbrev pub interval_of : Option String → Result String
interval_of none = err venue_error
interval_of (some interval) = ok interval

abbrev pub fetched : Result Response → Result Json
fetched (err e) = err e
fetched (ok response) = accepted response

-- `xs[-limit:]`, where `-0` is 0.
abbrev pub last_of : ℕ → List Json → List Json
last_of limit xs = if eqb limit 0 then xs else take_last limit xs

-- `except Exception: raise VenueError`
abbrev pub normalised : Result Json → Result Json
normalised (ok x) = ok x
normalised (err e) = err venue_error

module _ (v : PolymarketVenue) where
  -- `_get`
  abbrev pub fetch : String → Params → Result Json
  fetch url params = fetched (v.http.get url params)

  unfoldable pub instrument : String → Option String → Result Instrument
  instrument symbol market = ok (record {
    symbol = symbol;
    base = symbol;
    quote = "USDC";
    tick_size = of_fraction (1, 0, 99);
    size_step = of_fraction (1, 0, 99);
    min_notional = of_ℕ 1;
  })

  -- A point of a price series is a candle without extent.
  abbrev pub point : Json → Result VenueCandle
  point x = do
    at ← at_key "t" x
    seconds ← v.reader.int at
    p ← decimal_at v.reader "p" x
    ok (record {
      open_time = seconds * 1_000_000;
      open_price = p;
      high = p;
      low = p;
      close = p;
      volume = of_ℕ 0;
    })

  unfoldable pub candles : String → String → ℕ → Option String → Result (List VenueCandle)
  candles symbol interval limit market = do
    own ← interval_of (lookup interval intervals)
    payload ←
        fetch "https://clob.polymarket.com/prices-history"
          (("market", text symbol) ∷ ("interval", text own) ∷ [])
    history ← get "history" payload
    points ← elements (or_json (arr nil) history)
    traverse point (last_of limit points)

  unfoldable pub price : String → Result ℚ
  price symbol = do
    payload ← fetch "https://clob.polymarket.com/midpoint" (("token_id", text symbol) ∷ [])
    decimal_at v.reader "mid" payload

  abbrev pub result_of : OrderRequest → ℚ → ℚ → ℚ → Option Json → OrderResult
  result_of request filled p fee id = record {
    symbol = request.symbol;
    side = request.side;
    filled_quantity = filled;
    price = p;
    fee = fee;
    order_id = v.reader.show (or_json (text "") id);
    client_order_id = "";
  }

  abbrev pub settle_filled : OrderRequest → Json → ℚ → Result OrderResult
  settle_filled request result filled = if le? filled (of_ℕ 0) then err venue_error else (do
    p ← decimal_or v.reader (of_ℕ 0) "price" result
    fee ← decimal_or v.reader (of_ℕ 0) "fee" result
    id ← get "orderID" result
    ok (result_of request filled p fee id))

  -- What is made of the signing client's answer.
  abbrev pub settle : OrderRequest → Json → Result OrderResult
  settle request result = do
    filled ← decimal_or v.reader (of_ℕ 0) "size" result
    settle_filled request result filled

  abbrev pub place_by : OrderRequest → Option SigningClient → Result OrderResult
  place_by request none = err venue_error
  place_by request (some client) = do
    market_only request.order_type
    result ← normalised (client request.symbol (side_text request.side) request.quantity)
    settle request result

  unfoldable pub place_order : OrderRequest → Result OrderResult
  place_order request = place_by request v.order_client

  abbrev pub positions_from : List (String × ℚ) → List Json → Result (List (String × ℚ))
  positions_from d [] = ok d
  positions_from d (row ∷ rows) = do
    tested ← decimal_or v.reader (of_ℕ 0) "size" row
    next ← if eq? tested (of_ℕ 0) then ok d else (do
      asset ← text_at v.reader "asset" row
      size ← decimal_at v.reader "size" row
      ok (put asset size d))
    positions_from next rows

  unfoldable pub positions : Result (List (String × ℚ))
  positions = if v.wallet_address == "" then ok [] else (do
    payload ←
        fetch "https://data-api.polymarket.com/positions" (("user", text v.wallet_address) ∷ [])
    rows ← elements payload
    positions_from [] rows)

  abbrev pub as_venue : Venue
  as_venue = record {
    name = "polymarket";
    instrument = instrument;
    candles = candles;
    price = price;
    place_order = place_order;
    positions = positions;
  }
