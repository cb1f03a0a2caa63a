-- ===== src/Venues/Binance.antt =====
-- engine/venues/binance.py: Binance as a venue. The client that places orders is a parameter; the
-- state keeps what the venue has set up and every request that it has sent to that client.
pub mod Orders
pub mod Costs
use Prim.Native.String.{len}
use capital.Prelude.{
  ℕ, String, ◌==◌, Bool, true, false, not, ◌&&◌, Option, none, some, List, [], ◌∷◌, ◌++◌, map,
  contains, ltb, or_else, ends_with, remove_suffix, if◌then◌else◌,
}
use capital.Rational.{ℚ, of_ℕ, of_fraction, le?}
use capital.Rational.Order.{lt?}
use capital.Context.{Context, quotient, sum, ◌⊗◌}
use capital.Models.{FillSide, buy, sell}
use capital.Effects.{Result, ok, err, Error, venue_error, value_error, binance_error}
use capital.Effects.Fallible as F
use capital.Effects.Fallible.{traverse}
use capital.Effects.Stateful.{Action, ◌>>=◌, ◌>>◌, raise, raise_if, pure, lift, modify}
use capital.Executors.{SymbolFilters}
use capital.Executors.Venue.{market_only, Instrument, VenueCandle, OrderRequest, OrderResult, Venue}
use capital.Exchange.Market.{Market, spot, futures, Kline, Ticker, Sdk, decimal_at, decimal_or}
use capital.Exchange.Client.{get_symbol_filters, get_klines, get_ticker, get_futures_positions}
use capital.Json.{Json, num, arr, nil, text, Reader, get, elements, or_json, or_truthy, decimal}

abbrev pub quote_assets : List String
quote_assets = "USDT" ∷ "USDC" ∷ "FDUSD" ∷ "BUSD" ∷ "TUSD" ∷ "USD" ∷ "BTC" ∷ "ETH" ∷ "BNB" ∷ []

-- 0.0004
abbrev pub default_fee_rate : ℚ
default_fee_rate = of_fraction (1, 0, 2499)

abbrev pub split_by : List String → String → String × String
split_by [] symbol = (symbol, "")
split_by (quote ∷ quotes) symbol =
    if ends_with symbol quote && ltb (len quote) (len symbol)
    then (remove_suffix symbol quote, quote)
    else split_by quotes symbol

-- `_split_symbol`
unfoldable pub split_symbol : String → String × String
split_symbol symbol = split_by quote_assets symbol

-- The parameters of an order; `quantity` is sent as its text.
pub record OrderParams : Type 0 where
  pub symbol : String
  pub side : String
  pub quantity : ℚ
  pub client_order_id : Option String

pub record OrderClient : Type 0 where
  pub futures_change_leverage : String → ℕ → Result (Unit {0})
  pub futures_change_margin_type : String → String → Result (Unit {0})
  pub futures_create_order : OrderParams → Result Json
  pub create_order : OrderParams → Result Json

pub record BinanceVenue : Type 0 where
  pub reader : Reader
  pub sdk : Sdk
  pub order_client : Option OrderClient
  pub market : Market
  pub fee_rate : ℚ
  pub futures_leverage : Option ℕ
  pub futures_margin_type : Option String

-- A request to the order client.
pub data Sent : Type 0 where
  leverage_sent : String → ℕ → Sent
  margin_sent : String → String → Sent
  order_sent : Market → OrderParams → Sent

pub record BinanceState : Type 0 where
  pub configured : List String
  pub sent : List Sent

abbrev pub send : Sent → BinanceState → BinanceState
send request s = record s { sent = s.sent ++ request ∷ [] }

-- `Market(value)`
abbrev pub parse_market : String → Result Market
parse_market v =
    if v == "spot" then ok spot else (if v == "futures" then ok futures else err value_error)

abbrev pub market_or : Market → Option String → Result Market
market_or default none = ok default
market_or default (some v) = parse_market v

-- `except (ValueError, BinanceAPIException): raise VenueError`
abbrev pub unknown_symbol : {A : Type 0} → Result A → Result A
unknown_symbol (ok a) = ok a
unknown_symbol (err value_error) = err venue_error
unknown_symbol (err (binance_error f)) = err venue_error
unknown_symbol (err e) = err e

-- `except BinanceAPIException: raise VenueError`
abbrev pub rejected : {A : Type 0} → Result A → Result A
rejected (ok a) = ok a
rejected (err (binance_error f)) = err venue_error
rejected (err e) = err e

-- `except BinanceAPIException: log`
abbrev pub tolerated : Result (Unit {0}) → Result (Unit {0})
tolerated (ok a) = ok a
tolerated (err (binance_error f)) = ok tt
tolerated (err e) = err e

abbrev pub candle_of : Kline → VenueCandle
candle_of k = record {
  open_time = k.open_time;
  open_price = k.open_price;
  high = k.high;
  low = k.low;
  close = k.close;
  volume = k.volume;
}

abbrev pub side_text : FillSide → String
side_text buy = "BUY"
side_text sell = "SELL"

abbrev pub params_of : OrderRequest → OrderParams
params_of request = record {
  symbol = request.symbol;
  side = side_text request.side;
  quantity = request.quantity;
  client_order_id = request.client_order_id;
}

module _ (v : BinanceVenue) where
  unfoldable pub instrument : String → Option String → Result Instrument
  unfolding split_symbol
  instrument symbol market = F.◌>>=◌ (market_or v.market market) λ m.
      F.◌>>=◌ (unknown_symbol (get_symbol_filters v.reader v.sdk symbol m)) λ filters.
        let (base, quote) = split_symbol symbol in
        ok (record {
          symbol = symbol;
          base = base;
          quote = quote;
          tick_size = filters.tick_size;
          size_step = filters.step_size;
          min_notional = filters.min_notional;
        })

  unfoldable pub candles : String → String → ℕ → Option String → Result (List VenueCandle)
  candles symbol interval limit market = F.◌>>=◌ (market_or v.market market) λ m.
      F.◌>>=◌ (get_klines v.reader v.sdk symbol interval m limit)
        λ klines. ok (map candle_of klines)

  unfoldable pub price : String → Result ℚ
  price symbol = F.◌>>=◌ (get_ticker v.reader v.sdk symbol v.market) λ t. ok t.price

  abbrev pub positions_on : Market → Result (List (String × ℚ))
  positions_on futures = get_futures_positions v.reader v.sdk
  positions_on spot = ok []

  abbrev pub set_leverage : OrderClient → String → Option ℕ → Action BinanceState (Unit {0})
  set_leverage client symbol none = pure tt
  set_leverage client symbol (some n) = do
    modify (send (leverage_sent symbol n))
    lift (tolerated (client.futures_change_leverage symbol n))

  abbrev pub set_margin : OrderClient → String → Option String → Action BinanceState (Unit {0})
  set_margin client symbol none = pure tt
  set_margin client symbol (some kind) = do
    modify (send (margin_sent symbol kind))
    lift (tolerated (client.futures_change_margin_type symbol kind))

  abbrev pub set_up : OrderClient → String → Action BinanceState (Unit {0})
  set_up client symbol = do
    set_leverage client symbol v.futures_leverage
    set_margin client symbol v.futures_margin_type
    modify (λ s. record s { configured = symbol ∷ s.configured })

  unfoldable pub configure_futures : OrderClient → String → Action BinanceState (Unit {0})
  configure_futures client symbol s =
      if contains symbol s.configured then (ok tt, s) else set_up client symbol s

  -- The order itself, after what its market asks for.
  abbrev pub submit : OrderClient → Market → OrderParams → Action BinanceState Json
  submit client futures params = do
    configure_futures client params.symbol
    modify (send (order_sent futures params))
    lift (rejected (client.futures_create_order params))
  submit client spot params = do
    modify (send (order_sent spot params))
    lift (rejected (client.create_order params))

  module _ ⦃c : Context⦄ where
    abbrev pub notional_of : Json → Result ℚ
    notional_of f =
        F.◌>>=◌ (decimal_at v.reader "price" f)
          λ p. F.◌>>=◌ (decimal_at v.reader "qty" f) λ q. ok (p ⊗ q)

    -- `(price, filled_qty, fee)` from the trades that filled an order.
    abbrev pub fill_of : List Json → Result (ℚ × ℚ × ℚ)
    fill_of fills = F.◌>>=◌ (traverse (decimal_at v.reader "qty") fills) λ qtys.
        F.◌>>=◌ (traverse notional_of fills) λ notionals.
          F.◌>>=◌ (traverse (decimal_or v.reader (of_ℕ 0) "commission") fills) λ fees.
            let qty = sum qtys in
            ok (if lt? (of_ℕ 0) qty then quotient (sum notionals) qty else of_ℕ 0, qty, sum fees)

    -- The same from the aggregates of a futures response, with an estimated fee.
    abbrev pub aggregate_of : Json → Result (ℚ × ℚ × ℚ)
    aggregate_of response = F.◌>>=◌ (decimal_or v.reader (of_ℕ 0) "executedQty" response) λ qty.
        F.◌>>=◌ (decimal_or v.reader (of_ℕ 0) "avgPrice" response)
          λ p. ok (p, qty, p ⊗ qty ⊗ v.fee_rate)

    abbrev pub fill_or_aggregate : Json → List Json → Result (ℚ × ℚ × ℚ)
    fill_or_aggregate response [] = aggregate_of response
    fill_or_aggregate response (f ∷ fs) = fill_of (f ∷ fs)

    unfoldable pub parse_fill : Json → Result (ℚ × ℚ × ℚ)
    parse_fill response = F.◌>>=◌ (get "fills" response) λ listed.
        F.◌>>=◌ (elements (or_truthy (arr nil) listed)) λ fills. fill_or_aggregate response fills

    abbrev pub result_of : OrderRequest → ℚ → ℚ → ℚ → String → OrderResult
    result_of request price filled fee id = record {
      symbol = request.symbol;
      side = request.side;
      filled_quantity = filled;
      price = price;
      fee = fee;
      order_id = id;
      client_order_id = or_else "" request.client_order_id;
    }

    -- What is made of the response to an order.
    abbrev pub settle : OrderRequest → Json → Result OrderResult
    settle request response = F.◌>>=◌ (parse_fill response) λ (price, filled, fee).
        if le? filled (of_ℕ 0)
        then err venue_error
        else F.◌>>=◌ (get "orderId" response)
            λ id. ok (result_of request price filled fee (v.reader.show (or_json (text "") id)))

    abbrev pub place_by : OrderRequest → Option OrderClient → Action BinanceState OrderResult
    place_by request none = raise venue_error
    place_by request (some client) = do
      lift (market_only request.order_type)
      m ← lift (market_or v.market request.market)
      response ← submit client m (params_of request)
      lift (settle request response)

    unfoldable pub place_order : OrderRequest → Action BinanceState OrderResult
    unfolding configure_futures parse_fill
    place_order request = place_by request v.order_client

    -- The venue in a state, as the executor sees it.
    abbrev pub as_venue : BinanceState → Venue
    as_venue s = record {
      name = "binance";
      instrument = instrument;
      candles = candles;
      price = price;
      place_order = λ request. (place_order request s).0;
      positions = positions_on v.market;
    }
