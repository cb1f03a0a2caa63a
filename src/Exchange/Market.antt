-- ===== src/Exchange/Market.antt =====
-- engine/exchange/client.py: tickers, klines, funding, positions, filters and the order book.
use capital.Prelude.{
  ℕ, ◌*◌, ◌/◌, String, Option, none, some, List, [], ◌∷◌, lookup, put, or_else, if◌then◌else◌,
}
use capital.Rational.{ℚ}
use capital.Models.{Time}
use capital.Effects.{Result, ok}
use capital.Effects.Fallible.{◌>>=◌, traverse}
use capital.Executors.{SymbolFilters, default_filters}
use capital.Exchange.{Call}
use capital.Json.{
  Json, num, arr, obj, nil, end, Reader, get, at_key, at_index, elements, as_text, decimal, or_json,
  or_truthy, truthy, is_list,
}

pub data Market : Type 0 where
  spot : Market
  futures : Market

pub record Ticker : Type 0 where
  pub symbol : String
  pub price : ℚ
  pub change_pct_24h : ℚ
  pub quote_volume_24h : ℚ

pub record Kline : Type 0 where
  pub open_time : Time
  pub open_price : ℚ
  pub high : ℚ
  pub low : ℚ
  pub close : ℚ
  pub volume : ℚ
  pub close_time : Time

pub record FundingRate : Type 0 where
  pub symbol : String
  pub funding_rate : ℚ
  pub mark_price : ℚ
  pub next_funding_time : Time

pub record FundingPayment : Type 0 where
  pub symbol : String
  pub amount : ℚ
  pub asset : String
  pub time : Time

pub record OrderBookLevel : Type 0 where
  pub price : ℚ
  pub qty : ℚ

pub record OrderBook : Type 0 where
  pub symbol : String
  pub bids : List OrderBookLevel
  pub asks : List OrderBookLevel

-- python-binance: the spot or the futures method for each kind of call, with its arguments.
pub record Sdk : Type 0 where
  pub ticker : Market → Option String → Call
  pub klines : Market → String → String → ℕ → Call
  pub historical_klines : Market → String → String → ℕ → Option ℕ → Call
  pub mark_price : String → Call
  pub income_history : String → Option ℕ → Call
  pub position_information : Call
  pub exchange_info : Call
  pub symbol_info : String → Call
  pub order_book : Market → String → ℕ → Call

-- `raw = raw[0]` if it is a list
abbrev pub unwrap : Json → Result Json
unwrap raw = if is_list raw then at_index 0 raw else ok raw

-- `int(start.timestamp() * 1000)`
abbrev pub to_ms : Time → ℕ
to_ms t = t / 1000

abbrev pub option_ms : Option Time → Option ℕ
option_ms none = none
option_ms (some t) = some (to_ms t)

-- The filters of a symbol by their type; a later one replaces an earlier one.
abbrev pub by_type_from : List (String × Json) → List Json → Result (List (String × Json))
by_type_from d [] = ok d
by_type_from d (f ∷ fs) = do
  kind ← at_key "filterType" f
  name ← as_text kind
  by_type_from (put name f d) fs

abbrev pub or_option : Option Json → Option Json → Option Json
or_option none b = b
or_option (some v) b = if truthy v then some v else b

module _ (r : Reader) where
  -- `Decimal(str(raw[key]))`
  abbrev pub decimal_at : String → Json → Result ℚ
  decimal_at key raw = do v ← at_key key raw; decimal r.parse v

  abbrev pub decimal_nth : ℕ → Json → Result ℚ
  decimal_nth i raw = do v ← at_index i raw; decimal r.parse v

  abbrev pub text_at : String → Json → Result String
  text_at key raw = do v ← at_key key raw; as_text v

  -- `_ms_to_dt`
  abbrev pub ms_to_dt : Json → Result Time
  ms_to_dt v = do ms ← r.int v; ok (ms * 1000)

  abbrev pub time_at : String → Json → Result Time
  time_at key raw = do v ← at_key key raw; ms_to_dt v

  abbrev pub time_nth : ℕ → Json → Result Time
  time_nth i raw = do v ← at_index i raw; ms_to_dt v

  abbrev pub parse_ticker : Json → Result Ticker
  parse_ticker raw = do
    symbol ← text_at "symbol" raw
    price ← decimal_at "lastPrice" raw
    change ← decimal_at "priceChangePercent" raw
    volume ← decimal_at "quoteVolume" raw
    ok (record {
      symbol = symbol;
      price = price;
      change_pct_24h = change;
      quote_volume_24h = volume;
    })

  abbrev pub parse_kline : Json → Result Kline
  parse_kline k = do
    opened ← time_nth 0 k
    open_price ← decimal_nth 1 k
    high ← decimal_nth 2 k
    low ← decimal_nth 3 k
    close ← decimal_nth 4 k
    volume ← decimal_nth 5 k
    closed ← time_nth 6 k
    ok (record {
      open_time = opened;
      open_price = open_price;
      high = high;
      low = low;
      close = close;
      volume = volume;
      close_time = closed;
    })

  abbrev pub parse_payment : Json → Result FundingPayment
  parse_payment p = do
    symbol ← text_at "symbol" p
    amount ← decimal_at "income" p
    asset ← text_at "asset" p
    time ← time_at "time" p
    ok (record { symbol = symbol; amount = amount; asset = asset; time = time })

  abbrev pub parse_level : Json → Result OrderBookLevel
  parse_level l = do
    price ← decimal_nth 0 l
    qty ← decimal_nth 1 l
    ok (record { price = price; qty = qty })

  -- `_levels`
  abbrev pub levels : Json → Result (List OrderBookLevel)
  levels side = do rows ← elements side; traverse parse_level rows

  -- `Decimal(str(d.get(key, default)))`
  abbrev pub decimal_or : ℚ → String → Json → Result ℚ
  decimal_or default key d = do v ← get key d; decimal r.parse (or_json (num default) v)

  unfoldable pub parse_filters : Json → Result SymbolFilters
  parse_filters info = do
    listed ← get "filters" info
    rows ← elements (or_json (arr nil) listed)
    by_type ← by_type_from [] rows
    let price = or_else (obj end) (lookup "PRICE_FILTER" by_type)
    let lot = or_else (obj end) (lookup "LOT_SIZE" by_type)
    let notional =
        or_truthy (obj end) (or_option (lookup "NOTIONAL" by_type) (lookup "MIN_NOTIONAL" by_type))
    tick ← decimal_or default_filters.tick_size "tickSize" price
    step ← decimal_or default_filters.step_size "stepSize" lot
    least ← decimal_or default_filters.min_notional "minNotional" notional
    ok (record { tick_size = tick; step_size = step; min_notional = least })
