-- ===== src/Exchange/Client.antt =====
-- engine/exchange/client.py: the methods of `BinanceClient`, each behind the retry.
use capital.Prelude.{ℕ, String, Option, none, some, List, [], ◌∷◌, put, if◌then◌else◌}
use capital.Rational.{ℚ, of_ℕ}
use capital.Rational.Order.{eq?}
use capital.Models.{Time}
use capital.Effects.{Result, ok, err, value_error}
use capital.Effects.Fallible.{◌>>=◌, traverse}
use capital.Executors.{SymbolFilters}
use capital.Exchange.{call}
use capital.Exchange.Market.{
  Market, spot, futures, Ticker, Kline, FundingRate, FundingPayment, OrderBook, Sdk, unwrap, to_ms,
  option_ms, decimal_at, text_at, time_at, parse_ticker, parse_kline, parse_payment, levels,
  parse_filters,
}
use capital.Json.{Json, null, arr, nil, Reader, get, at_key, elements, or_json, truthy, is_text}

module _ (r : Reader) (sdk : Sdk) where
  unfoldable pub get_tickers : Market → Result (List Ticker)
  unfolding call
  get_tickers market = do
    raw ← (call (sdk.ticker market none)).0
    rows ← elements raw
    traverse (parse_ticker r) rows

  unfoldable pub get_ticker : String → Market → Result Ticker
  unfolding call
  get_ticker symbol market = do
    raw ← (call (sdk.ticker market (some symbol))).0
    one ← unwrap raw
    parse_ticker r one

  unfoldable pub get_klines : String → String → Market → ℕ → Result (List Kline)
  unfolding call
  get_klines symbol interval market limit = do
    raw ← (call (sdk.klines market symbol interval limit)).0
    rows ← elements raw
    traverse (parse_kline r) rows

  unfoldable pub get_historical_klines :
      String → String → Time → Option Time → Market → Result (List Kline)
  unfolding call
  get_historical_klines symbol interval start end_time market = do
    raw ← (call (sdk.historical_klines market symbol interval (to_ms start) (option_ms end_time))).0
    rows ← elements raw
    traverse (parse_kline r) rows

  unfoldable pub get_funding : String → Result FundingRate
  unfolding call
  get_funding symbol = do
    raw ← (call (sdk.mark_price symbol)).0
    one ← unwrap raw
    name ← text_at r "symbol" one
    rate ← decimal_at r "lastFundingRate" one
    mark ← decimal_at r "markPrice" one
    next ← time_at r "nextFundingTime" one
    ok (record { symbol = name; funding_rate = rate; mark_price = mark; next_funding_time = next })

  unfoldable pub get_funding_payments : String → Option Time → Result (List FundingPayment)
  unfolding call
  get_funding_payments symbol start = do
    raw ← (call (sdk.income_history symbol (option_ms start))).0
    rows ← elements raw
    traverse (parse_payment r) rows

  -- The open positions: an amount of 0 is none.
  abbrev pub positions_from : List (String × ℚ) → List Json → Result (List (String × ℚ))
  positions_from d [] = ok d
  positions_from d (entry ∷ entries) = do
    amount ← decimal_at r "positionAmt" entry
    next ←
        if eq? amount (of_ℕ 0)
        then ok d
        else (do symbol ← text_at r "symbol" entry; ok (put symbol amount d))
    positions_from next entries

  unfoldable pub get_futures_positions : Result (List (String × ℚ))
  unfolding call
  get_futures_positions = do
    raw ← (call sdk.position_information).0
    rows ← elements raw
    positions_from [] rows

  -- `next((s for s in symbols if s["symbol"] == symbol), None)`
  abbrev pub find_symbol : String → List Json → Result Json
  find_symbol symbol [] = ok null
  find_symbol symbol (s ∷ ss) = do
    name ← at_key "symbol" s
    if is_text symbol name then ok s else find_symbol symbol ss

  abbrev pub symbol_entry : String → Market → Result Json
  symbol_entry symbol spot = (call (sdk.symbol_info symbol)).0
  symbol_entry symbol futures = do
    info ← (call sdk.exchange_info).0
    listed ← get "symbols" info
    rows ← elements (or_json (arr nil) listed)
    find_symbol symbol rows

  unfoldable pub get_symbol_filters : String → Market → Result SymbolFilters
  unfolding call parse_filters
  get_symbol_filters symbol market = do
    entry ← symbol_entry symbol market
    if truthy entry then parse_filters r entry else err value_error

  unfoldable pub get_order_book : String → Market → ℕ → Result OrderBook
  unfolding call
  get_order_book symbol market limit = do
    raw ← (call (sdk.order_book market symbol limit)).0
    bid_side ← at_key "bids" raw
    bids ← levels r bid_side
    ask_side ← at_key "asks" raw
    asks ← levels r ask_side
    ok (record { symbol = symbol; bids = bids; asks = asks })
