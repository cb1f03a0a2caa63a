-- ===== src/MarketData/Download.antt =====
-- engine/marketdata/cache.py: the cache over the Binance client, and the downloader of history.
pub mod Again
use capital.Prelude.{ℕ, String, Bool, true, false, Option, List, [], ◌∷◌, length, if◌then◌else◌}
use capital.Context.{Context}
use capital.Models.{Candle, Database, Time}
use capital.Effects.{Result, ok}
use capital.Effects.Stateful.{Action, ◌>>=◌, ◌>>◌, lift, gets, pure}
use capital.Exchange.Market.{Market, spot, futures, Kline, Sdk}
use capital.Exchange.Client.{get_klines, get_historical_klines}
use capital.Json.{Reader}
use capital.MarketData.Cache.{existing_open_times, has_time, insert_rows, get_cached_candles}

-- `market.value`
abbrev pub market_value : Market → String
market_value spot = "spot"
market_value futures = "futures"

module _ ⦃c : Context⦄ where
  -- `_to_candle`, as the row reads once written.
  abbrev pub to_candle : Market → String → String → Kline → Candle
  to_candle market symbol interval k = record {
    market = market_value market;
    symbol = symbol;
    interval = interval;
    open_time = k.open_time;
    open_price = c.price_column k.open_price;
    high = c.price_column k.high;
    low = c.price_column k.low;
    close = c.price_column k.close;
    volume = c.price_column k.volume;
    close_time = k.close_time;
  }

  abbrev pub new_klines : Market → String → String → List Time → List Kline → List Candle
  new_klines market symbol interval known [] = []
  new_klines market symbol interval known (k ∷ ks) =
      let rest = new_klines market symbol interval known ks in
      if has_time k.open_time known then rest else to_candle market symbol interval k ∷ rest

  module _ (reader : Reader) (sdk : Sdk) where
    unfoldable pub refresh_candles : Market → String → String → ℕ → Action Database (List Candle)
    unfolding get_klines get_cached_candles
    refresh_candles market symbol interval limit = do
      fetched ← lift (get_klines reader sdk symbol interval market limit)
      known ← gets (existing_open_times (market_value market) symbol interval)
      insert_rows (new_klines market symbol interval known fetched)
      gets (get_cached_candles (market_value market) symbol interval limit)

    unfoldable pub download_candles :
        Market → String → String → Time → Option Time → Action Database ℕ
    unfolding get_historical_klines
    download_candles market symbol interval start end_time = do
      fetched ← lift (get_historical_klines reader sdk symbol interval start end_time market)
      known ← gets (existing_open_times (market_value market) symbol interval)
      insert_rows (new_klines market symbol interval known fetched)
      pure (length (new_klines market symbol interval known fetched))
