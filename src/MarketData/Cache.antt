-- ===== src/MarketData/Cache.antt =====
-- engine/marketdata/cache.py: candles are inserted once and never changed. Times are naive UTC.
pub mod Inserts
use capital.Prelude.{
  ℕ, ◌+◌, ◌-◌, ◌*◌, String, ◌==◌, Bool, true, false, not, ◌&&◌, Option, none, some, List, [], ◌∷◌,
  ◌++◌, map, select, eqb, leb, sort_by, take_last, if◌then◌else◌,
}
use capital.Context.{Context}
use capital.Models.{Candle, Database, Time}
use capital.Effects.{Result, ok, err, other_error}
use capital.Effects.Stateful.{Action, ◌>>=◌, ◌>>◌, lift, gets}
use capital.Executors.Venue.{Venue, VenueCandle}
use capital.MarketData.Freshness.{interval_seconds, codes}

abbrev pub is_series : String → String → String → Candle → Bool
is_series market symbol interval k =
    k.market == market && (k.symbol == symbol && k.interval == interval)

abbrev pub series : String → String → String → Database → List Candle
series market symbol interval db = select (is_series market symbol interval) db.candles

unfoldable pub get_cached_candles : String → String → String → ℕ → Database → List Candle
get_cached_candles market symbol interval limit db =
    take_last limit (sort_by (λ k. k.open_time) (series market symbol interval db))

-- `_existing_open_times`
abbrev pub existing_open_times : String → String → String → Database → List Time
existing_open_times market symbol interval db =
    map (λ k. k.open_time) (series market symbol interval db)

abbrev pub has_time : Time → List Time → Bool
has_time t [] = false
has_time t (u ∷ us) = if eqb u t then true else has_time t us

-- The optional upper end of a range.
abbrev pub is_before : Option Time → Candle → Bool
is_before none k = true
is_before (some e) k = leb k.open_time e

unfoldable pub get_candle_range :
    String → String → String → Time → Option Time → Database → List Candle
get_candle_range market symbol interval start end db =
    sort_by (λ k. k.open_time)
      (select (λ k. leb start k.open_time && is_before end k) (series market symbol interval db))

module _ ⦃c : Context⦄ where
  -- The row of a bar, as it reads once written. The close time is derived from the interval.
  abbrev pub candle_of : String → String → String → ℕ → VenueCandle → Candle
  candle_of market symbol interval seconds bar = record {
    market = market;
    symbol = symbol;
    interval = interval;
    open_time = bar.open_time;
    open_price = c.price_column bar.open_price;
    high = c.price_column bar.high;
    low = c.price_column bar.low;
    close = c.price_column bar.close;
    volume = c.price_column bar.volume;
    close_time = bar.open_time + seconds * 1_000_000 - 1000;
  }

  abbrev pub new_rows : String → String → String → ℕ → List Time → List VenueCandle → List Candle
  new_rows market symbol interval seconds known [] = []
  new_rows market symbol interval seconds known (bar ∷ bars) =
      if has_time bar.open_time known
      then new_rows market symbol interval seconds known bars
      else candle_of market symbol interval seconds bar
        ∷ new_rows market symbol interval seconds known bars

  -- Whether two of the rows have one open time: the unique constraint refuses the whole batch.
  abbrev pub clashes : List Candle → Bool
  clashes [] = false
  clashes (k ∷ ks) = if has_time k.open_time (map (λ j. j.open_time) ks) then true else clashes ks

  abbrev pub insert_rows : List Candle → Action Database (Unit {0})
  insert_rows rows db =
      if clashes rows
      then (err other_error, db)
      else (ok tt, record db { candles = db.candles ++ rows })

  unfoldable pub refresh_venue_candles :
      Venue → String → String → String → ℕ → Action Database (List Candle)
  unfolding get_cached_candles interval_seconds
  refresh_venue_candles venue market symbol interval limit = do
    fetched ← lift (venue.candles symbol interval limit (some market))
    known ← gets (existing_open_times market symbol interval)
    seconds ← lift (interval_seconds (codes interval))
    insert_rows (new_rows market symbol interval seconds known fetched)
    gets (get_cached_candles market symbol interval limit)
