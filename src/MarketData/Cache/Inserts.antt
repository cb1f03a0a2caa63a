-- ===== src/MarketData/Cache/Inserts.antt =====
-- engine/marketdata/cache.py: a refresh only ever adds candles, each once.
use capital.Prelude.{
  ℕ, String, eq_refl, ◌≡◌, refl, sym, ap, true, false, Bool-cases, inl, inr, some, List, [], ◌∷◌,
  ◌++◌, All,
}
use capital.Context.{Context}
use capital.Models.{Candle, Database}
use capital.Effects.Fallible.{Result-cases}
use capital.Executors.Venue.{Venue, VenueCandle}
use capital.MarketData.Freshness.{interval_seconds, codes}
use capital.MarketData.Cache.{
  refresh_venue_candles, new_rows, candle_of, existing_open_times, has_time, clashes, is_series,
}

append_nil : {A : Type 0} (xs : List A) → xs ++ [] ≡ xs
append_nil [] = refl
append_nil (x ∷ xs) = ap (λ ys. x ∷ ys) (append_nil xs)

module _ ⦃c : Context⦄ (venue : Venue) (market symbol interval : String) (limit : ℕ)
    (db : Database) where
  -- A row of the series whose time the cache does not have.
  abbrev pub IsFresh : Candle → Type 0
  IsFresh k =
      (is_series market symbol interval k ≡ true)
      × (has_time k.open_time (existing_open_times market symbol interval db) ≡ false)

  -- A database with some fresh rows more, no two of them at one time.
  pub record Extends (after : Database) : Type 0 where
    pub rows : List Candle
    pub stored : after ≡ record db { candles = db.candles ++ rows }
    pub fresh : All IsFresh rows
    pub distinct : clashes rows ≡ false

  new_rows-IsFresh :
      (seconds : ℕ) (bars : List VenueCandle)
      → All IsFresh (
          new_rows market symbol interval seconds
            (existing_open_times market symbol interval db)
            bars)
  new_rows-IsFresh seconds [] = tt
  new_rows-IsFresh seconds (bar ∷ bars) =
      elim (Bool-cases (has_time bar.open_time (existing_open_times market symbol interval db))) [
        | inl known ↦ rw known (new_rows-IsFresh seconds bars)
        | inr new ↦ rw new ((in_series, new), new_rows-IsFresh seconds bars)
      ]
    where
      in_series :
          is_series market symbol interval (candle_of market symbol interval seconds bar) ≡ true
      in_series = rw (eq_refl market, eq_refl symbol, eq_refl interval) refl

  same-Extends : Extends db
  same-Extends = record {
    rows = [];
    stored = ap (λ ks. record db { candles = ks }) (sym (append_nil db.candles));
    fresh = tt;
    distinct = refl;
  }

  -- Whatever a venue answers, and whether or not the refresh raises, every cached candle stays as
  -- it is and where it is; only candles of the asked series are added, at times that the series did
  -- not have, and no two at one time.
  pub refresh_venue_candles-Extends :
      Extends (refresh_venue_candles venue market symbol interval limit db).1
  unfolding refresh_venue_candles
  refresh_venue_candles-Extends =
      elim (Result-cases (venue.candles symbol interval limit (some market))) [
        | inr (x, e) ↦ rw e same-Extends
        | inl (fetched, e) ↦ elim (Result-cases (interval_seconds (codes interval))) [
          | inr (x, f) ↦ rw e (rw f same-Extends)
          | inl (seconds, f) ↦
              let rows : List Candle =
                new_rows market symbol interval seconds
                  (existing_open_times market symbol interval db) fetched in
              elim (Bool-cases (clashes rows)) [
                | inl g ↦ rw e (rw f (rw g same-Extends))
                | inr g ↦ rw e (
                    rw f (
                      rw g (record {
                        rows = rows;
                        stored = refl;
                        fresh = new_rows-IsFresh seconds fetched;
                        distinct = g;
                      })))
              ]
        ]
      ]
