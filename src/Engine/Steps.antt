-- ===== src/Engine/Steps.antt =====
-- What the steps of a strategy's tick may change in the database.
use capital.Prelude.{ℕ, String, ◌≡◌, refl, Option, none, some, Bool-cases, inl, inr, List, ◌++◌}
use capital.Context.{Context}
use capital.Models.{Position, Candle, Database}
use capital.Effects.Fallible.{Result-cases}
use capital.Portfolio.Positions.{find_position, get_or_create_position, or_insert, new_position}
use capital.Executors.Venue.{Venue}
use capital.MarketData.Freshness.{interval_seconds, codes}
use capital.MarketData.Cache.{refresh_venue_candles, new_rows, existing_open_times, clashes}

abbrev pub with_candles : List Candle → Database → Database
with_candles ks db = record db { candles = ks }

abbrev pub with_positions : List Position → Database → Database
with_positions ps db = record db { positions = ps }

pub get_or_create-changes :
    (strategy market symbol : String) (db : Database)
    → (ps : List Position) × ((get_or_create_position strategy market symbol db).1
        ≡ with_positions ps db)
unfolding get_or_create_position
get_or_create-changes strategy market symbol db = by_row (find_position strategy market symbol db)
  where
    by_row :
        (row : Option Position)
        → (ps : List Position) × ((or_insert (new_position strategy market symbol) row db).1
            ≡ with_positions ps db)
    by_row none = (_, refl)
    by_row (some p) = (_, refl)

module _ ⦃c : Context⦄ where
  pub refresh-changes :
      (venue : Venue) (market symbol interval : String) (limit : ℕ) (db : Database)
      → (ks : List Candle) × ((refresh_venue_candles venue market symbol interval limit db).1
          ≡ with_candles ks db)
  unfolding refresh_venue_candles
  refresh-changes venue market symbol interval limit db =
      elim (Result-cases (venue.candles symbol interval limit (some market))) [
        | inr (x, e) ↦ (db.candles, rw e refl)
        | inl (fetched, e) ↦ elim (Result-cases (interval_seconds (codes interval))) [
          | inr (x, f) ↦ (db.candles, rw e (rw f refl))
          | inl (seconds, f) ↦
              let rows : List Candle =
                new_rows market symbol interval seconds
                  (existing_open_times market symbol interval db) fetched in
              elim (Bool-cases (clashes rows)) [
                | inl g ↦ (db.candles, rw e (rw f (rw g refl)))
                | inr g ↦ (db.candles ++ rows, rw e (rw f (rw g refl)))
              ]
        ]
      ]
