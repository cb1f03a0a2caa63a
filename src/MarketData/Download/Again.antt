-- ===== src/MarketData/Download/Again.antt =====
-- engine/marketdata/cache.py: to download a range again adds nothing.
use capital.Prelude.{
  ℕ, String, eq_refl, ◌≡◌, refl, ap, subst, Bool, true, Bool-cases, inl, inr, Option, List, [], ◌∷◌,
  ◌++◌, map, select, eqb, arith,
}
use mathlib.Core.List.{append-nil}
use capital.Context.{Context}
use capital.Models.{Candle, Database, Time}
use capital.Effects.{Result, ok}
use capital.Effects.Fallible.{Result-cases}
use capital.Exchange.Market.{Market, Kline, Sdk}
use capital.Exchange.Client.{get_historical_klines}
use capital.Json.{Reader}
use capital.MarketData.Cache.{existing_open_times, has_time, clashes, is_series}
use capital.MarketData.Download.{market_value, to_candle, new_klines, download_candles}

abbrev times : List Candle → List Time
times ks = map (λ k. k.open_time) ks

has_time-append :
    (t : Time) (us vs : List Time)
    → (has_time t us ≡ true → has_time t (us ++ vs) ≡ true)
      × (has_time t vs ≡ true → has_time t (us ++ vs) ≡ true)
has_time-append t [] vs = (λ h. cc, λ h. h)
has_time-append t (u ∷ us) vs =
    let (l, r) = has_time-append t us vs in (λ h. ground (arith, l), λ h. ground (arith, r))

-- The times of a series once some of its rows are appended.
times-append :
    (p : Candle → Bool) (ks rows : List Candle)
    → select p rows ≡ rows
    → times (select p (ks ++ rows)) ≡ times (select p ks) ++ times rows
times-append p [] rows h = ap times h
times-append p (k ∷ ks) rows h = elim (Bool-cases (p k)) [
  | inl e ↦ rw e (ap (λ ts. k.open_time ∷ ts) (times-append p ks rows h))
  | inr e ↦ rw e (times-append p ks rows h)
]

module _ ⦃c : Context⦄ (market : Market) (symbol interval : String) where
  in_series :
      (k : Kline)
      → is_series (market_value market) symbol interval (to_candle market symbol interval k) ≡ true
  in_series k = rw (eq_refl (market_value market), eq_refl symbol, eq_refl interval) refl

  select-new_klines :
      (known : List Time) (ks : List Kline)
      → select
          (is_series (market_value market) symbol interval)
          (new_klines market symbol interval known ks)
        ≡ new_klines market symbol interval known ks
  select-new_klines known [] = refl
  select-new_klines known (k ∷ ks) = elim (Bool-cases (has_time k.open_time known)) [
    | inl e ↦ rw e (select-new_klines known ks)
    | inr e ↦
        rw (e, in_series k)
          (ap (λ t. to_candle market symbol interval k ∷ t) (select-new_klines known ks))
  ]

  -- Nothing is new to a cache that knows what was known, and the times of what was new.
  none_new :
      (known later : List Time) (ks : List Kline)
      → ((t : Time) → has_time t known ≡ true → has_time t later ≡ true)
      → ((t : Time)
          → has_time t (times (new_klines market symbol interval known ks)) ≡ true
          → has_time t later ≡ true)
      → new_klines market symbol interval later ks ≡ []
  none_new known later [] old new = refl
  none_new known later (k ∷ ks) old new = elim (Bool-cases (has_time k.open_time known)) [
    | inl e ↦ rw (old k.open_time e) (none_new known later ks old (rw e at new))
    | inr e ↦
        let new' = rw e at new in
        let self : eqb k.open_time k.open_time ≡ true = ground arith in
        rw (new' k.open_time (rw self refl))
          (none_new known later ks old λ t h. new' t (ground arith))
  ]

  module _ (reader : Reader) (sdk : Sdk) (start : Time) (end_time : Option Time) where
    abbrev download : Database → Result ℕ × Database
    download db = download_candles reader sdk market symbol interval start end_time db

    second :
        (db : Database) (fetched : List Kline)
        → get_historical_klines reader sdk symbol interval start end_time market ≡ ok fetched
        → let known = existing_open_times (market_value market) symbol interval db in
          let after = record db {
            candles = db.candles ++ new_klines market symbol interval known fetched;
          } in
          download after ≡ (ok 0, after)
    unfolding download_candles
    second db fetched got =
        let known : List Time = existing_open_times (market_value market) symbol interval db in
        let rows : List Candle = new_klines market symbol interval known fetched in
        let after : Database = record db { candles = db.candles ++ rows } in
        let later : existing_open_times (market_value market) symbol interval after
            ≡ known ++ times rows =
          times-append (is_series (market_value market) symbol interval) db.candles rows
            (select-new_klines known fetched) in
        let nothing : new_klines market symbol interval
              (existing_open_times (market_value market) symbol interval after) fetched
            ≡ [] =
          none_new known _ fetched (λ t h. rw later ((has_time-append t known (times rows)).0 h))
            (λ t h. rw later ((has_time-append t known (times rows)).1 h)) in
        rw (got, nothing)
          (ap (λ ks. (ok 0, record db { candles = ks })) (append-nil (db.candles ++ rows)))

    -- To download a range again, right after a download that succeeded and with the same answer of
    -- the exchange, succeeds, adds no candle and changes nothing.
    pub download_candles-again :
        (n : ℕ) (db after : Database) → download db ≡ (ok n, after) → download after ≡ (ok 0, after)
    unfolding download_candles
    download_candles-again n db after h =
        elim (Result-cases
          (get_historical_klines reader sdk symbol interval start end_time market)) [
            | inr (e, got) ↦ let k = rw got at h in cc
            | inl (fetched, got) ↦
                let known : List Time =
                  existing_open_times (market_value market) symbol interval db in
                let rows : List Candle = new_klines market symbol interval known fetched in
                elim (Bool-cases (clashes rows)) [
                  | inl e ↦ let k = rw (got, e) at h in cc
                  | inr e ↦
                      subst (λ d. download d ≡ (ok 0, d)) (ap (λ out. out.1) (rw (got, e) at h))
                        (second db fetched got)
                ]
          ]
