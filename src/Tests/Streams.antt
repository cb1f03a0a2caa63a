-- ===== src/Tests/Streams.antt =====
-- The theorems on the downloader and on the ticker stream at concrete inputs.
use capital.Prelude.{String, ◌≡◌, refl, true, none, []}
use capital.Context.{unlimited}
use capital.Rational.{of_ℕ}
use capital.Effects.{Result, ok, err, other_error}
use capital.Exchange.{Call}
use capital.Exchange.Market.{spot, Sdk}
use capital.Exchange.Client.{get_historical_klines}
use capital.Json.{Json, num, arr, cons, nil, Reader}
use capital.Models.{Database}
use capital.MarketData.Download.{download_candles}
use capital.MarketData.Download.Again.{download_candles-again}
use capital.MarketData.Stream.{
  Stream, started, connected, stopped, after_message, handle, here, then_step, connect,
}
use capital.MarketData.Stream.Backoff.{InBounds, Reconnects, run-started}
use capital.Tests.Data.{empty_db}

abbrev any_reader : Reader
any_reader = record { parse = λ t. ok (of_ℕ 0); int = λ x. ok 7000; show = λ x. "7" }

-- One kline, with the number 5 in every place.
abbrev kline : Json
kline =
    let n : Json = num (of_ℕ 5) in
    arr (cons n (cons n (cons n (cons n (cons n (cons n (cons n nil)))))))

abbrev one_kline : Call
one_kline attempt = ok (arr (cons kline nil))

abbrev sdk : Sdk
sdk = record {
  ticker = λ m symbol. one_kline;
  klines = λ m symbol interval limit. one_kline;
  historical_klines = λ m symbol interval start stop. one_kline;
  mark_price = λ symbol. one_kline;
  income_history = λ symbol start. one_kline;
  position_information = one_kline;
  exchange_info = one_kline;
  symbol_info = λ symbol. one_kline;
  order_book = λ m symbol limit. one_kline;
}

abbrev downloaded : Database
downloaded = (download_candles ⦃c = unlimited⦄ any_reader sdk spot "BTC" "1h" 0 none empty_db).1

downloads :
    download_candles ⦃c = unlimited⦄ any_reader sdk spot "BTC" "1h" 0 none empty_db
    ≡ (ok 1, downloaded)
unfolding download_candles get_historical_klines
downloads = refl

download_candles-again_example :
    download_candles ⦃c = unlimited⦄ any_reader sdk spot "BTC" "1h" 0 none downloaded
    ≡ (ok 0, downloaded)
download_candles-again_example =
    download_candles-again ⦃c = unlimited⦄ spot "BTC" "1h" any_reader sdk 0 none 1 empty_db
      downloaded downloads

abbrev no_messages : String → Result Json
no_messages raw = err other_error

-- Connected, and then stopped.
abbrev halted : Stream
halted = stopped (connected (started []))

abbrev last_message : Stream
last_message = after_message halted (handle any_reader no_messages "x" [])

run-started_example :
    InBounds (connected (started [])).backoff
    × ((connected (started [])).running ≡ true
        → Reconnects any_reader no_messages (connected (started [])))
run-started_example =
    run-started any_reader no_messages [] (connected (started []))
      (then_step (started []) (connected (started [])) here (connect refl))
