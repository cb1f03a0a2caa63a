-- ===== src/Tests/Venues.antt =====
-- The theorems on the exchange client and on the venues at concrete inputs.
use capital.Prelude.{ℕ, zero, suc, true, ◌<◌, ◌≡◌, refl, ◌⊎◌, false, none, some, [], negsuc}
use capital.Rational.{of_ℕ, le?}
use capital.Context.{unlimited}
use capital.Models.{buy}
use capital.Effects.{ok, err, binance_error, other_error, key_error}
use capital.Executors.Venue.{market_order, Venue, OrderRequest, OrderResult}
use capital.Exchange.{Call, call}
use capital.Exchange.Market.{spot, Sdk}
use capital.Exchange.Attempts.{Before, turned_away, pauses, call_settles}
use capital.Json.{Json, null, num, text, arr, obj, field, end, cons, nil, Reader}
use capital.Settings.{sim, Cipher}
use capital.Venues.Http.{Http}
use capital.Venues.Binance.{BinanceVenue, BinanceState, OrderClient, default_fee_rate, place_order}
use capital.Venues.Binance.Orders.{Placed, place_order-Placed}
use capital.Venues.Alpaca.{AlpacaVenue}
use capital.Venues.Alpaca as Alpaca
use capital.Venues.Factory.{Wiring, build_venue}
use capital.Venues.Contract.{Fulfils, build_venue-KeepsContract}

-- Turned away twice, then answered.
abbrev busy : Call
busy zero = err (binance_error (record { status = 429; code = negsuc 0 }))
busy (suc zero) = err (binance_error (record { status = 418; code = negsuc 1002 }))
busy (suc (suc n)) = ok null

call_settles_example :
    (k : ℕ) × (k < 3)
    × (call busy ≡ (busy k, pauses k))
    × Before busy k
    × ((turned_away (busy k) ≡ false) ⊎ (k ≡ 2))
call_settles_example = call_settles busy

abbrev unused : Call
unused attempt = err other_error

abbrev no_sdk : Sdk
no_sdk = record {
  ticker = λ m symbol. unused;
  klines = λ m symbol interval limit. unused;
  historical_klines = λ m symbol interval start stop. unused;
  mark_price = λ symbol. unused;
  income_history = λ symbol start. unused;
  position_information = unused;
  exchange_info = unused;
  symbol_info = λ symbol. unused;
  order_book = λ m symbol limit. unused;
}

abbrev any_reader : Reader
any_reader = record { parse = λ t. ok (of_ℕ 0); int = λ x. ok 0; show = λ x. "7" }

-- A trade of 1 at 100 with a commission of 1.
abbrev trade : Json
trade = obj (
    field "price" (num (of_ℕ 100))
      (field "qty" (num (of_ℕ 1)) (field "commission" (num (of_ℕ 1)) end)))

abbrev filled_at_once : OrderClient
filled_at_once = record {
  futures_change_leverage = λ symbol n. ok tt;
  futures_change_margin_type = λ symbol kind. ok tt;
  futures_create_order = λ params. err other_error;
  create_order = λ params. ok (obj (field "fills" (arr (cons trade nil)) end));
}

abbrev binance : BinanceVenue
binance = record {
  reader = any_reader;
  sdk = no_sdk;
  order_client = some filled_at_once;
  market = spot;
  fee_rate = default_fee_rate;
  futures_leverage = none;
  futures_margin_type = none;
}

abbrev buy_two : OrderRequest
buy_two = record {
  symbol = "BTCUSDT";
  side = buy;
  quantity = of_ℕ 2;
  order_type = market_order;
  limit_price = none;
  market = some "spot";
  client_order_id = none;
}

abbrev nothing_sent : BinanceState
nothing_sent = record { configured = []; sent = [] }

place_order-Placed_example :
    Placed binance ⦃c = unlimited⦄ buy_two nothing_sent
      (place_order binance ⦃c = unlimited⦄ buy_two nothing_sent)
place_order-Placed_example = place_order-Placed binance ⦃c = unlimited⦄ buy_two nothing_sent

-- A server that has filled every order.
abbrev filled_order : Json
filled_order = obj (
    field "id" (text "7")
      (field "filled_qty" (num (of_ℕ 2)) (field "filled_avg_price" (num (of_ℕ 100)) end)))

abbrev server : Http
server = record {
  get = λ url params. ok (record { status_code = 200; json = ok filled_order });
  post = λ url body. ok (record { status_code = 200; json = ok filled_order });
}

abbrev wiring : Wiring
wiring = record {
  reader = any_reader;
  fromisoformat = λ x. err key_error;
  show_decimal = λ q. "2";
  client = λ key secret sandbox. err other_error;
  public_client = no_sdk;
  alpaca_http = λ key secret. server;
  http = server;
}

abbrev open_cipher : Cipher
open_cipher = record { encrypt = λ s. s; decrypt = λ s. ok s }

abbrev alpaca : AlpacaVenue
alpaca = record {
  reader = any_reader;
  fromisoformat = λ x. err key_error;
  show_decimal = λ q. "2";
  http = server;
  paper = true;
}

abbrev built : Venue
built = Alpaca.as_venue alpaca ⦃c = unlimited⦄

abbrev filled_two : OrderResult
filled_two = record {
  symbol = "BTCUSDT";
  side = buy;
  filled_quantity = of_ℕ 2;
  price = of_ℕ 100;
  fee = of_ℕ 0;
  order_id = "7";
  client_order_id = "";
}

is_built : build_venue ⦃c = unlimited⦄ wiring open_cipher [] "alpaca" sim ≡ ok built
unfolding build_venue
is_built = refl

is_filled : built.place_order buy_two ≡ ok filled_two
unfolding Alpaca.place_order le?
is_filled = refl

build_venue-KeepsContract_example : Fulfils buy_two filled_two
build_venue-KeepsContract_example =
    build_venue-KeepsContract ⦃c = unlimited⦄ wiring open_cipher [] "alpaca" sim built buy_two
      filled_two is_built is_filled
