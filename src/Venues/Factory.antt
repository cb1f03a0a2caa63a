-- ===== src/Venues/Factory.antt =====
-- engine/venues/factory.py: a venue from its stored credentials. The SDK and HTTP clients are made
-- by a `Wiring`.
use capital.Prelude.{
  String, ◌==◌, Bool, true, false, not, Option, none, some, List, [], ◌∷◌, lookup, or_else,
  if◌then◌else◌,
}
use capital.Rational.{ℚ, of_ℕ, of_fraction}
use capital.Context.{Context}
use capital.Models.{Setting, Time}
use capital.Effects.{Result, ok, err, key_error}
use capital.Effects.Fallible.{◌>>=◌}
use capital.Executors.Venue.{Venue}
use capital.Exchange.Market.{spot, Sdk}
use capital.Json.{Json, Reader}
use capital.Settings.{TradingMode, sim, testnet, live, Cipher, get_venue_credentials}
use capital.Venues.Http.{Http}
use capital.Venues.Binance.{BinanceVenue, OrderClient, default_fee_rate}
use capital.Venues.Alpaca.{AlpacaVenue}
use capital.Venues.Polymarket.{PolymarketVenue}
use capital.Venues.BinanceAlpha.{BinanceAlphaVenue}
use capital.Venues.Binance as Binance
use capital.Venues.Alpaca as Alpaca
use capital.Venues.Polymarket as Polymarket
use capital.Venues.BinanceAlpha as BinanceAlpha

-- `Client(key, secret, testnet=...)`, the keyless client, the HTTP clients and the readers.
pub record Wiring : Type 0 where
  pub reader : Reader
  pub fromisoformat : Json → Result Time
  pub show_decimal : ℚ → String
  pub client : String → String → Bool → Result (Sdk × OrderClient)
  pub public_client : Sdk
  pub alpaca_http : String → String → Http
  pub http : Http

-- `venue_fee_rates`
abbrev pub venue_fee_rates : List (String × ℚ)
venue_fee_rates =
    ("binance", of_fraction (1, 0, 999))
    ∷ ("alpaca", of_ℕ 0)
    ∷ ("polymarket", of_ℕ 0)
    ∷ ("binance-alpha", of_ℕ 0)
    ∷ []

abbrev pub is_testnet : TradingMode → Bool
is_testnet testnet = true
is_testnet sim = false
is_testnet live = false

abbrev pub is_live : TradingMode → Bool
is_live live = true
is_live sim = false
is_live testnet = false

abbrev pub Credentials : Type 0
Credentials = List (String × String)

module _ ⦃c : Context⦄ (w : Wiring) where
  abbrev pub binance_over : Sdk → Option OrderClient → Venue
  binance_over sdk orders =
      let v : BinanceVenue = record {
        reader = w.reader;
        sdk = sdk;
        order_client = orders;
        market = spot;
        fee_rate = default_fee_rate;
        futures_leverage = none;
        futures_margin_type = none;
      } in
      Binance.as_venue v (record { configured = []; sent = [] })

  abbrev pub build_binance : Option String → Option String → TradingMode → Result Venue
  build_binance (some key) (some secret) mode = do
    clients ← w.client key secret (is_testnet mode)
    ok (binance_over clients.0 (some clients.1))
  build_binance (some key) none mode = ok (binance_over w.public_client none)
  build_binance none secret mode = ok (binance_over w.public_client none)

  abbrev pub build_alpaca : Credentials → TradingMode → Venue
  build_alpaca creds mode =
      let v : AlpacaVenue = record {
        reader = w.reader;
        fromisoformat = w.fromisoformat;
        show_decimal = w.show_decimal;
        http =
            w.alpaca_http (or_else "" (lookup "api_key" creds))
              (or_else "" (lookup "api_secret" creds));
        paper = not (is_live mode);
      } in
      Alpaca.as_venue v

  abbrev pub build_polymarket : Credentials → Venue
  build_polymarket creds =
      let v : PolymarketVenue = record {
        reader = w.reader;
        http = w.http;
        order_client = none;
        wallet_address = or_else "" (lookup "wallet_address" creds);
      } in
      Polymarket.as_venue v

  abbrev pub build_alpha : Venue
  build_alpha =
      let v : BinanceAlphaVenue = record { reader = w.reader; http = w.http } in
      BinanceAlpha.as_venue v

  abbrev pub build_named : String → TradingMode → Credentials → Result Venue
  build_named name mode creds =
      if name == "binance"
      then build_binance (lookup "api_key" creds) (lookup "api_secret" creds) mode
      else if name == "alpaca"
      then ok (build_alpaca creds mode)
      else if name == "polymarket"
      then ok (build_polymarket creds)
      else if name == "binance-alpha"
      then ok build_alpha
      else err key_error

  unfoldable pub build_venue : Cipher → List Setting → String → TradingMode → Result Venue
  unfolding get_venue_credentials
  build_venue cipher rows name mode = do
    creds ← get_venue_credentials cipher name rows
    build_named name mode creds
