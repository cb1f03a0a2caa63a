-- ===== src/Routing.antt =====
-- engine/trading/venue_router.py, engine/trading/executor_router.py and engine/venues/registry.py:
-- which venue the settings name, and which executor takes the orders. A builder makes a venue from
-- its stored credentials (engine/venues/factory.py).
pub mod Fallback
use capital.Prelude.{
  String, ◌==◌, Bool, true, false, not, ◌&&◌, Option, none, some, List, [], ◌∷◌, find,
  if◌then◌else◌,
}
use capital.Models.{Setting}
use capital.Effects.{Result, ok, err, Error, key_error}
use capital.Effects.Stateful.{Action}
use capital.Executors.Venue.{Venue}
use capital.Settings.{
  TradingMode, sim, testnet, live, get_mode, get_active_venue, venue_credentials_configured,
}

pub record VenueInfo : Type 0 where
  pub name : String
  pub asset_class : String
  pub supports_sandbox : Bool
  pub credential_fields : List String

abbrev pub available_venues : List VenueInfo
available_venues =
    record {
      name = "binance";
      asset_class = "crypto";
      supports_sandbox = true;
      credential_fields = "api_key" ∷ "api_secret" ∷ [];
    }
    ∷ record {
      name = "alpaca";
      asset_class = "stocks";
      supports_sandbox = true;
      credential_fields = "api_key" ∷ "api_secret" ∷ [];
    }
    ∷ record {
      name = "polymarket";
      asset_class = "prediction-markets";
      supports_sandbox = false;
      credential_fields = "wallet_private_key" ∷ "wallet_address" ∷ [];
    }
    ∷ record {
      name = "binance-alpha";
      asset_class = "tokenized-stocks";
      supports_sandbox = false;
      credential_fields = [];
    }
    ∷ []

unfoldable pub get_venue : String → Option VenueInfo
get_venue name = find (λ v. v.name == name) available_venues

abbrev pub Builder : Type 0
Builder = List Setting → String → TradingMode → Result Venue

-- `except KeyError: build the default`
abbrev pub or_build : Result Venue → Result Venue → Result Venue
or_build (ok venue) other = ok venue
or_build (err key_error) other = other
or_build (err e) other = err e

abbrev pub build_in : Builder → String → List Setting → Result TradingMode → Result Venue
build_in builder default rows (err e) = err e
build_in builder default rows (ok mode) =
    or_build (builder rows (get_active_venue rows) mode) (builder rows default mode)

-- `VenueRouter.resolve`
unfoldable pub resolve_venue : Builder → String → List Setting → Result Venue
unfolding get_active_venue get_mode
resolve_venue builder default rows = build_in builder default rows (get_mode rows)

-- `SimExecutor`, or a `VenueExecutor` on a venue in a mode.
pub data Route : Type 0 where
  paper : Route
  through : Venue → TradingMode → Route

abbrev pub RouteCache : Type 0
RouteCache = List ((String × TradingMode) × Venue)

abbrev pub same_mode : TradingMode → TradingMode → Bool
same_mode sim sim = true
same_mode testnet testnet = true
same_mode live live = true
same_mode _ _ = false

abbrev pub cached_route : String → TradingMode → RouteCache → Option Venue
cached_route name mode [] = none
cached_route name mode (((n, m), venue) ∷ rest) =
    if n == name && same_mode m mode then some venue else cached_route name mode rest

abbrev pub required_fields : Option VenueInfo → List String
required_fields none = []
required_fields (some info) = info.credential_fields

-- A venue that was built is kept for the next tick; a venue that is not wired falls back.
abbrev pub keep_built : String → TradingMode → Result Venue → Action RouteCache Route
keep_built name mode (ok venue) cache = (ok (through venue mode), ((name, mode), venue) ∷ cache)
keep_built name mode (err key_error) cache = (ok paper, cache)
keep_built name mode (err e) cache = (err e, cache)

abbrev pub route_uncached :
    Builder → List Setting → String → TradingMode → Option Venue → Action RouteCache Route
route_uncached builder rows name mode (some venue) cache = (ok (through venue mode), cache)
route_uncached builder rows name mode none cache =
    if venue_credentials_configured name (required_fields (get_venue name)) rows
    then keep_built name mode (builder rows name mode) cache
    else (ok paper, cache)

abbrev pub route_in : Builder → List Setting → Result TradingMode → Action RouteCache Route
route_in builder rows (err e) cache = (err e, cache)
route_in builder rows (ok sim) cache = (ok paper, cache)
route_in builder rows (ok mode) cache =
    let name = get_active_venue rows in
    route_uncached builder rows name mode (cached_route name mode cache) cache

-- `ExecutorRouter.resolve`
unfoldable pub resolve_executor : Builder → List Setting → Action RouteCache Route
unfolding get_mode get_active_venue venue_credentials_configured get_venue
resolve_executor builder rows cache = route_in builder rows (get_mode rows) cache
