-- ===== src/Routing/Fallback.antt =====
-- engine/trading/executor_router.py: when orders leave the paper executor.
use capital.Prelude.{◌≡◌, ◌≢◌, true, ◌⊎◌, some, List}
use capital.Models.{Setting}
use capital.Effects.{ok}
use capital.Executors.Venue.{Venue}
use capital.Settings.{TradingMode, sim, get_mode, get_active_venue, venue_credentials_configured}
use capital.Routing.{Builder, RouteCache, cached_route, required_fields, get_venue}

-- Why a venue gets the orders: the stored mode is not sim, and the venue was built before or its
-- credentials are stored.
pub record Trusted (rows : List Setting) (cache : RouteCache) (venue : Venue) (mode : TradingMode)
    : Type 0 where
  pub chosen : get_mode rows ≡ ok mode
  pub real : mode ≢ sim
  pub backed :
      (cached_route (get_active_venue rows) mode cache ≡ some venue)
      ⊎ (venue_credentials_configured
            (get_active_venue rows)
            (required_fields (get_venue (get_active_venue rows)))
            rows
          ≡ true)

module _ (builder : Builder) (rows : List Setting) (cache : RouteCache) (venue : Venue) where
  abbrev Backed : TradingMode → Type 0
  Backed m =
      (cached_route (get_active_venue rows) m cache ≡ some venue)
      ⊎ (venue_credentials_configured (get_active_venue rows)
            (required_fields (get_venue (get_active_venue rows))) rows
          ≡ true)
