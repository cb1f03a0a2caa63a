-- ===== src/Venues/Http.antt =====
-- The HTTP client that the venues share: `httpx` is a parameter.
use capital.Prelude.{ℕ, String, leb, List, if◌then◌else◌}
use capital.Effects.{Result, err, venue_error}
use capital.Json.{Json, arr, nil, truthy, elements}

-- A response: its status and what `response.json()` makes of its body.
pub record Response : Type 0 where
  pub status_code : ℕ
  pub json : Result Json

abbrev pub Params : Type 0
Params = List (String × Json)

pub record Http : Type 0 where
  pub get : String → Params → Result Response
  pub post : String → Params → Result Response

-- `if response.status_code >= 400: raise VenueError`
abbrev pub accepted : Response → Result Json
accepted response = if leb 400 response.status_code then err venue_error else response.json

-- `x or []`, for the rows of a loop.
abbrev pub rows_of : Json → Result (List Json)
rows_of x = elements (if truthy x then x else arr nil)
