-- ===== src/Venues/Binance/Costs.antt =====
-- engine/venues/binance.py: the price of a result is what the trades that filled it cost.
use capital.Context.{Context}
use capital.Effects.Fallible as F
use capital.Json.{Json}
