-- ===== src/Engine/Vetted.antt =====
-- engine/trading/engine.py: the checks that an order passes between a strategy and an executor.
use capital.Context.{Context}
use capital.Models.{Order}
use capital.Engine.{Engine}
