-- ===== src/Engine/Unread.antt =====
-- engine/strategies/ai_strategy.py and engine/trading/engine.py: a completion that cannot be read.
use capital.Context.{Context}
use capital.Engine.{Engine}
