-- ===== src/Effects.antt =====
-- Exceptions as values, and actions on a shared state: what a Python function does that may raise
-- and that writes the database. An exception keeps what was committed before it.
pub mod Fallible
pub mod Stateful
use capital.Prelude.{ℕ, ℤ}

-- `BinanceAPIException`: its status code and Binance's own code.
pub record ApiFault : Type 0 where
  pub status : ℕ
  pub code : ℤ

pub data Error : Type 0 where
  -- `ValueError`
  value_error : Error
  -- `ExecutionError` of trading/executors/base.py
  execution_error : Error
  -- `StrategyLifecycleError` of trading/lifecycle.py
  lifecycle_error : Error
  -- `LLMError` of ai/providers/base.py
  llm_error : Error
  -- `VenueError` of venues/base.py
  venue_error : Error
  -- `KeyError`
  key_error : Error
  -- `decimal.DivisionByZero` and `decimal.InvalidOperation`
  arithmetic_error : Error
  -- an `HTTPException` of an endpoint, with its status code
  http_error : ℕ → Error
  -- `BinanceAPIException` of python-binance
  binance_error : ApiFault → Error
  -- `jwt.InvalidTokenError`
  invalid_token : Error
  -- `json.JSONDecodeError`
  json_error : Error
  -- any other exception of a library
  other_error : Error

pub data Result {ℓ} (A : Type ℓ) : Type ℓ where
  ok : A → Result A
  err : Error → Result A
