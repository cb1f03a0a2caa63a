-- ===== src/Exchange.antt =====
-- engine/exchange/client.py: Binance's market data as typed values, behind a retry. What the SDK
-- answers is a parameter: for each call, the outcome of each attempt.
pub mod Market
pub mod Client
pub mod Attempts
use capital.Prelude.{
  ℕ, zero, suc, ◌+◌, ◌*◌, String, Bool, true, false, not, ◌||◌, Option, none, some, List, [], ◌∷◌,
  eqb, ℤ, negsuc, same_int, if◌then◌else◌,
}
use capital.Rational.{ℚ, of_ℕ, of_fraction, ◌*ℚ◌}
use capital.Effects.{Result, ok, err, Error, ApiFault, binance_error, other_error}
use capital.Json.{Json}

abbrev pub max_retries : ℕ
max_retries = 3

-- 1.5
abbrev pub backoff_seconds : ℚ
backoff_seconds = of_fraction (3, 0, 1)

-- The outcomes of a call of the SDK, by attempt.
abbrev pub Call : Type 0
Call = ℕ → Result Json

-- `exc.status_code == 429 or exc.code == -1003`, of a `BinanceAPIException`
abbrev pub is_rate_limited : Error → Bool
is_rate_limited (binance_error fault) = eqb fault.status 429 || same_int fault.code (negsuc 1002)
is_rate_limited _ = false

-- `time.sleep(_BACKOFF_SECONDS * (attempt + 1))`
abbrev pub backoff : ℕ → ℚ
backoff attempt = backoff_seconds *ℚ of_ℕ (suc attempt)

-- What a call came to, and the pauses on the way.
abbrev pub Retried : Type 0
Retried = Result Json × List ℚ

abbrev pub paused : ℚ → Retried → Retried
paused seconds (r, pauses) = (r, seconds ∷ pauses)

-- An attempt, with what follows it if it was turned away.
abbrev pub settle : ℕ → ℕ → Result Json → Retried → Retried
settle left attempt (ok a) rest = (ok a, [])
settle left attempt (err e) rest =
    if not (is_rate_limited e) || eqb left 0 then (err e, []) else paused (backoff attempt) rest

-- The attempts that are left, from a number on; the last line is `raise RuntimeError`.
abbrev pub attempts : ℕ → ℕ → Call → Retried
attempts zero attempt fn = (err other_error, [])
attempts (suc left) attempt fn = settle left attempt (fn attempt) (attempts left (suc attempt) fn)

-- `_call`
unfoldable pub call : Call → Retried
call fn = attempts max_retries 0 fn
