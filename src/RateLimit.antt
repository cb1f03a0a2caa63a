-- ===== src/RateLimit.antt =====
-- engine/auth/ratelimit.py: the lockout of a user name after failed logins. The clock is in
-- microseconds, and a count is kept for each key.
pub mod Lockout
use capital.Prelude.{
  ℕ, ◌+◌, ◌-◌, ◌*◌, String, ◌==◌, Bool, Option, none, some, List, [], ◌∷◌, lookup, leb, ltb,
  if◌then◌else◌,
}

-- `(failure_count, locked_until)`, with 0 for no lockout.
abbrev pub Attempt : Type 0
Attempt = ℕ × ℕ

abbrev pub Attempts : Type 0
Attempts = List (String × Attempt)

-- `settings.login_max_attempts` and `settings.login_lockout_minutes`
pub record Limits : Type 0 where
  pub max_attempts : ℕ
  pub lockout_minutes : ℕ

abbrev pub remaining : Option Attempt → ℕ → ℕ
remaining none now = 0
remaining (some (count, locked_until)) now = if ltb now locked_until then locked_until - now else 0

-- The time left on a lockout, 0 when there is none.
unfoldable pub is_locked : String → ℕ → Attempts → ℕ
is_locked key now attempts = remaining (lookup key attempts) now

abbrev pub count_of : Option Attempt → ℕ
count_of none = 0
count_of (some (count, locked_until)) = count

-- `_attempts[key] = value`
unfoldable pub store : String → Attempt → Attempts → Attempts
store key v [] = (key, v) ∷ []
store key v ((k, w) ∷ rest) = if k == key then (k, v) ∷ rest else (k, w) ∷ store key v rest

abbrev pub minute : ℕ
minute = 60_000_000

abbrev pub failed : Limits → ℕ → ℕ → Attempt
failed limits now count =
    (count, if leb limits.max_attempts count then now + limits.lockout_minutes * minute else 0)

unfoldable pub record_failure : Limits → String → ℕ → Attempts → Attempts
unfolding store
record_failure limits key now attempts =
    store key (failed limits now (count_of (lookup key attempts) + 1)) attempts

-- `_attempts.pop(key, None)`
unfoldable pub reset : String → Attempts → Attempts
reset key [] = []
reset key ((k, w) ∷ rest) = if k == key then rest else (k, w) ∷ reset key rest
