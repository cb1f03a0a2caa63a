-- ===== src/Auth/Login.antt =====
-- engine/auth/deps.py and engine/auth/routes.py: who a credential stands for, the roles, and the
-- exchange of a password for tokens behind the lockout of engine/auth/ratelimit.py.
pub mod Lockout
use Prim.Native.String.{◌++◌ as concat}
use capital.Prelude.{
  ℕ, String, ◌==◌, Bool, true, false, not, ◌&&◌, Option, none, some, List, [], ◌∷◌, contains, ltb,
  if◌then◌else◌,
}
use capital.Models.{Time}
use capital.Effects.{Result, ok, err, Error, http_error, invalid_token}
use capital.Effects.Stateful.{Action, ◌>>=◌, ◌>>◌, raise_if, raise, pure, gets, modify, lift}
use capital.Effects.Fallible as F
use capital.RateLimit.{Limits, Attempts, is_locked, record_failure, reset}
use capital.Auth.{
  User, ApiToken, Accounts, Library, Lifetimes, Claims, verify_password, create_access_token,
  create_refresh_token, decode_token, find_user,
}
use capital.Auth.Tokens.{looks_like_api_token, verify_api_token}

-- `_tokens`
pub record TokenPair : Type 0 where
  pub access_token : String
  pub refresh_token : String

-- `except jwt.InvalidTokenError: raise HTTPException(401)`
abbrev pub unauthorized : {A : Type 0} → Result A → Result A
unauthorized (ok a) = ok a
unauthorized (err invalid_token) = err (http_error 401)
unauthorized (err e) = err e

-- `if user is None or not user.is_active: raise HTTPException(401)`
abbrev pub active : Option User → Result User
active none = err (http_error 401)
active (some u) = if u.is_active then ok u else err (http_error 401)

-- The principal that an API token stands for; it is never stored.
abbrev pub principal : Time → ApiToken → User
principal now t = record {
  id = 0;
  username = concat "token:" t.name;
  password_hash = "";
  role = t.role;
  is_active = true;
  updated_at = now;
}

abbrev pub token_user : Time → Option ApiToken × Accounts → Result User × Accounts
token_user now (none, s) = (err (http_error 401), s)
token_user now (some t, s) = (ok (principal now t), s)

abbrev pub require_role : List String → User → Result User
require_role roles u = if contains u.role roles then ok u else err (http_error 403)

abbrev pub require_admin : User → Result User
require_admin = require_role ("admin" ∷ [])

module _ (lib : Library) where
  unfoldable pub get_current_user : String → Time → Action Accounts User
  unfolding verify_api_token decode_token
  get_current_user token now s =
      if looks_like_api_token token then token_user now (verify_api_token lib token now s) else (
        F.◌>>=◌ (unauthorized (decode_token lib token "access" now))
            (λ claims. active (find_user claims.sub s.users)),
        s,
      )

  abbrev pub tokens_for : Lifetimes → User → Time → TokenPair
  tokens_for ttl u now = record {
    access_token = create_access_token lib ttl u.username u.role now;
    refresh_token = create_refresh_token lib ttl u.username now;
  }

  -- The user that a name and a password fit, if there is one that is active.
  abbrev pub credited : String → Option User → Result (Option User)
  credited password none = ok none
  credited password (some u) =
      if u.is_active
      then F.◌>>=◌ (verify_password lib password u.password_hash)
          (λ fits. ok (if fits then some u else none))
      else ok none

  abbrev pub admit : Limits → Lifetimes → String → Time → Option User → Action Attempts TokenPair
  admit limits ttl key now none = do modify (record_failure limits key now); raise (http_error 401)
  admit limits ttl key now (some u) = do modify (reset key); pure (tokens_for ttl u now)

  unfoldable pub login :
      Limits → Lifetimes → List User → String → String → Time → Action Attempts TokenPair
  unfolding is_locked record_failure reset
  login limits ttl users username password now = do
    locked_for ← gets (is_locked (lib.lower username) now)
    raise_if (ltb 0 locked_for) (http_error 429)
    found ← lift (credited password (find_user (some username) users))
    admit limits ttl (lib.lower username) now found

  unfoldable pub refresh : Lifetimes → List User → String → Time → Result TokenPair
  unfolding decode_token
  refresh ttl users token now =
      F.◌>>=◌ (unauthorized (decode_token lib token "refresh" now))
        λ claims. F.◌>>=◌ (active (find_user claims.sub users)) λ u. ok (tokens_for ttl u now)
