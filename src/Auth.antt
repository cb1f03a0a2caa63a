-- ===== src/Auth.antt =====
-- engine/auth/models.py, engine/auth/security.py and engine/auth/audit.py: the operators, their
-- credentials and the audit trail. The bcrypt and JWT libraries, SHA-256, `secrets` and
-- `json.dumps` are parameters, and so is the primary key that the database gives to a new row.
pub mod Tokens
pub mod Login
pub mod Users
use capital.Prelude.{
  ℕ, ◌+◌, ◌*◌, String, ◌==◌, Bool, true, false, Option, none, some, List, [], ◌∷◌, ◌++◌, find,
  if◌then◌else◌,
}
use capital.Json.{Json}
use capital.Models.{Time}
use capital.Effects.{Result, ok, err, Error, invalid_token, value_error}
use capital.Effects.Fallible.{◌>>=◌}
use capital.RateLimit.{minute}

pub data Role : Type 0 where
  admin : Role
  user : Role

abbrev pub role_value : Role → String
role_value admin = "admin"
role_value user = "user"

pub record User : Type 0 where
  pub id : ℕ
  pub username : String
  pub password_hash : String
  pub role : String
  pub is_active : Bool
  pub updated_at : Time

pub record ApiToken : Type 0 where
  pub id : ℕ
  pub name : String
  pub token_hash : String
  pub role : String
  pub revoked : Bool
  pub created_at : Time
  pub last_used_at : Option Time

pub record AuditLog : Type 0 where
  pub actor : String
  pub action : String
  pub target : Option String
  pub detail : Option String

-- The tables of engine/auth, each in the order of insertion.
pub record Accounts : Type 0 where
  pub users : List User
  pub tokens : List ApiToken
  pub audit : List AuditLog

-- The claims of a JWT.
pub record Claims : Type 0 where
  pub sub : Option String
  pub role : Option String
  pub kind : Option String
  pub iat : Time
  pub exp : Time

-- bcrypt with a fixed salt, PyJWT with the secret of the settings at a time, `str.lower`,
-- `json.dumps` and `str` of an integer.
pub record Library : Type 0 where
  pub hashpw : String → String
  -- raises ValueError on a hash that is none
  pub checkpw : String → String → Result Bool
  pub encode : Claims → String
  pub decode : Time → String → Result Claims
  pub sha256 : String → String
  pub lower : String → String
  pub dumps : Json → String
  pub show : ℕ → String

pub record Lifetimes : Type 0 where
  pub access_token_ttl_minutes : ℕ
  pub refresh_token_ttl_days : ℕ

module _ (lib : Library) where
  abbrev pub detail_text : Option Json → Option String
  detail_text none = none
  detail_text (some detail) = some (lib.dumps detail)

  abbrev pub audit_entry : String → String → Option String → Option Json → AuditLog
  audit_entry actor action target detail = record {
    actor = actor;
    action = action;
    target = target;
    detail = detail_text detail;
  }

  abbrev pub record_audit : String → String → Option String → Option Json → Accounts → Accounts
  record_audit actor action target detail s = record s {
    audit = s.audit ++ audit_entry actor action target detail ∷ [];
  }

  -- `except ValueError: return False`
  abbrev pub false_on_value_error : Result Bool → Result Bool
  false_on_value_error (ok b) = ok b
  false_on_value_error (err value_error) = ok false
  false_on_value_error (err e) = err e

  abbrev pub verify_password : String → String → Result Bool
  verify_password plain hashed = false_on_value_error (lib.checkpw plain hashed)

  abbrev pub create_access_token : Lifetimes → String → String → Time → String
  create_access_token ttl username role now = lib.encode (record {
    sub = some username;
    role = some role;
    kind = some "access";
    iat = now;
    exp = now + ttl.access_token_ttl_minutes * minute;
  })

  abbrev pub create_refresh_token : Lifetimes → String → Time → String
  create_refresh_token ttl username now = lib.encode (record {
    sub = some username;
    role = none;
    kind = some "refresh";
    iat = now;
    exp = now + ttl.refresh_token_ttl_days * (1440 * minute);
  })

  abbrev pub is_kind : Option String → String → Bool
  is_kind none expected = false
  is_kind (some kind) expected = kind == expected

  abbrev pub of_type : String → Claims → Result Claims
  of_type expected claims = if is_kind claims.kind expected then ok claims else err invalid_token

  unfoldable pub decode_token : String → String → Time → Result Claims
  decode_token token expected now = do claims ← lib.decode now token; of_type expected claims

-- `select(User).where(User.username == username)).first()`; no row has a username that is null.
abbrev pub find_user : Option String → List User → Option User
find_user none users = none
find_user (some name) users = find (λ u. u.username == name) users
