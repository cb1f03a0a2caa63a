-- ===== src/Auth/Users.antt =====
-- engine/api/users.py and engine/api/tokens.py: the endpoints that manage operators and tokens.
-- FastAPI has checked the body and that `admin` may call before they run.
pub mod Audited
use capital.Prelude.{
  ℕ, String, ◌==◌, Bool, true, false, ◌||◌, Option, none, some, List, [], ◌∷◌, ◌++◌, map, find, eqb,
  if◌then◌else◌,
}
use capital.Json.{Json, text, bool, obj, Fields, end, field}
use capital.Models.{Time}
use capital.Effects.{Result, ok, err, http_error}
use capital.Effects.Stateful.{Action, ◌>>=◌, ◌>>◌, raise, raise_if, pure, modify, gets}
use capital.Auth.{Role, role_value, User, ApiToken, Accounts, Library, record_audit, find_user}
use capital.Auth.Tokens.{create_api_token, list_api_tokens, revoke_api_token}

pub record UserRead : Type 0 where
  pub id : ℕ
  pub username : String
  pub role : String
  pub is_active : Bool

pub record UserCreate : Type 0 where
  pub username : String
  pub password : String
  pub role : Role

pub record UserUpdate : Type 0 where
  pub role : Option Role
  pub is_active : Option Bool

-- `_read`
abbrev pub read : User → UserRead
read u = record { id = u.id; username = u.username; role = u.role; is_active = u.is_active }

abbrev pub is_some {ℓ} : {A : Type ℓ} → Option A → Bool
is_some none = false
is_some (some a) = true

abbrev pub new_user : ℕ → String → String → String → Time → User
new_user id username hash role now = record {
  id = id;
  username = username;
  password_hash = hash;
  role = role;
  is_active = true;
  updated_at = now;
}

abbrev pub add_user : User → Accounts → Accounts
add_user u s = record s { users = s.users ++ u ∷ [] }

abbrev pub user_at : ℕ → List User → Option User
user_at id us = find (λ u. eqb u.id id) us

abbrev pub save_user : User → Accounts → Accounts
save_user new s = record s { users = map (λ u. if eqb u.id new.id then new else u) s.users }

-- `_get_or_404`
abbrev pub found : Option User → Action Accounts User
found none = raise (http_error 404)
found (some u) = pure u

abbrev pub get_or_404 : ℕ → Action Accounts User
get_or_404 id s = found (user_at id s.users) s

abbrev pub with_role : Option Role → User → User
with_role none u = u
with_role (some r) u = record u { role = role_value r }

abbrev pub with_active : Option Bool → User → User
with_active none u = u
with_active (some b) u = record u { is_active = b }

-- `{"from": ..., "to": ...}`
abbrev pub from_to : Json → Json → Json
from_to a b = obj (field "from" a (field "to" b end))

abbrev pub active_change : Option Bool → User → Fields
active_change none u = end
active_change (some b) u = field "is_active" (from_to (bool u.is_active) (bool b)) end

abbrev pub changes : UserUpdate → User → Option Role → Fields
changes body u none = active_change body.is_active u
changes body u (some r) =
    field "role" (from_to (text u.role) (text (role_value r))) (active_change body.is_active u)

abbrev pub is_change : UserUpdate → Bool
is_change body = is_some body.role || is_some body.is_active

module _ (lib : Library) where
  unfoldable pub create_user : ℕ → UserCreate → User → Time → Action Accounts UserRead
  create_user id body admin now = do
    taken ← gets (λ s. is_some (find_user (some body.username) s.users))
    raise_if taken (http_error 409)
    let new = new_user id body.username (lib.hashpw body.password) (role_value body.role) now
    modify (add_user new)
    modify (
        record_audit lib admin.username "user.create" (some new.username)
          (some (obj (field "role" (text new.role) end))))
    pure (read new)

  abbrev pub apply_update : UserUpdate → User → User → Time → Action Accounts UserRead
  apply_update body admin u now = do
    let new : User = record (with_active body.is_active (with_role body.role u)) {
      updated_at = now;
    }
    modify (save_user new)
    modify (
        record_audit lib admin.username "user.update" (some u.username)
          (some (obj (changes body u body.role))))
    pure (read new)

  unfoldable pub update_user : ℕ → UserUpdate → User → Time → Action Accounts UserRead
  update_user id body admin now = do
    u ← get_or_404 id
    if is_change body then apply_update body admin u now else pure (read u)

  unfoldable pub reset_password : ℕ → String → User → Time → Action Accounts (Unit {0})
  reset_password id password admin now = do
    u ← get_or_404 id
    modify (save_user (record u { password_hash = lib.hashpw password; updated_at = now }))
    modify (record_audit lib admin.username "user.password_reset" (some u.username) none)

  unfoldable pub create_token :
      ℕ → String → String → Role → User → Time → Action Accounts (ApiToken × String)
  unfolding create_api_token
  create_token id secret name role admin now = do
    created ← create_api_token lib id secret name (role_value role) now
    modify (
        record_audit lib admin.username "token.create" (some name)
          (some (obj (field "role" (text (role_value role)) end))))
    pure created

  abbrev pub audited_revoke : ℕ → User → Bool → Action Accounts (Unit {0})
  audited_revoke id admin false = raise (http_error 404)
  audited_revoke id admin true =
      modify (record_audit lib admin.username "token.revoke" (some (lib.show id)) none)

  -- `DELETE /api/tokens/{token_id}`
  unfoldable pub revoke_token : ℕ → User → Action Accounts (Unit {0})
  unfolding revoke_api_token
  revoke_token id admin s = let out = revoke_api_token id s in audited_revoke id admin out.0 out.1
