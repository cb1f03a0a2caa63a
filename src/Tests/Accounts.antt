-- ===== src/Tests/Accounts.antt =====
-- The theorems on operators, tokens and logins at concrete inputs.
use capital.Prelude.{◌≡◌, refl, ◌==◌, true, false, none, some, [], ◌∷◌, arith}
use capital.Effects.{ok, err, http_error, invalid_token}
use capital.RateLimit.{Limits, Attempts, is_locked, reset}
use capital.Auth.{User, ApiToken, Accounts, Library, Lifetimes, verify_password, find_user}
use capital.Auth.Tokens.{revoke_api_token, create_api_token, verify_api_token}
use capital.Auth.Tokens.Revoked.{here, create, verify, revoked-refused}
use capital.Auth.Login.{tokens_for, login, get_current_user}
use capital.Auth.Login.Lockout.{tries, tries-login, login_sound}
use capital.Auth.Users.Audited.{Audited, updates_user, handle, handle-Audited}

-- Hashes that are the texts themselves.
abbrev pub plain : Library
plain = record {
  hashpw = λ p. p;
  checkpw = λ p h. ok (p == h);
  encode = λ claims. "jwt";
  decode = λ now token. err invalid_token;
  sha256 = λ t. t;
  lower = λ t. t;
  dumps = λ detail. "{}";
  show = λ n. "1";
}

abbrev pub root : User
root = record {
  id = 1;
  username = "root";
  password_hash = "secret";
  role = "admin";
  is_active = true;
  updated_at = 0;
}

abbrev agent_token : ApiToken
agent_token = record {
  id = 7;
  name = "agent";
  token_hash = "cap_a";
  role = "user";
  revoked = false;
  created_at = 0;
  last_used_at = none;
}

abbrev pub accounts : Accounts
accounts = record { users = root ∷ []; tokens = agent_token ∷ []; audit = [] }

abbrev ttl : Lifetimes
ttl = record { access_token_ttl_minutes = 30; refresh_token_ttl_days = 7 }

abbrev two_attempts : Limits
two_attempts = record { max_attempts = 2; lockout_minutes = 15 }

-- The token is revoked, another one is made, and the first is tried.
abbrev later : Accounts
later =
    (verify_api_token plain "cap_a" 6
      (create_api_token plain 8 "b" "other" "user" 5 (revoke_api_token 7 accounts).1).1).1

revoked-refused_example : get_current_user plain "cap_a" 9 later ≡ (err (http_error 401), later)
revoked-refused_example =
    revoked-refused plain "cap_a" agent_token accounts later 9 refl refl
      (verify _ "cap_a" 6 (create _ 8 "b" "other" "user" 5 here))

tries-login_example :
    let a = tries plain two_attempts ttl (root ∷ []) "root" 100 ("x" ∷ "y" ∷ []) [] in
    login plain two_attempts ttl (root ∷ []) "root" "secret" 200 a ≡ (err (http_error 429), a)
tries-login_example =
    tries-login plain two_attempts ttl (root ∷ []) "root" "x" "secret" 100 200 ("y" ∷ []) [] refl
      refl (refl, tt) refl (omega arith)

let_in :
    login plain two_attempts ttl (root ∷ []) "root" "secret" 200 []
    ≡ (ok (tokens_for plain ttl root 200), [])
unfolding login is_locked reset
let_in = refl

login_sound_example :
    (u : User) × (find_user (some "root") (root ∷ []) ≡ some u)
    × (u.is_active ≡ true)
    × (verify_password plain "secret" u.password_hash ≡ ok true)
    × (is_locked "root" 200 [] ≡ 0)
    × (tokens_for plain ttl root 200 ≡ tokens_for plain ttl u 200)
    × (◌≡◌ {A = Attempts} [] (reset "root" []))
login_sound_example =
    login_sound plain two_attempts ttl (root ∷ []) "root" "secret" 200 [] []
      (tokens_for plain ttl root 200) let_in

handle-Audited_example :
    Audited root accounts (
      handle plain
        (updates_user 1 (record { role = none; is_active = some false }))
        root
        3
        accounts)
handle-Audited_example =
    handle-Audited plain (updates_user 1 (record { role = none; is_active = some false })) root 3
      accounts
