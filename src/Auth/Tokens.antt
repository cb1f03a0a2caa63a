-- ===== src/Auth/Tokens.antt =====
-- engine/auth/api_tokens.py: the revocable tokens of programs, kept as hashes.
pub mod Revoked
use text.Mathlib.Text.{starts_with}
use Prim.Native.String.{◌++◌ as concat}
use capital.Prelude.{
  ℕ, String, ◌==◌, Bool, true, false, Option, none, some, List, [], ◌∷◌, ◌++◌, map, find, reverse,
  sort_by, eqb, if◌then◌else◌,
}
use capital.Models.{Time}
use capital.Effects.{Result, ok, err, other_error}
use capital.Effects.Stateful.{Action}
use capital.Auth.{ApiToken, Accounts, Library}

abbrev pub token_prefix : String
token_prefix = "cap_"

-- `secret` is what `secrets.token_urlsafe(32)` returned.
abbrev pub generate_token : String → String
generate_token secret = concat token_prefix secret

abbrev pub looks_like_api_token : String → Bool
looks_like_api_token credential = starts_with credential token_prefix

abbrev pub has_hash : String → ApiToken → Bool
has_hash hash t = t.token_hash == hash

abbrev pub new_token : ℕ → String → String → String → Time → ApiToken
new_token id name hash role now = record {
  id = id;
  name = name;
  token_hash = hash;
  role = role;
  revoked = false;
  created_at = now;
  last_used_at = none;
}

-- The column `token_hash` is unique: the database refuses a second row with one hash.
abbrev pub add_token : Option ApiToken → ApiToken → Action Accounts ApiToken
add_token (some t) new s = (err other_error, s)
add_token none new s = (ok new, record s { tokens = s.tokens ++ new ∷ [] })

-- The update of the row that has a primary key.
abbrev pub update_token : ℕ → (ApiToken → ApiToken) → List ApiToken → List ApiToken
update_token id f ts = map (λ t. if eqb t.id id then f t else t) ts

abbrev pub token_at : ℕ → List ApiToken → Option ApiToken
token_at id ts = find (λ t. eqb t.id id) ts

abbrev pub set_revoked : ApiToken → ApiToken
set_revoked t = record t { revoked = true }

abbrev pub set_used : Time → ApiToken → ApiToken
set_used now t = record t { last_used_at = some now }

-- `return row, plaintext`
abbrev pub with_plaintext : String → Result ApiToken → Result (ApiToken × String)
with_plaintext plaintext (ok row) = ok (row, plaintext)
with_plaintext plaintext (err e) = err e

-- A token that is unknown or revoked is none; any other is stamped.
abbrev pub stamp : Option ApiToken → Time → Accounts → Option ApiToken × Accounts
stamp none now s = (none, s)
stamp (some t) now s =
    if t.revoked
    then (none, s)
    else (some (set_used now t), record s { tokens = update_token t.id (set_used now) s.tokens })

module _ (lib : Library) where
  unfoldable pub create_api_token :
      ℕ → String → String → String → Time → Action Accounts (ApiToken × String)
  create_api_token id secret name role now s =
      let plaintext = generate_token secret in
      let new = new_token id name (lib.sha256 plaintext) role now in
      let out = add_token (find (has_hash new.token_hash) s.tokens) new s in
      (with_plaintext plaintext out.0, out.1)

  unfoldable pub verify_api_token : String → Time → Accounts → Option ApiToken × Accounts
  verify_api_token token now s = stamp (find (has_hash (lib.sha256 token)) s.tokens) now s

unfoldable pub list_api_tokens : Accounts → List ApiToken
list_api_tokens s = reverse (sort_by (λ t. t.created_at) s.tokens)

abbrev pub revoke_found : Option ApiToken → Accounts → Bool × Accounts
revoke_found none s = (false, s)
revoke_found (some t) s = (true, record s { tokens = update_token t.id set_revoked s.tokens })

unfoldable pub revoke_api_token : ℕ → Accounts → Bool × Accounts
revoke_api_token id s = revoke_found (token_at id s.tokens) s
