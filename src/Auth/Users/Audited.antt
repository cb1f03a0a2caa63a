-- ===== src/Auth/Users/Audited.antt =====
-- engine/api/users.py and engine/api/tokens.py: every request that changes something is recorded.
use capital.Prelude.{
  ℕ, String, ◌≡◌, refl, ◌⊎◌, inl, inr, Bool-cases, Option-cases, some, [], ◌∷◌, ◌++◌, find,
}
use capital.Models.{Time}
use capital.Effects.{Result, ok, err}
use capital.Effects.Stateful.{Action}
use capital.Auth.{Role, User, AuditLog, Accounts, Library, find_user}
use capital.Auth.Tokens.{create_api_token, revoke_api_token, token_at, has_hash, generate_token}
use capital.Auth.Users.{
  UserCreate, UserUpdate, user_at, is_some, is_change, create_user, update_user, reset_password,
  create_token, revoke_token,
}

-- A request fails and leaves every table as it was; or it succeeds, and either changes nothing, or
-- appends exactly one entry to the trail, in the name of its caller.
abbrev pub Audited : {A : Type 0} → User → Accounts → Result A × Accounts → Type 0
Audited admin s (err e, s') = s' ≡ s
Audited admin s (ok a, s') =
    (s' ≡ s)
    ⊎ ((entry : AuditLog) × (entry.actor ≡ admin.username) × (s'.audit ≡ s.audit ++ entry ∷ []))

-- A request to change operators or tokens.
pub data Request : Type 0 where
  creates_user : ℕ → UserCreate → Request
  updates_user : ℕ → UserUpdate → Request
  resets_password : ℕ → String → Request
  creates_token : ℕ → String → String → Role → Request
  revokes_token : ℕ → Request

-- The result without its value.
abbrev pub done : {A : Type 0} → Result A × Accounts → Result (Unit {0}) × Accounts
done (ok a, s) = (ok tt, s)
done (err e, s) = (err e, s)

module _ (lib : Library) where
  abbrev pub handle : Request → User → Time → Action Accounts (Unit {0})
  handle (creates_user id body) admin now s = done (create_user lib id body admin now s)
  handle (updates_user id body) admin now s = done (update_user lib id body admin now s)
  handle (resets_password id password) admin now s = reset_password lib id password admin now s
  handle (creates_token id secret name role) admin now s =
      done (create_token lib id secret name role admin now s)
  handle (revokes_token id) admin now s = revoke_token lib id admin s

  -- A request to change operators or tokens either fails and leaves every table as it was, or
  -- succeeds, and then it changed nothing or appended exactly one entry to the audit trail, in the
  -- name of the operator that called it.
  pub handle-Audited :
      (request : Request) (admin : User) (now : Time) (s : Accounts)
      → Audited admin s (handle request admin now s)
  unfolding create_user update_user reset_password create_token revoke_token create_api_token
      revoke_api_token
  handle-Audited (creates_user id body) admin now s =
      elim (Bool-cases (is_some (find_user (some body.username) s.users))) [
        | inl e ↦ rw e refl
        | inr e ↦ rw e (inr (_, refl, refl))
      ]
  handle-Audited (updates_user id body) admin now s = elim (Option-cases (user_at id s.users)) [
    | inl e ↦ rw e refl
    | inr (u, e) ↦ rw e (elim (Bool-cases (is_change body)) [
      | inl f ↦ rw f (inr (_, refl, refl))
      | inr f ↦ rw f (inl refl)
    ])
  ]
  handle-Audited (resets_password id password) admin now s =
      elim (Option-cases (user_at id s.users)) [
        | inl e ↦ rw e refl
        | inr (u, e) ↦ rw e (inr (_, refl, refl))
      ]
  handle-Audited (creates_token id secret name role) admin now s =
      elim (Option-cases (find (has_hash (lib.sha256 (generate_token secret))) s.tokens)) [
        | inl e ↦ rw e (inr (_, refl, refl))
        | inr (t, e) ↦ rw e refl
      ]
  handle-Audited (revokes_token id) admin now s = elim (Option-cases (token_at id s.tokens)) [
    | inl e ↦ rw e refl
    | inr (t, e) ↦ rw e (inr (_, refl, refl))
  ]
