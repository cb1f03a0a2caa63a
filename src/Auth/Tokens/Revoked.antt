-- ===== src/Auth/Tokens/Revoked.antt =====
-- engine/auth/api_tokens.py: a token that was revoked never authenticates again.
use capital.Prelude.{
  ℕ, String, ◌==◌, ◌≡◌, refl, ap, Bool, true, false, Bool-cases, inl, inr, Option, none, some, List,
  [], ◌∷◌, ◌++◌, find, eqb, arith, if◌then◌else◌,
}
use capital.Models.{Time}
use capital.Effects.{err, http_error}
use capital.Auth.{User, ApiToken, AuditLog, Accounts, Library}
use capital.Auth.Tokens.{
  has_hash, token_at, update_token, set_revoked, set_used, add_token, looks_like_api_token,
  create_api_token, verify_api_token, revoke_api_token, stamp, revoke_found,
}
use capital.Auth.Login.{get_current_user}

-- The row that a hash finds is revoked.
abbrev pub Barred : String → Accounts → Type 0
Barred hash s = (t : ApiToken) × (find (has_hash hash) s.tokens ≡ some t) × (t.revoked ≡ true)

module _ (lib : Library) where
  -- What may happen to the tables, one operation after the other.
  pub data Reach (s : Accounts) : Accounts → Type 0 where
    here : Reach s s
    create :
        (u : Accounts) (id : ℕ) (secret name role : String) (now : Time)
        → Reach s u
        → Reach s (create_api_token lib id secret name role now u).1
    verify :
        (u : Accounts) (token : String) (now : Time)
        → Reach s u
        → Reach s (verify_api_token lib token now u).1
    revoke : (u : Accounts) (id : ℕ) → Reach s u → Reach s (revoke_api_token id u).1
    -- any change of the operators and of the audit trail
    other :
        (u : Accounts) (users : List User) (audit : List AuditLog)
        → Reach s u
        → Reach s (record u { users = users; audit = audit })

find-append :
    (hash : String) (ts : List ApiToken) (new t : ApiToken)
    → find (has_hash hash) ts ≡ some t
    → find (has_hash hash) (ts ++ new ∷ []) ≡ some t
find-append hash [] new t h = cc
find-append hash (x ∷ ts) new t h = elim (Bool-cases (has_hash hash x)) [
  | inl e ↦ rw e (rw e at h)
  | inr e ↦ rw e (find-append hash ts new t (rw e at h))
]

-- An update of rows that keeps hashes, seen from the row that a hash finds.
find-update_token :
    (hash : String) (id : ℕ) (f : ApiToken → ApiToken) (ts : List ApiToken) (t : ApiToken)
    → ((x : ApiToken) → (f x).token_hash ≡ x.token_hash)
    → find (has_hash hash) ts ≡ some t
    → find (has_hash hash) (update_token id f ts) ≡ some (if eqb t.id id then f t else t)
find-update_token hash id f [] t keep h = cc
find-update_token hash id f (x ∷ ts) t keep h =
    let same : has_hash hash (if eqb x.id id then f x else x) ≡ has_hash hash x =
      either (eqb x.id id) in
    elim (Bool-cases (has_hash hash x)) [
      | inl e ↦
          rw (same, e)
            (ap (λ y. some (if eqb y.id id then f y else y)) (some-injective x t (rw e at h)))
      | inr e ↦ rw (same, e) (find-update_token hash id f ts t keep (rw e at h))
    ]
  where
    either : (b : Bool) → has_hash hash (if b then f x else x) ≡ has_hash hash x
    either true = ap (λ k. k == hash) (keep x)
    either false = refl

    some-injective : (a b : ApiToken) → ◌≡◌ {A = Option ApiToken} (some a) (some b) → a ≡ b
    some-injective a b p = cc

-- The primary key of a row that a hash finds finds a row.
token_at-found :
    (hash : String) (ts : List ApiToken) (t : ApiToken)
    → find (has_hash hash) ts ≡ some t
    → (x : ApiToken) × (token_at t.id ts ≡ some x) × (eqb t.id x.id ≡ true)
token_at-found hash [] t h = cc
token_at-found hash (x ∷ ts) t h = elim (Bool-cases (eqb x.id t.id)) [
  | inl e ↦ (x, rw e, eqb_comm x.id t.id e)
  | inr e ↦ elim (Bool-cases (has_hash hash x)) [
    | inl f ↦ absurd (clash (some_id x t (rw f at h)) e)
    | inr f ↦ rw e (token_at-found hash ts t (rw f at h))
  ]
]
  where
    eqb_comm : (a b : ℕ) → eqb a b ≡ true → eqb b a ≡ true
    eqb_comm a b p = ground arith

    some_id : (a b : ApiToken) → ◌≡◌ {A = Option ApiToken} (some a) (some b) → a.id ≡ b.id
    some_id a b p = cc

    clash : {a b : ℕ} → a ≡ b → eqb a b ≡ false → ⊥
    clash p q = ground arith

Barred-update :
    (hash : String) (id : ℕ) (f : ApiToken → ApiToken) (s : Accounts)
    → ((x : ApiToken) → (f x).token_hash ≡ x.token_hash)
    → ((x : ApiToken) → x.revoked ≡ true → (f x).revoked ≡ true)
    → Barred hash s
    → Barred hash (record s { tokens = update_token id f s.tokens })
Barred-update hash id f s keep mono (t, h, r) = (
  if eqb t.id id then f t else t,
  find-update_token hash id f s.tokens t keep h,
  either (eqb t.id id),
)
  where
    either : (b : Bool) → (if b then f t else t).revoked ≡ true
    either true = mono t r
    either false = r

Barred-add :
    (hash : String) (old : Option ApiToken) (new : ApiToken) (s : Accounts)
    → Barred hash s
    → Barred hash (add_token old new s).1
Barred-add hash (some t) new s b = b
Barred-add hash none new s (t, h, r) = (t, find-append hash s.tokens new t h, r)

Barred-stamp :
    (hash : String) (found : Option ApiToken) (now : Time) (s : Accounts)
    → Barred hash s
    → Barred hash (stamp found now s).1
Barred-stamp hash none now s b = b
Barred-stamp hash (some t) now s b = elim (Bool-cases t.revoked) [
  | inl e ↦ rw e b
  | inr e ↦ rw e (Barred-update hash t.id (set_used now) s (λ x. refl) (λ x h. h) b)
]

Barred-revoke_found :
    (hash : String) (found : Option ApiToken) (s : Accounts)
    → Barred hash s
    → Barred hash (revoke_found found s).1
Barred-revoke_found hash none s b = b
Barred-revoke_found hash (some t) s b =
    Barred-update hash t.id set_revoked s (λ x. refl) (λ x h. refl) b

module _ (lib : Library) where
  Barred-Reach : (hash : String) (s u : Accounts) → Barred hash s → Reach lib s u → Barred hash u
  unfolding create_api_token verify_api_token revoke_api_token
  Barred-Reach hash s u b here = b
  Barred-Reach hash s _ b (create u id secret name role now r) =
      Barred-add hash _ _ u (Barred-Reach hash s u b r)
  Barred-Reach hash s _ b (verify u token now r) =
      Barred-stamp hash _ now u (Barred-Reach hash s u b r)
  Barred-Reach hash s _ b (revoke u id r) = Barred-revoke_found hash _ u (Barred-Reach hash s u b r)
  Barred-Reach hash s _ b (other u users audit r) = Barred-Reach hash s u b r

  -- Once the row that a credential finds has been revoked, the credential is refused with 401, and
  -- changes nothing, whatever tokens are created, used or revoked in between.
  pub revoked-refused :
      (credential : String) (t : ApiToken) (s u : Accounts) (now : Time)
      → looks_like_api_token credential ≡ true
      → find (has_hash (lib.sha256 credential)) s.tokens ≡ some t
      → Reach lib (revoke_api_token t.id s).1 u
      → get_current_user lib credential now u ≡ (err (http_error 401), u)
  unfolding get_current_user verify_api_token revoke_api_token
  revoked-refused credential t s u now looks h r =
      let hash : String = lib.sha256 credential in
      let (x, at, same) = token_at-found hash s.tokens t h in
      let start : Barred hash (revoke_api_token t.id s).1 = rw at (
        if eqb t.id x.id then set_revoked t else t,
        find-update_token hash x.id set_revoked s.tokens t (λ y. refl) h,
        rw same refl,
      ) in
      let (y, found, revoked) = Barred-Reach hash _ u start r in rw (looks, found, revoked) refl
