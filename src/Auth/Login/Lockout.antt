-- ===== src/Auth/Login/Lockout.antt =====
-- engine/auth/routes.py: who is let in, and how failures lock a name.
use capital.Prelude.{
  ℕ, ◌+◌, ◌*◌, ◌≤◌, ◌<◌, String, ◌≡◌, refl, ap, ◌∙◌, subst, Bool, true, false, Bool-cases, inl, inr,
  Option, none, some, List, [], ◌∷◌, lookup, length, All, ltb, arith, if◌then◌else◌,
}
use capital.Models.{Time}
use capital.Effects.{Result, ok, err, http_error}
use capital.Effects.Fallible as F
use capital.Effects.Stateful.{continue}
use capital.RateLimit.{Limits, Attempts, is_locked, record_failure, reset, count_of, failed, minute}
use capital.RateLimit.Lockout.{lookup-store_self}
use capital.Auth.{User, Library, Lifetimes, verify_password, find_user}
use capital.Auth.Login.{TokenPair, tokens_for, credited, admit, login}

module _ (lib : Library) (limits : Limits) (ttl : Lifetimes) (users : List User) where
  -- The lockouts after a run of logins under one name, all at one time.
  abbrev pub tries : String → Time → List String → Attempts → Attempts
  tries name now [] a = a
  tries name now (p ∷ ps) a = tries name now ps (login lib limits ttl users name p now a).1

  -- A password that lets nobody in under a name.
  abbrev pub Wrong : String → String → Type 0
  Wrong name p = credited lib p (find_user (some name) users) ≡ ok none

  login-Wrong :
      (name p : String) (now : Time) (a : Attempts)
      → is_locked (lib.lower name) now a ≡ 0
      → Wrong name p
      → login lib limits ttl users name p now a
        ≡ (err (http_error 401), record_failure limits (lib.lower name) now a)
  unfolding login
  login-Wrong name p now a free wrong = rw (free, wrong) refl

  login-locked :
      (name p : String) (now : Time) (a : Attempts)
      → 0 < is_locked (lib.lower name) now a
      → login lib limits ttl users name p now a ≡ (err (http_error 429), a)
  unfolding login
  login-locked name p now a locked =
      let late : ltb 0 (is_locked (lib.lower name) now a) ≡ true = ground arith in rw late refl

  recorded :
      (key : String) (now n : ℕ) (a : Attempts)
      → count_of (lookup key a) ≡ n
      → lookup key (record_failure limits key now a) ≡ some (failed limits now (n + 1))
  unfolding record_failure
  recorded key now n a count =
      lookup-store_self key _ a ∙ ap (λ k. some (failed limits now (k + 1))) count

  still_free :
      (key : String) (now n : ℕ) (a : Attempts)
      → count_of (lookup key a) ≡ n
      → n + 1 < limits.max_attempts
      → is_locked key now (record_failure limits key now a) ≡ 0
  unfolding is_locked
  still_free key now n a count below = rw (recorded key now n a count) (ground arith)

  tries_lem :
      (name p : String) (now n : ℕ) (ps : List String) (a : Attempts)
      → count_of (lookup (lib.lower name) a) ≡ n
      → is_locked (lib.lower name) now a ≡ 0
      → Wrong name p
      → All (Wrong name) ps
      → n + length (p ∷ ps) ≤ limits.max_attempts
      → lookup (lib.lower name) (tries name now (p ∷ ps) a)
        ≡ some (failed limits now (n + length (p ∷ ps)))
  tries_lem name p now n [] a count free wrong rest fits =
      ap (λ t. lookup (lib.lower name) t.1) (login-Wrong name p now a free wrong)
      ∙ recorded (lib.lower name) now n a count
  tries_lem name p now n (q ∷ ps) a count free wrong rest fits =
      let key : String = lib.lower name in
      ap (λ t. lookup key (tries name now (q ∷ ps) t.1)) (login-Wrong name p now a free wrong)
      ∙ (tries_lem name q now (n + 1) ps (record_failure limits key now a)
            (ap count_of (recorded key now n a count)) (still_free key now n a count (omega arith))
            rest.0 rest.1 (omega arith)
          ∙ ap (λ k. some (failed limits now k)) (omega arith))

  locked_left :
      (key : String) (now at n : ℕ) (a : Attempts)
      → lookup key a ≡ some (failed limits now n)
      → limits.max_attempts ≤ n
      → at < now + limits.lockout_minutes * minute
      → 0 < is_locked key at a
  unfolding is_locked
  locked_left key now at n a found full soon = rw found (ground arith)

  -- As many wrong passwords under a fresh name as the limit of attempts, all at one time, lock the
  -- name: until the lockout ends every login under it is refused with 429, also one with the right
  -- password, and leaves the lockouts as they are.
  pub tries-login :
      (name p q : String) (now at : Time) (ps : List String) (a : Attempts)
      → lookup (lib.lower name) a ≡ none
      → Wrong name p
      → All (Wrong name) ps
      → length (p ∷ ps) ≡ limits.max_attempts
      → at < now + limits.lockout_minutes * minute
      → let a' = tries name now (p ∷ ps) a in
        login lib limits ttl users name q at a' ≡ (err (http_error 429), a')
  unfolding is_locked
  tries-login name p q now at ps a fresh wrong rest full soon =
      login-locked name q at (tries name now (p ∷ ps) a) (
        locked_left (lib.lower name) now at (0 + length (p ∷ ps)) (tries name now (p ∷ ps) a)
          (tries_lem name p now 0 ps a (rw fresh) (rw fresh) wrong rest (omega arith)) (omega arith)
          soon)

  credited_sound :
      (password : String) (found : Option User) (u : User)
      → credited lib password found ≡ ok (some u)
      → (found ≡ some u)
        × (u.is_active ≡ true)
        × (verify_password lib password u.password_hash ≡ ok true)
  credited_sound password none u h = cc
  credited_sound password (some v) u h = by_active v.is_active refl h
    where
      Credit : Type 0
      Credit =
          (◌≡◌ {A = Option User} (some v) (some u))
          × (u.is_active ≡ true)
          × (verify_password lib password u.password_hash ≡ ok true)

      by_fit :
          (r : Result Bool)
          → v.is_active ≡ true
          → verify_password lib password v.password_hash ≡ r
          → F.◌>>=◌ r (λ fits. ok (if fits then some v else none)) ≡ ok (some u)
          → Credit
      by_fit (ok true) on fits k =
          let same : v ≡ u = cc in
          subst
            (λ x.
              (◌≡◌ {A = Option User} (some v) (some x))
              × (x.is_active ≡ true)
              × (verify_password lib password x.password_hash ≡ ok true))
            same (refl, on, fits)
      by_fit (ok false) on fits k = cc
      by_fit (err e) on fits k = cc

      by_active :
          (b : Bool)
          → v.is_active ≡ b
          → (if b
              then F.◌>>=◌
                  (verify_password lib password v.password_hash)
                  (λ fits. ok (if fits then some v else none))
              else ok none)
            ≡ ok (some u)
          → Credit
      by_active true on k = by_fit (verify_password lib password v.password_hash) on refl k
      by_active false on k = cc

  admit_sound :
      (key : String) (now : Time) (found : Result (Option User)) (a a' : Attempts)
      (pair : TokenPair)
      → continue (admit lib limits ttl key now) (found, a) ≡ (ok pair, a')
      → (u : User) × (found ≡ ok (some u)) × (pair ≡ tokens_for lib ttl u now) × (a' ≡ reset key a)
  admit_sound key now (err e) a a' pair h = cc
  admit_sound key now (ok none) a a' pair h = cc
  admit_sound key now (ok (some u)) a a' pair h = (u, refl, cc, cc)

  -- A login that lets somebody in is of an active operator with that name, whose hash the password
  -- fits and whose name was not locked; the tokens are for that operator, and the count of failures
  -- is cleared.
  pub login_sound :
      (name password : String) (now : Time) (a a' : Attempts) (pair : TokenPair)
      → login lib limits ttl users name password now a ≡ (ok pair, a')
      → (u : User) × (find_user (some name) users ≡ some u)
        × (u.is_active ≡ true)
        × (verify_password lib password u.password_hash ≡ ok true)
        × (is_locked (lib.lower name) now a ≡ 0)
        × (pair ≡ tokens_for lib ttl u now)
        × (a' ≡ reset (lib.lower name) a)
  unfolding login
  login_sound name password now a a' pair h =
      elim (Bool-cases (ltb 0 (is_locked (lib.lower name) now a))) [
        | inl e ↦ let k = rw e at h in cc
        | inr e ↦
            let (u, got, mine, cleared) =
              admit_sound (lib.lower name) now (credited lib password (find_user (some name) users))
                a a' pair (rw e at h) in
            let (same, on, fits) = credited_sound password (find_user (some name) users) u got in
            (u, same, on, fits, ground arith, mine, cleared)
      ]
