-- ===== src/RateLimit/Lockout.antt =====
-- engine/auth/ratelimit.py: failures lock a key, a reset frees it, and keys do not mix.
use capital.Prelude.{
  ℕ, zero, suc, ◌+◌, ◌*◌, String, ◌==◌, eq_iff, eq_refl, ◌≡◌, refl, ap, ◌∙◌, Bool, true, false,
  none, some, [], ◌∷◌, lookup, leb, arith, if◌then◌else◌,
}
use capital.RateLimit.{
  Attempt, Attempts, Limits, remaining, is_locked, count_of, store, failed, record_failure, minute,
}

pub lookup-store_self :
    (key : String) (v : Attempt) (attempts : Attempts) → lookup key (store key v attempts) ≡ some v
unfolding store
lookup-store_self key v [] = rw (eq_refl key) refl
lookup-store_self key v ((k, w) ∷ rest) = ground (arith, lookup-store_self key v rest)

pub lookup-store_other :
    (key other : String) (v : Attempt) (attempts : Attempts)
    → (key == other) ≡ false
    → lookup other (store key v attempts) ≡ lookup other attempts
unfolding store
lookup-store_other key other v [] h = rw h refl
lookup-store_other key other v ((k, w) ∷ rest) h =
    ground (arith, eq_iff k key, lookup-store_other key other v rest h)

-- `n` failures of one key in a row, all at one time.
abbrev pub failures : Limits → String → ℕ → ℕ → Attempts → Attempts
failures limits key now zero attempts = attempts
failures limits key now (suc n) attempts =
    record_failure limits key now (failures limits key now n attempts)

failures_lem :
    (limits : Limits) (key : String) (now n : ℕ) (attempts : Attempts)
    → lookup key (failures limits key now (suc n) attempts)
      ≡ some (failed limits now (count_of (lookup key attempts) + suc n))
unfolding record_failure
failures_lem limits key now zero attempts = lookup-store_self key _ attempts
failures_lem limits key now (suc n) attempts =
    lookup-store_self key _ (failures limits key now (suc n) attempts)
    ∙ ap (λ c. some (failed limits now c))
        (ap (λ a. count_of a + 1) (failures_lem limits key now n attempts) ∙ omega arith)

-- From a fresh key, a run of failures at one time locks it for the whole lockout if it is as long
-- as the limit of attempts, and leaves it free otherwise; the other keys are as they were.
pub failures-is_locked :
    (limits : Limits) (key : String) (now n : ℕ) (attempts : Attempts)
    → lookup key attempts ≡ none
    → (is_locked key now (failures limits key now (suc n) attempts)
        ≡ (if leb limits.max_attempts (suc n) then limits.lockout_minutes * minute else 0))
      × ((other : String) (at : ℕ)
          → (key == other) ≡ false
          → is_locked other at (failures limits key now (suc n) attempts)
            ≡ is_locked other at attempts)
unfolding is_locked record_failure
failures-is_locked limits key now n attempts fresh = (
  ap (λ a. remaining a now)
        (failures_lem limits key now n attempts
          ∙ ap (λ c. some (failed limits now c))
              (ap (λ a. count_of a + suc n) fresh ∙ zero_add (suc n)))
      ∙ time_left (leb limits.max_attempts (suc n)),
  λ other at h. ap (λ a. remaining a at) (others other h (suc n)),
)
  where
    time_left :
        (b : Bool)
        → remaining (some (suc n, if b then now + limits.lockout_minutes * minute else 0)) now
          ≡ (if b then limits.lockout_minutes * minute else 0)
    time_left true = ground arith
    time_left false = ground arith

    zero_add : (m : ℕ) → 0 + m ≡ m
    zero_add m = omega arith

    others :
        (other : String)
        → (key == other) ≡ false
        → (m : ℕ) → lookup other (failures limits key now m attempts) ≡ lookup other attempts
    others other h zero = refl
    others other h (suc m) = lookup-store_other key other _ _ h ∙ others other h m
