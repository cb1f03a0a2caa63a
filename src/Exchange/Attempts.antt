-- ===== src/Exchange/Attempts.antt =====
-- engine/exchange/client.py: `_call` comes to the first attempt that is not turned away.
use capital.Prelude.{
  ℕ, zero, suc, ◌<◌, ◌≡◌, refl, ap, ◌∙◌, ◌⊎◌, inl, inr, Bool, true, false, Bool-cases, List, [],
  ◌∷◌, ◌++◌, arith,
}
use capital.Rational.{ℚ}
use capital.Effects.{Result, ok, err}
use capital.Json.{Json}
use capital.Exchange.{Call, Retried, is_rate_limited, backoff, paused, settle, call}

abbrev pub turned_away : Result Json → Bool
turned_away (ok a) = false
turned_away (err e) = is_rate_limited e

-- Every attempt before a number was turned away.
abbrev pub Before : Call → ℕ → Type 0
Before fn zero = Unit
Before fn (suc k) = Before fn k × (turned_away (fn k) ≡ true)

-- The pauses before an attempt: 1.5 seconds, 3 seconds, and so on.
abbrev pub pauses : ℕ → List ℚ
pauses zero = []
pauses (suc k) = pauses k ++ backoff k ∷ []

settle-kept :
    (left attempt : ℕ) (r : Result Json) (rest : Retried)
    → turned_away r ≡ false
    → settle left attempt r rest ≡ (r, [])
settle-kept left attempt (ok a) rest h = refl
settle-kept left attempt (err e) rest h = rw h refl

settle-last : (attempt : ℕ) (r : Result Json) (rest : Retried) → settle 0 attempt r rest ≡ (r, [])
settle-last attempt (ok a) rest = refl
settle-last attempt (err e) rest = elim (Bool-cases (is_rate_limited e)) [
  | inl h ↦ rw h refl
  | inr h ↦ rw h refl
]

settle-again :
    (left attempt : ℕ) (r : Result Json) (rest : Retried)
    → turned_away r ≡ true
    → settle (suc left) attempt r rest ≡ paused (backoff attempt) rest
settle-again left attempt (ok a) rest h = cc
settle-again left attempt (err e) rest h = rw h (ground arith)

-- Whatever the attempts come to, a call ends after at most three of them, with the outcome of one:
-- the first that is not turned away for the rate limit, or the third if all of the first two were.
-- It pauses once before each attempt but the first, for 1.5 seconds more each time.
pub call_settles :
    (fn : Call)
    → (k : ℕ) × (k < 3)
      × (call fn ≡ (fn k, pauses k))
      × Before fn k
      × ((turned_away (fn k) ≡ false) ⊎ (k ≡ 2))
unfolding call
call_settles fn = elim (Bool-cases (turned_away (fn 0))) [
  | inr a ↦ (0, omega arith, settle-kept 2 0 (fn 0) _ a, tt, inl a)
  | inl a ↦ elim (Bool-cases (turned_away (fn 1))) [
    | inr b ↦ (
      1,
      omega arith,
      settle-again 1 0 (fn 0) _ a ∙ ap (paused (backoff 0)) (settle-kept 1 1 (fn 1) _ b),
      (tt, a),
      inl b,
    )
    | inl b ↦ (
      2,
      omega arith,
      settle-again 1 0 (fn 0) _ a
          ∙ ap (paused (backoff 0))
              (settle-again 0 1 (fn 1) _ b ∙ ap (paused (backoff 1)) (settle-last 2 (fn 2) _)),
      ((tt, a), b),
      inr refl,
    )
  ]
]
