-- ===== src/Rational/Abs.antt =====
-- The signs of a number, and its absolute value before any rounding.
use capital.Prelude.{◌≡◌, ◌⊎◌, inl, inr, ap, sym, ◌∙◌, subst, Bool-cases, if◌then◌else◌}
use capital.Rational.{ℚ, of_ℕ, ◌+ℚ◌, neg, le?}
use capital.Rational.Ring.{neg-neg, neg-zero, zero-+ℚ}
use capital.Rational.Order.{
  ◌≤ℚ◌, ◌<ℚ◌, lt?, ≤ℚ_antisymm, ≤ℚ_of_lt, +ℚ_mono, neg-anti, lt_of_lt_of_le,
}

-- The three signs of a number, as values of the tests by which the program branches.
pub sign_cases : (a : ℚ) → (of_ℕ 0 <ℚ a) ⊎ ((a ≡ of_ℕ 0) ⊎ (a <ℚ of_ℕ 0))
sign_cases a = elim (Bool-cases (le? a (of_ℕ 0))) [
  | inr e ↦ inl e
  | inl e ↦ elim (Bool-cases (le? (of_ℕ 0) a)) [
    | inl f ↦ inr (inl (≤ℚ_antisymm a (of_ℕ 0) e f))
    | inr f ↦ inr (inr f)
  ]
]

pub neg-nonpos : (a : ℚ) → of_ℕ 0 ≤ℚ a → neg a ≤ℚ of_ℕ 0
neg-nonpos a h = subst (λ t. neg a ≤ℚ t) neg-zero (neg-anti (of_ℕ 0) a h)

pub neg-nonneg : (a : ℚ) → a ≤ℚ of_ℕ 0 → of_ℕ 0 ≤ℚ neg a
neg-nonneg a h = subst (λ t. t ≤ℚ neg a) neg-zero (neg-anti a (of_ℕ 0) h)

pub neg-neg_of_pos : (a : ℚ) → of_ℕ 0 <ℚ a → neg a <ℚ of_ℕ 0
neg-neg_of_pos a h = elim (Bool-cases (le? (of_ℕ 0) (neg a))) [
  | inl e ↦ cc (subst (λ t. t ≤ℚ of_ℕ 0) (neg-neg a) (neg-nonpos (neg a) e))
  | inr e ↦ e
]

pub neg-pos_of_neg : (a : ℚ) → a <ℚ of_ℕ 0 → of_ℕ 0 <ℚ neg a
neg-pos_of_neg a h = elim (Bool-cases (le? (neg a) (of_ℕ 0))) [
  | inl e ↦ cc (subst (λ t. of_ℕ 0 ≤ℚ t) (neg-neg a) (neg-nonneg (neg a) e))
  | inr e ↦ e
]

-- `abs`, before any rounding.
abbrev pub abs : ℚ → ℚ
abs a = if lt? a (of_ℕ 0) then neg a else a

pub abs-of_nonneg : (a : ℚ) → of_ℕ 0 ≤ℚ a → abs a ≡ a
abs-of_nonneg a h = rw h

pub abs-of_neg : (a : ℚ) → a <ℚ of_ℕ 0 → abs a ≡ neg a
abs-of_neg a h = rw h

pub abs-nonneg : (a : ℚ) → of_ℕ 0 ≤ℚ abs a
abs-nonneg a = elim (Bool-cases (le? (of_ℕ 0) a)) [
  | inl e ↦ rw (abs-of_nonneg a e) e
  | inr e ↦ rw (abs-of_neg a e) (≤ℚ_of_lt _ _ (neg-pos_of_neg a e))
]

pub +ℚ-pos_of_nonneg : (a b : ℚ) → of_ℕ 0 ≤ℚ a → of_ℕ 0 <ℚ b → of_ℕ 0 <ℚ a +ℚ b
+ℚ-pos_of_nonneg a b h k =
    lt_of_lt_of_le (of_ℕ 0) b (a +ℚ b) k
      (subst (λ t. t ≤ℚ a +ℚ b) (zero-+ℚ b) (+ℚ_mono (of_ℕ 0) a b h))

pub abs-neg : (a : ℚ) → abs (neg a) ≡ abs a
abs-neg a = elim (sign_cases a) [
  | inl h ↦
      rw (abs-of_neg (neg a) (neg-neg_of_pos a h), abs-of_nonneg a (≤ℚ_of_lt _ _ h)) (neg-neg a)
  | inr (inl h) ↦ rw h (ap abs neg-zero)
  | inr (inr h) ↦ rw (abs-of_neg a h) (abs-of_nonneg (neg a) (≤ℚ_of_lt _ _ (neg-pos_of_neg a h)))
]

pub abs-of_nonpos : (a : ℚ) → a ≤ℚ of_ℕ 0 → abs a ≡ neg a
abs-of_nonpos a h = sym (abs-neg a) ∙ abs-of_nonneg (neg a) (neg-nonneg a h)
