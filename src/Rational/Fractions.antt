-- ===== src/Rational/Fractions.antt =====
-- Fractions (p - n) / (d + 1), their arithmetic, and the relation of having the same value.
use capital.Prelude.{
  ℕ, suc, ◌+◌, ◌-◌, ◌*◌, ◌/◌, sym, ◌≤◌, ◌<◌, ◌≡◌, refl, ap, Bool, true, false, ltb, leb,
  leb-eq_of_iff, arith, if◌then◌else◌, inl, inr, Bool-cases,
}

abbrev pub Fraction : Type 0
Fraction = ℕ × ℕ × ℕ

infix 4 ◌∼◌
abbrev pub ◌∼◌ : Fraction → Fraction → Type 0
x ∼ y = x.0 * suc y.2 + y.1 * suc x.2 ≡ y.0 * suc x.2 + x.1 * suc y.2

-- suc (common d e) = suc d * suc e
abbrev pub common : ℕ → ℕ → ℕ
common d e = d * e + d + e

abbrev pub sum : Fraction → Fraction → Fraction
sum x y = (x.0 * suc y.2 + y.0 * suc x.2, x.1 * suc y.2 + y.1 * suc x.2, common x.2 y.2)

abbrev pub product : Fraction → Fraction → Fraction
product x y = (x.0 * y.0 + x.1 * y.1, x.0 * y.1 + x.1 * y.0, common x.2 y.2)

abbrev pub opposite : Fraction → Fraction
opposite x = (x.1, x.0, x.2)

abbrev pub inverse : Fraction → Fraction
inverse x =
    if ltb x.1 x.0
    then (suc x.2, 0, x.0 - x.1 - 1)
    else (if ltb x.0 x.1 then (0, suc x.2, x.1 - x.0 - 1) else (0, 0, 0))

abbrev pub fraction_leb : Fraction → Fraction → Bool
fraction_leb x y = leb (x.0 * suc y.2 + y.1 * suc x.2) (y.0 * suc x.2 + x.1 * suc y.2)

pub mul-suc_cancel : (a b k : ℕ) → a * suc k ≤ b * suc k → a ≤ b
mul-suc_cancel a b k h = grind arith

-- A fraction and its multiple by (k + 1) / (k + 1).
pub ∼_of_scale :
    (x y : Fraction) (k : ℕ)
    → y.0 ≡ x.0 * suc k
    → y.1 ≡ x.1 * suc k
    → suc y.2 ≡ suc x.2 * suc k
    → x ∼ y
∼_of_scale (p, n, d) (p', n', d') k h₀ h₁ h₂ = rw (h₀, h₁, h₂) (omega arith)

pub sum-congr_left : (x x' y : Fraction) → x ∼ x' → sum x y ∼ sum x' y
sum-congr_left (p, n, d) (p', n', d') (q, m, e) r =
    omega (arith, ap (λ (t : ℕ). t * (suc e * suc e)) r)

pub sum-congr_right : (x y y' : Fraction) → y ∼ y' → sum x y ∼ sum x y'
sum-congr_right (q, m, e) (p, n, d) (p', n', d') r =
    omega (arith, ap (λ (t : ℕ). t * (suc e * suc e)) r)

pub product-congr_left : (x x' y : Fraction) → x ∼ x' → product x y ∼ product x' y
product-congr_left (p, n, d) (p', n', d') (q, m, e) r =
    omega (arith, ap (λ (t : ℕ). t * (q * suc e)) r, ap (λ (t : ℕ). t * (m * suc e)) r)

pub product-congr_right : (x y y' : Fraction) → y ∼ y' → product x y ∼ product x y'
product-congr_right (q, m, e) (p, n, d) (p', n', d') r =
    omega (arith, ap (λ (t : ℕ). t * (q * suc e)) r, ap (λ (t : ℕ). t * (m * suc e)) r)

pub opposite-congr : (x y : Fraction) → x ∼ y → opposite x ∼ opposite y
opposite-congr (p, n, d) (p', n', d') r = omega arith

pub scale_le : (a b k : ℕ) → a ≤ b → a * k ≤ b * k
scale_le a b k h = grind arith

-- Two fractions of one value have one sign.
sign-congr : (x y : Fraction) → x ∼ y → x.1 < x.0 → y.1 < y.0
sign-congr (p, n, d) (p', n', d') r h = elim (Bool-cases (ltb n' p')) [
  | inl e ↦ ground arith
  | inr e ↦ absurd (
      omega
        (arith, scale_le (n + 1) p (suc d') (omega arith), scale_le p' n' (suc d) (ground arith)))
]

gap-congr :
    (p n d p' n' d' k k' : ℕ)
    → (p, n, d) ∼ (p', n', d')
    → p ≡ n + suc k
    → p' ≡ n' + suc k'
    → suc d * suc k' ≡ suc d' * suc k
gap-congr p n d p' n' d' k k' r h h' =
    omega (arith, ap (λ (t : ℕ). t * suc d') h, ap (λ (t : ℕ). t * suc d) h')

pub inverse-congr : (x y : Fraction) → x ∼ y → inverse x ∼ inverse y
inverse-congr (p, n, d) (p', n', d') r = elim (Bool-cases (ltb n p)) [
  | inl e ↦
      let e' : ltb n' p' ≡ true = ground (arith, sign-congr (p, n, d) (p', n', d') r) in
      rw (e, e')
        (omega (
          arith,
          gap-congr p n d p' n' d' (p - n - 1) (p' - n' - 1) r (ground arith) (ground arith),
        ))
  | inr e ↦
      let e' : ltb n' p' ≡ false = ground (arith, sign-congr (p', n', d') (p, n, d)) in
      elim (Bool-cases (ltb p n)) [
        | inl f ↦
            let f' : ltb p' n' ≡ true = ground (arith, sign-congr (n, p, d) (n', p', d')) in
            rw (e, e')
              (rw (f, f')
                (omega (
                  arith,
                  gap-congr n p d n' p' d' (n - p - 1) (n' - p' - 1) (omega arith) (ground arith)
                      (ground arith),
                )))
        | inr f ↦
            let f' : ltb p' n' ≡ false = ground (arith, sign-congr (n', p', d') (n, p, d)) in
            rw (e, e') (rw (f, f') refl)
      ]
]

-- The order of two fractions is that of any two with the same values.
fraction_le-congr_left :
    (x x' y : Fraction)
    → x ∼ x'
    → x.0 * suc y.2 + y.1 * suc x.2 ≤ y.0 * suc x.2 + x.1 * suc y.2
    → x'.0 * suc y.2 + y.1 * suc x'.2 ≤ y.0 * suc x'.2 + x'.1 * suc y.2
fraction_le-congr_left (p, n, d) (p', n', d') (q, m, e) r h =
    mul-suc_cancel _ _ d (omega (arith, scale_le _ _ (suc d') h, ap (λ (t : ℕ). t * suc e) r))

fraction_le-congr_right :
    (x y y' : Fraction)
    → y ∼ y'
    → x.0 * suc y.2 + y.1 * suc x.2 ≤ y.0 * suc x.2 + x.1 * suc y.2
    → x.0 * suc y'.2 + y'.1 * suc x.2 ≤ y'.0 * suc x.2 + x.1 * suc y'.2
fraction_le-congr_right (q, m, e) (p, n, d) (p', n', d') r h =
    mul-suc_cancel _ _ d (omega (arith, scale_le _ _ (suc d') h, ap (λ (t : ℕ). t * suc e) r))

pub fraction_leb-congr_left : (x x' y : Fraction) → x ∼ x' → fraction_leb x y ≡ fraction_leb x' y
fraction_leb-congr_left x x' y r =
    leb-eq_of_iff _ _ _ _ (fraction_le-congr_left x x' y r)
      (fraction_le-congr_left x' x y (omega arith))

pub fraction_leb-congr_right : (x y y' : Fraction) → y ∼ y' → fraction_leb x y ≡ fraction_leb x y'
fraction_leb-congr_right x y y' r =
    leb-eq_of_iff _ _ _ _ (fraction_le-congr_right x y y' r)
      (fraction_le-congr_right x y' y (omega arith))

-- The integer part, towards zero.
abbrev pub truncate : Fraction → Fraction
truncate x = if leb x.1 x.0 then ((x.0 - x.1) / suc x.2, 0, 0) else (0, (x.1 - x.0) / suc x.2, 0)

le-div : (q b e : ℕ) → q * suc e ≤ b → q ≤ b / suc e
le-div q b e h = elim (Bool-cases (leb q (b / suc e))) [
  | inl f ↦ ground arith
  | inr f ↦ absurd (omega (arith, scale_le (b / suc e + 1) q (suc e) (ground arith)))
]

div-le-div : (a d b e : ℕ) → a * suc e ≡ b * suc d → a / suc d ≤ b / suc e
div-le-div a d b e h =
    let q : ℕ = a / suc d in
    let f : q * suc d ≤ a = omega arith in
    le-div q b e (mul-suc_cancel _ _ d (omega (arith, scale_le _ _ (suc e) f)))

div-congr : (a d b e : ℕ) → a * suc e ≡ b * suc d → a / suc d ≡ b / suc e
div-congr a d b e h = omega (arith, div-le-div a d b e h, div-le-div b e a d (sym h))

gap-scale :
    (p n d p' n' d' i j : ℕ)
    → (p, n, d) ∼ (p', n', d')
    → p ≡ n + i
    → p' ≡ n' + j
    → i * suc d' ≡ j * suc d
gap-scale p n d p' n' d' i j r h h' =
    omega (arith, ap (λ (t : ℕ). t * suc d') h, ap (λ (t : ℕ). t * suc d) h')

pub truncate-congr : (x y : Fraction) → x ∼ y → truncate x ∼ truncate y
truncate-congr (p, n, d) (p', n', d') r = elim (Bool-cases (leb n p)) [
  | inl e ↦
      let e' : leb n' p' ≡ true = ground (arith, sign-congr (n', p', d') (n, p, d)) in
      rw (e, e')
        (omega (
          arith,
          div-congr (p - n) d (p' - n') d'
              (gap-scale p n d p' n' d' (p - n) (p' - n') r (ground arith) (ground arith)),
        ))
  | inr e ↦
      let e' : leb n' p' ≡ false = ground (arith, sign-congr (n, p, d) (n', p', d')) in
      rw (e, e')
        (omega (
          arith,
          div-congr (n - p) d (n' - p') d' (
              gap-scale n p d n' p' d' (n - p) (n' - p') (omega arith) (ground arith)
                (ground arith)),
        ))
]
