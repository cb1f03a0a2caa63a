-- ===== src/Rational/Order.antt =====
-- The order of the rationals, and how the operations respect it.
use mathlib.Core.Quot
use capital.Prelude.{
  ℕ, ◌+◌, ◌-◌, ◌*◌, ◌≤◌, ◌<◌, suc, ◌≡◌, ◌⊎◌, inl, inr, ap, ◌∙◌, subst, Bool, true, false, not, leb,
  ltb, leb→le, le→leb, arith, Bool-cases, if◌then◌else◌,
}
use mathlib.Core.Path.{subst₂}
use capital.Rational.{ℚ, ℚ_set, of_ℕ, ◌+ℚ◌, ◌*ℚ◌, ◌-ℚ◌, ◌/ℚ◌, neg, inv, le?}
use capital.Rational.Ring.{
  ring, +ℚ_comm, +ℚ-neg, +ℚ-zero, zero-+ℚ, *ℚ_comm, *ℚ_assoc, *ℚ-one, -ℚ_lem, /ℚ_lem,
}
use capital.Rational.Fractions.{◌∼◌, mul-suc_cancel, scale_le, inverse, product}

-- `a < b`, `a == b`
abbrev pub lt? : ℚ → ℚ → Bool
lt? a b = not (le? b a)

abbrev pub eq? : ℚ → ℚ → Bool
eq? a b = if le? a b then le? b a else false

infix 50 ◌≤ℚ◌ ◌<ℚ◌
abbrev pub ◌≤ℚ◌ : ℚ → ℚ → Type 0
a ≤ℚ b = le? a b ≡ true

abbrev pub ◌<ℚ◌ : ℚ → ℚ → Type 0
a <ℚ b = le? b a ≡ false

leb→lt : (a b : ℕ) → leb b a ≡ false → a < b
leb→lt a b h = ground arith

lt→leb : (a b : ℕ) → a < b → leb b a ≡ false
lt→leb a b h = ground arith

Bool_set : IsSet Bool
Bool_set = hlevel

pub ≤ℚ_refl : (a : ℚ) → a ≤ℚ a
unfolding le?
≤ℚ_refl = Quot.ind (λ a. Bool_set _ _) λ x. ground arith

pub ≤ℚ_trans : (a b c : ℚ) → a ≤ℚ b → b ≤ℚ c → a ≤ℚ c
unfolding le?
≤ℚ_trans =
    Quot.ind (λ a. hlevel)
      λ (p, n, d).
        Quot.ind (λ b. hlevel)
          λ (p', n', d').
            Quot.ind (λ c. hlevel)
              λ (q, m, e) h k. le→leb _ _ (
                mul-suc_cancel _ _ d' (
                  omega (
                    arith,
                    scale_le _ _ (suc e) (leb→le _ _ h),
                    scale_le _ _ (suc d) (leb→le _ _ k),
                  )))

pub ≤ℚ_antisymm : (a b : ℚ) → a ≤ℚ b → b ≤ℚ a → a ≡ b
unfolding le?
≤ℚ_antisymm =
    Quot.ind (λ a. hlevel ℚ_set)
      λ x.
        Quot.ind (λ b. hlevel ℚ_set) λ y h k. Quot.sound (omega (arith, leb→le _ _ h, leb→le _ _ k))

pub ≤ℚ_of_lt : (a b : ℚ) → a <ℚ b → a ≤ℚ b
unfolding le?
≤ℚ_of_lt = Quot.ind (λ a. hlevel) λ x. Quot.ind (λ b. hlevel) λ y h. ground arith

pub ≤ℚ_total : (a b : ℚ) → (a ≤ℚ b) ⊎ (b <ℚ a)
≤ℚ_total a b = Bool-cases (le? a b)

pub +ℚ_mono : (a b c : ℚ) → a ≤ℚ b → a +ℚ c ≤ℚ b +ℚ c
unfolding le? ◌+ℚ◌
+ℚ_mono =
    Quot.ind (λ a. hlevel)
      λ (p, n, d).
        Quot.ind (λ b. hlevel)
          λ (p', n', d').
            Quot.ind (λ c. hlevel)
              λ (q, m, e) h. le→leb _ _ (omega (arith, scale_le _ _ (suc e * suc e) (leb→le _ _ h)))

pub neg-anti : (a b : ℚ) → a ≤ℚ b → neg b ≤ℚ neg a
unfolding le? neg
neg-anti =
    Quot.ind (λ a. hlevel)
      λ x. Quot.ind (λ b. hlevel) λ y h. le→leb _ _ (omega (arith, leb→le _ _ h))

rearrange_le : (p n q m : ℕ) → n ≤ p → m ≤ q → p * m + n * q ≤ p * q + n * m
rearrange_le p n q m h k =
    let i : ℕ = p - n in
    let j : ℕ = q - m in
    let e : p ≡ n + i = omega arith in let f : q ≡ m + j = omega arith in rw (e, f) (omega arith)

rearrange_lt : (p n q m : ℕ) → n < p → m < q → p * m + n * q < p * q + n * m
rearrange_lt p n q m h k =
    let i : ℕ = p - n - 1 in
    let j : ℕ = q - m - 1 in
    let e : p ≡ n + suc i = omega arith in
    let f : q ≡ m + suc j = omega arith in rw (e, f) (omega arith)

pub *ℚ-nonneg : (a b : ℚ) → of_ℕ 0 ≤ℚ a → of_ℕ 0 ≤ℚ b → of_ℕ 0 ≤ℚ a *ℚ b
unfolding le? ◌*ℚ◌
*ℚ-nonneg =
    Quot.ind (λ a. hlevel)
      λ (p, n, d).
        Quot.ind (λ b. hlevel)
          λ (q, m, e) h k. le→leb _ _ (
            omega (
              arith,
              rearrange_le p n q m (omega (arith, leb→le _ _ h)) (omega (arith, leb→le _ _ k)),
            ))

pub *ℚ-pos : (a b : ℚ) → of_ℕ 0 <ℚ a → of_ℕ 0 <ℚ b → of_ℕ 0 <ℚ a *ℚ b
unfolding le? ◌*ℚ◌
*ℚ-pos =
    Quot.ind (λ a. hlevel)
      λ (p, n, d).
        Quot.ind (λ b. hlevel)
          λ (q, m, e) h k. lt→leb _ _ (
            omega (
              arith,
              rearrange_lt p n q m (omega (arith, leb→lt _ _ h)) (omega (arith, leb→lt _ _ k)),
            ))

inverse_lem : (p n d : ℕ) → n < p → product (p, n, d) (suc d, 0, p - n - 1) ∼ (1, 0, 0)
inverse_lem p n d h =
    let k : ℕ = p - n - 1 in
    let e : p ≡ n + suc k = omega arith in omega (arith, ap (λ (t : ℕ). t * suc d) e)

inverse-pos : (p n d : ℕ) → n < p → inverse (p, n, d) ≡ (suc d, 0, p - n - 1)
inverse-pos p n d h = let e : ltb n p ≡ true = ground arith in rw e

pub *ℚ-inv : (a : ℚ) → of_ℕ 0 <ℚ a → a *ℚ inv a ≡ of_ℕ 1
unfolding le? ◌*ℚ◌ inv
*ℚ-inv =
    Quot.ind (λ a. hlevel ℚ_set)
      λ (p, n, d) h.
        let pos : n < p = omega (arith, leb→lt _ _ h) in
        rw (inverse-pos p n d pos) (Quot.sound (inverse_lem p n d pos))

pub inv-pos : (a : ℚ) → of_ℕ 0 <ℚ a → of_ℕ 0 <ℚ inv a
unfolding le? inv
inv-pos =
    Quot.ind (λ a. hlevel)
      λ (p, n, d) h. rw (inverse-pos p n d (omega (arith, leb→lt _ _ h))) (lt→leb _ _ (omega arith))

pub ≤ℚ_of_sub : (a b : ℚ) → of_ℕ 0 ≤ℚ b -ℚ a → a ≤ℚ b
≤ℚ_of_sub a b h =
    let cancel : (b -ℚ a) +ℚ a ≡ b = simp ring in
    subst₂ (λ s t. s ≤ℚ t) (zero-+ℚ a) cancel (+ℚ_mono _ _ a h)

pub sub-nonneg : (a b : ℚ) → a ≤ℚ b → of_ℕ 0 ≤ℚ b -ℚ a
sub-nonneg a b h = rw -ℚ_lem (subst (λ s. s ≤ℚ b +ℚ neg a) (+ℚ-neg a) (+ℚ_mono a b (neg a) h))

pub *ℚ_mono : (a b c : ℚ) → of_ℕ 0 ≤ℚ c → a ≤ℚ b → a *ℚ c ≤ℚ b *ℚ c
*ℚ_mono a b c h k =
    let e : (b -ℚ a) *ℚ c ≡ b *ℚ c -ℚ a *ℚ c = simp ring in
    ≤ℚ_of_sub _ _ (subst (λ t. of_ℕ 0 ≤ℚ t) e (*ℚ-nonneg _ c (sub-nonneg a b k) h))

pub /ℚ-*ℚ : (a b : ℚ) → of_ℕ 0 <ℚ b → a /ℚ b *ℚ b ≡ a
/ℚ-*ℚ a b h =
    rw /ℚ_lem
      (*ℚ_assoc a (inv b) b ∙ (ap (λ t. a *ℚ t) (*ℚ_comm (inv b) b ∙ *ℚ-inv b h) ∙ *ℚ-one a))

pub *ℚ-/ℚ : (a b : ℚ) → of_ℕ 0 <ℚ b → a *ℚ b /ℚ b ≡ a
*ℚ-/ℚ a b h = rw /ℚ_lem (*ℚ_assoc a b (inv b) ∙ (ap (λ t. a *ℚ t) (*ℚ-inv b h) ∙ *ℚ-one a))

pub /ℚ_mono : (a b c : ℚ) → of_ℕ 0 <ℚ c → a ≤ℚ b → a /ℚ c ≤ℚ b /ℚ c
/ℚ_mono a b c h k =
    rw (/ℚ_lem a c, /ℚ_lem b c) ((*ℚ_mono a b (inv c) (≤ℚ_of_lt _ _ (inv-pos c h)) k))

pub ≤ℚ-/ℚ : (a b c : ℚ) → of_ℕ 0 <ℚ c → a *ℚ c ≤ℚ b → a ≤ℚ b /ℚ c
≤ℚ-/ℚ a b c h k = subst (λ t. t ≤ℚ b /ℚ c) (*ℚ-/ℚ a c h) (/ℚ_mono _ b c h k)

pub /ℚ-pos : (a b : ℚ) → of_ℕ 0 <ℚ a → of_ℕ 0 <ℚ b → of_ℕ 0 <ℚ a /ℚ b
/ℚ-pos a b h k = rw /ℚ_lem (*ℚ-pos a (inv b) h (inv-pos b k))

pub /ℚ-nonneg : (a b : ℚ) → of_ℕ 0 ≤ℚ a → of_ℕ 0 <ℚ b → of_ℕ 0 ≤ℚ a /ℚ b
/ℚ-nonneg a b h k = rw /ℚ_lem (*ℚ-nonneg a (inv b) h (≤ℚ_of_lt _ _ (inv-pos b k)))

pub +ℚ_mono_both : (a b c d : ℚ) → a ≤ℚ b → c ≤ℚ d → a +ℚ c ≤ℚ b +ℚ d
+ℚ_mono_both a b c d h k =
    ≤ℚ_trans _ _ _ (+ℚ_mono a b c h)
      (subst₂ (λ s t. s ≤ℚ t) (+ℚ_comm c b) (+ℚ_comm d b) (+ℚ_mono c d b k))

pub lt_of_le_of_lt : (a b c : ℚ) → a ≤ℚ b → b <ℚ c → a <ℚ c
lt_of_le_of_lt a b c h k = elim (Bool-cases (le? c a)) [
  | inl e ↦ cc (≤ℚ_trans c a b e h)
  | inr e ↦ e
]

pub lt_of_lt_of_le : (a b c : ℚ) → a <ℚ b → b ≤ℚ c → a <ℚ c
lt_of_lt_of_le a b c h k = elim (Bool-cases (le? c a)) [
  | inl e ↦ cc (≤ℚ_trans b c a k e)
  | inr e ↦ e
]

pub +ℚ-nonneg : (a b : ℚ) → of_ℕ 0 ≤ℚ a → of_ℕ 0 ≤ℚ b → of_ℕ 0 ≤ℚ a +ℚ b
+ℚ-nonneg a b h k = subst (λ t. t ≤ℚ a +ℚ b) (+ℚ-zero _) (+ℚ_mono_both _ a _ b h k)
