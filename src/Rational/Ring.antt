-- ===== src/Rational/Ring.antt =====
-- The laws of addition and multiplication, and the normal form by which `simp` proves equations.
use mathlib.Core.Quot
use capital.Prelude.{◌≡◌, refl, sym, ap, ◌∙◌, arith}
use capital.Rational.{ℚ, ℚ_set, of_ℕ, ◌+ℚ◌, ◌*ℚ◌, ◌-ℚ◌, ◌/ℚ◌, neg, inv}
use capital.Rational.Fractions.{sum, product, ∼_of_scale}

pub +ℚ_comm : (a b : ℚ) → a +ℚ b ≡ b +ℚ a
unfolding ◌+ℚ◌
+ℚ_comm = Quot.ind (λ a. hlevel ℚ_set) λ x. Quot.ind (λ b. ℚ_set _ _) λ y. Quot.sound (omega arith)

pub +ℚ_assoc : (a b c : ℚ) → a +ℚ b +ℚ c ≡ a +ℚ (b +ℚ c)
unfolding ◌+ℚ◌
+ℚ_assoc =
    Quot.ind (λ a. hlevel ℚ_set)
      λ x.
        Quot.ind (λ b. hlevel ℚ_set)
          λ y.
            Quot.ind (λ c. ℚ_set _ _)
              λ z. Quot.sound (
                ∼_of_scale (sum (sum x y) z) (sum x (sum y z)) 0 (omega arith) (omega arith)
                  (omega arith))

pub +ℚ_left_comm : (a b c : ℚ) → a +ℚ (b +ℚ c) ≡ b +ℚ (a +ℚ c)
+ℚ_left_comm a b c = sym (+ℚ_assoc a b c) ∙ (ap (λ t. t +ℚ c) (+ℚ_comm a b) ∙ +ℚ_assoc b a c)

pub +ℚ-zero : (a : ℚ) → a +ℚ of_ℕ 0 ≡ a
unfolding ◌+ℚ◌
+ℚ-zero = Quot.ind (λ a. ℚ_set _ _) λ x. Quot.sound (omega arith)

pub zero-+ℚ : (a : ℚ) → of_ℕ 0 +ℚ a ≡ a
zero-+ℚ a = +ℚ_comm (of_ℕ 0) a ∙ +ℚ-zero a

pub +ℚ-neg : (a : ℚ) → a +ℚ neg a ≡ of_ℕ 0
unfolding ◌+ℚ◌ neg
+ℚ-neg = Quot.ind (λ a. ℚ_set _ _) λ x. Quot.sound (omega arith)

pub *ℚ_comm : (a b : ℚ) → a *ℚ b ≡ b *ℚ a
unfolding ◌*ℚ◌
*ℚ_comm = Quot.ind (λ a. hlevel ℚ_set) λ x. Quot.ind (λ b. ℚ_set _ _) λ y. Quot.sound (omega arith)

pub *ℚ_assoc : (a b c : ℚ) → a *ℚ b *ℚ c ≡ a *ℚ (b *ℚ c)
unfolding ◌*ℚ◌
*ℚ_assoc =
    Quot.ind (λ a. hlevel ℚ_set)
      λ x.
        Quot.ind (λ b. hlevel ℚ_set)
          λ y.
            Quot.ind (λ c. ℚ_set _ _)
              λ z. Quot.sound (
                ∼_of_scale (product (product x y) z) (product x (product y z)) 0 (omega arith)
                  (omega arith) (omega arith))

pub *ℚ_left_comm : (a b c : ℚ) → a *ℚ (b *ℚ c) ≡ b *ℚ (a *ℚ c)
*ℚ_left_comm a b c = sym (*ℚ_assoc a b c) ∙ (ap (λ t. t *ℚ c) (*ℚ_comm a b) ∙ *ℚ_assoc b a c)

pub *ℚ-one : (a : ℚ) → a *ℚ of_ℕ 1 ≡ a
unfolding ◌*ℚ◌
*ℚ-one = Quot.ind (λ a. ℚ_set _ _) λ x. Quot.sound (omega arith)

pub one-*ℚ : (a : ℚ) → of_ℕ 1 *ℚ a ≡ a
one-*ℚ a = *ℚ_comm (of_ℕ 1) a ∙ *ℚ-one a

pub *ℚ-zero : (a : ℚ) → a *ℚ of_ℕ 0 ≡ of_ℕ 0
unfolding ◌*ℚ◌
*ℚ-zero = Quot.ind (λ a. ℚ_set _ _) λ x. Quot.sound (omega arith)

pub zero-*ℚ : (a : ℚ) → of_ℕ 0 *ℚ a ≡ of_ℕ 0
zero-*ℚ a = *ℚ_comm (of_ℕ 0) a ∙ *ℚ-zero a

pub *ℚ-+ℚ : (a b c : ℚ) → a *ℚ (b +ℚ c) ≡ a *ℚ b +ℚ a *ℚ c
unfolding ◌+ℚ◌ ◌*ℚ◌
*ℚ-+ℚ =
    Quot.ind (λ a. hlevel ℚ_set)
      λ x.
        Quot.ind (λ b. hlevel ℚ_set)
          λ y.
            Quot.ind (λ c. ℚ_set _ _)
              λ z. Quot.sound (
                ∼_of_scale (product x (sum y z)) (sum (product x y) (product x z)) x.2 (omega arith)
                  (omega arith) (omega arith))

pub +ℚ-*ℚ : (a b c : ℚ) → (a +ℚ b) *ℚ c ≡ a *ℚ c +ℚ b *ℚ c
+ℚ-*ℚ a b c = simp (*ℚ_comm, *ℚ-+ℚ)

pub neg-+ℚ : (a b : ℚ) → neg (a +ℚ b) ≡ neg a +ℚ neg b
unfolding ◌+ℚ◌ neg
neg-+ℚ = Quot.ind (λ a. hlevel ℚ_set) λ x. Quot.ind (λ b. ℚ_set _ _) λ y. Quot.sound (omega arith)

pub neg-*ℚ : (a b : ℚ) → neg a *ℚ b ≡ neg (a *ℚ b)
unfolding ◌*ℚ◌ neg
neg-*ℚ = Quot.ind (λ a. hlevel ℚ_set) λ x. Quot.ind (λ b. ℚ_set _ _) λ y. Quot.sound (omega arith)

pub *ℚ-neg : (a b : ℚ) → a *ℚ neg b ≡ neg (a *ℚ b)
*ℚ-neg a b = *ℚ_comm a (neg b) ∙ (neg-*ℚ b a ∙ ap neg (*ℚ_comm b a))

pub neg-neg : (a : ℚ) → neg (neg a) ≡ a
unfolding neg
neg-neg = Quot.ind (λ a. ℚ_set _ _) λ x. Quot.sound (omega arith)

pub neg-zero : neg (of_ℕ 0) ≡ of_ℕ 0
unfolding neg
neg-zero = Quot.sound (omega arith)

pub -ℚ_lem : (a b : ℚ) → a -ℚ b ≡ a +ℚ neg b
unfolding ◌-ℚ◌
-ℚ_lem a b = refl

pub /ℚ_lem : (a b : ℚ) → a /ℚ b ≡ a *ℚ inv b
unfolding ◌/ℚ◌
/ℚ_lem a b = refl

-- A term and its opposite cancel at any distance up to six in a sum.
pub +ℚ-cancel_0 : (a r : ℚ) → a +ℚ (neg a +ℚ r) ≡ r
+ℚ-cancel_0 a r = sym (+ℚ_assoc a (neg a) r) ∙ (ap (λ t. t +ℚ r) (+ℚ-neg a) ∙ zero-+ℚ r)

pub +ℚ-cancel_1 : (a b r : ℚ) → a +ℚ (b +ℚ (neg a +ℚ r)) ≡ b +ℚ r
+ℚ-cancel_1 a b r = +ℚ_left_comm (a) b _ ∙ ap (λ t. b +ℚ t) (+ℚ-cancel_0 a r)

pub +ℚ-cancel_2 : (a b c r : ℚ) → a +ℚ (b +ℚ (c +ℚ (neg a +ℚ r))) ≡ b +ℚ (c +ℚ r)
+ℚ-cancel_2 a b c r = +ℚ_left_comm (a) b _ ∙ ap (λ t. b +ℚ t) (+ℚ-cancel_1 a c r)

pub +ℚ-cancel_3 : (a b c d r : ℚ) → a +ℚ (b +ℚ (c +ℚ (d +ℚ (neg a +ℚ r)))) ≡ b +ℚ (c +ℚ (d +ℚ r))
+ℚ-cancel_3 a b c d r = +ℚ_left_comm (a) b _ ∙ ap (λ t. b +ℚ t) (+ℚ-cancel_2 a c d r)

pub +ℚ-cancel_4 :
    (a b c d e r : ℚ) → a +ℚ (b +ℚ (c +ℚ (d +ℚ (e +ℚ (neg a +ℚ r))))) ≡ b +ℚ (c +ℚ (d +ℚ (e +ℚ r)))
+ℚ-cancel_4 a b c d e r = +ℚ_left_comm (a) b _ ∙ ap (λ t. b +ℚ t) (+ℚ-cancel_3 a c d e r)

pub +ℚ-cancel_5 :
    (a b c d e f r : ℚ)
    → a +ℚ (b +ℚ (c +ℚ (d +ℚ (e +ℚ (f +ℚ (neg a +ℚ r)))))) ≡ b +ℚ (c +ℚ (d +ℚ (e +ℚ (f +ℚ r))))
+ℚ-cancel_5 a b c d e f r = +ℚ_left_comm (a) b _ ∙ ap (λ t. b +ℚ t) (+ℚ-cancel_4 a c d e f r)

pub +ℚ-cancel_end_0 : (a : ℚ) → a +ℚ neg a ≡ of_ℕ 0
+ℚ-cancel_end_0 a = +ℚ-neg a

pub +ℚ-cancel_end_1 : (a b : ℚ) → a +ℚ (b +ℚ neg a) ≡ b
+ℚ-cancel_end_1 a b =
    +ℚ_left_comm (a) b (neg a) ∙ (ap (λ t. b +ℚ t) (+ℚ-cancel_end_0 a) ∙ +ℚ-zero b)

pub +ℚ-cancel_end_2 : (a b c : ℚ) → a +ℚ (b +ℚ (c +ℚ neg a)) ≡ b +ℚ c
+ℚ-cancel_end_2 a b c = +ℚ_left_comm (a) b _ ∙ ap (λ t. b +ℚ t) (+ℚ-cancel_end_1 a c)

pub +ℚ-cancel_end_3 : (a b c d : ℚ) → a +ℚ (b +ℚ (c +ℚ (d +ℚ neg a))) ≡ b +ℚ (c +ℚ d)
+ℚ-cancel_end_3 a b c d = +ℚ_left_comm (a) b _ ∙ ap (λ t. b +ℚ t) (+ℚ-cancel_end_2 a c d)

pub +ℚ-cancel_end_4 :
    (a b c d e : ℚ) → a +ℚ (b +ℚ (c +ℚ (d +ℚ (e +ℚ neg a)))) ≡ b +ℚ (c +ℚ (d +ℚ e))
+ℚ-cancel_end_4 a b c d e = +ℚ_left_comm (a) b _ ∙ ap (λ t. b +ℚ t) (+ℚ-cancel_end_3 a c d e)

pub +ℚ-cancel_end_5 :
    (a b c d e f : ℚ) → a +ℚ (b +ℚ (c +ℚ (d +ℚ (e +ℚ (f +ℚ neg a))))) ≡ b +ℚ (c +ℚ (d +ℚ (e +ℚ f)))
+ℚ-cancel_end_5 a b c d e f = +ℚ_left_comm (a) b _ ∙ ap (λ t. b +ℚ t) (+ℚ-cancel_end_4 a c d e f)

pub +ℚ-cancel_neg_0 : (a r : ℚ) → neg a +ℚ (a +ℚ r) ≡ r
+ℚ-cancel_neg_0 a r = +ℚ_left_comm (neg a) a r ∙ +ℚ-cancel_0 a r

pub +ℚ-cancel_neg_1 : (a b r : ℚ) → neg a +ℚ (b +ℚ (a +ℚ r)) ≡ b +ℚ r
+ℚ-cancel_neg_1 a b r = +ℚ_left_comm (neg a) b _ ∙ ap (λ t. b +ℚ t) (+ℚ-cancel_neg_0 a r)

pub +ℚ-cancel_neg_2 : (a b c r : ℚ) → neg a +ℚ (b +ℚ (c +ℚ (a +ℚ r))) ≡ b +ℚ (c +ℚ r)
+ℚ-cancel_neg_2 a b c r = +ℚ_left_comm (neg a) b _ ∙ ap (λ t. b +ℚ t) (+ℚ-cancel_neg_1 a c r)

pub +ℚ-cancel_neg_3 :
    (a b c d r : ℚ) → neg a +ℚ (b +ℚ (c +ℚ (d +ℚ (a +ℚ r)))) ≡ b +ℚ (c +ℚ (d +ℚ r))
+ℚ-cancel_neg_3 a b c d r = +ℚ_left_comm (neg a) b _ ∙ ap (λ t. b +ℚ t) (+ℚ-cancel_neg_2 a c d r)

pub +ℚ-cancel_neg_4 :
    (a b c d e r : ℚ) → neg a +ℚ (b +ℚ (c +ℚ (d +ℚ (e +ℚ (a +ℚ r))))) ≡ b +ℚ (c +ℚ (d +ℚ (e +ℚ r)))
+ℚ-cancel_neg_4 a b c d e r =
    +ℚ_left_comm (neg a) b _ ∙ ap (λ t. b +ℚ t) (+ℚ-cancel_neg_3 a c d e r)

pub +ℚ-cancel_neg_5 :
    (a b c d e f r : ℚ)
    → neg a +ℚ (b +ℚ (c +ℚ (d +ℚ (e +ℚ (f +ℚ (a +ℚ r)))))) ≡ b +ℚ (c +ℚ (d +ℚ (e +ℚ (f +ℚ r))))
+ℚ-cancel_neg_5 a b c d e f r =
    +ℚ_left_comm (neg a) b _ ∙ ap (λ t. b +ℚ t) (+ℚ-cancel_neg_4 a c d e f r)

pub +ℚ-cancel_neg_end_0 : (a : ℚ) → neg a +ℚ a ≡ of_ℕ 0
+ℚ-cancel_neg_end_0 a = +ℚ_comm (neg a) a ∙ +ℚ-neg a

pub +ℚ-cancel_neg_end_1 : (a b : ℚ) → neg a +ℚ (b +ℚ a) ≡ b
+ℚ-cancel_neg_end_1 a b =
    +ℚ_left_comm (neg a) b (a) ∙ (ap (λ t. b +ℚ t) (+ℚ-cancel_neg_end_0 a) ∙ +ℚ-zero b)

pub +ℚ-cancel_neg_end_2 : (a b c : ℚ) → neg a +ℚ (b +ℚ (c +ℚ a)) ≡ b +ℚ c
+ℚ-cancel_neg_end_2 a b c = +ℚ_left_comm (neg a) b _ ∙ ap (λ t. b +ℚ t) (+ℚ-cancel_neg_end_1 a c)

pub +ℚ-cancel_neg_end_3 : (a b c d : ℚ) → neg a +ℚ (b +ℚ (c +ℚ (d +ℚ a))) ≡ b +ℚ (c +ℚ d)
+ℚ-cancel_neg_end_3 a b c d =
    +ℚ_left_comm (neg a) b _ ∙ ap (λ t. b +ℚ t) (+ℚ-cancel_neg_end_2 a c d)

pub +ℚ-cancel_neg_end_4 :
    (a b c d e : ℚ) → neg a +ℚ (b +ℚ (c +ℚ (d +ℚ (e +ℚ a)))) ≡ b +ℚ (c +ℚ (d +ℚ e))
+ℚ-cancel_neg_end_4 a b c d e =
    +ℚ_left_comm (neg a) b _ ∙ ap (λ t. b +ℚ t) (+ℚ-cancel_neg_end_3 a c d e)

pub +ℚ-cancel_neg_end_5 :
    (a b c d e f : ℚ) → neg a +ℚ (b +ℚ (c +ℚ (d +ℚ (e +ℚ (f +ℚ a))))) ≡ b +ℚ (c +ℚ (d +ℚ (e +ℚ f)))
+ℚ-cancel_neg_end_5 a b c d e f =
    +ℚ_left_comm (neg a) b _ ∙ ap (λ t. b +ℚ t) (+ℚ-cancel_neg_end_4 a c d e f)

pub ruleset cancels = (
  +ℚ-cancel_0, +ℚ-cancel_1, +ℚ-cancel_2, +ℚ-cancel_3, +ℚ-cancel_4, +ℚ-cancel_5, +ℚ-cancel_end_0,
  +ℚ-cancel_end_1, +ℚ-cancel_end_2, +ℚ-cancel_end_3, +ℚ-cancel_end_4, +ℚ-cancel_end_5,
  +ℚ-cancel_neg_0, +ℚ-cancel_neg_1, +ℚ-cancel_neg_2, +ℚ-cancel_neg_3, +ℚ-cancel_neg_4,
  +ℚ-cancel_neg_5, +ℚ-cancel_neg_end_0, +ℚ-cancel_neg_end_1, +ℚ-cancel_neg_end_2,
  +ℚ-cancel_neg_end_3, +ℚ-cancel_neg_end_4, +ℚ-cancel_neg_end_5,
)

-- Sums of products, sorted, with what cancels removed: both sides of an equation of commutative
-- rings come to one form.
pub ruleset ring = (
  -ℚ_lem, /ℚ_lem, +ℚ_comm, +ℚ_assoc, +ℚ_left_comm, +ℚ-zero, zero-+ℚ, *ℚ_comm, *ℚ_assoc,
  *ℚ_left_comm, *ℚ-one, one-*ℚ, *ℚ-zero, zero-*ℚ, *ℚ-+ℚ, +ℚ-*ℚ, neg-+ℚ, neg-*ℚ, *ℚ-neg, neg-neg,
  neg-zero, cancels,
)

pub -ℚ_self : (a : ℚ) → a -ℚ a ≡ of_ℕ 0
-ℚ_self a = simp ring
