-- ===== src/Risk/Reducing.antt =====
-- The kill switch never stops an order that closes or reduces a position.
use capital.Prelude.{◌≡◌, ◌≢◌, ◌⊎◌, refl, ◌∙◌, subst, false, some, arith, inl, inr}
use capital.Rational.{ℚ, of_ℕ, ◌+ℚ◌, neg}
use mathlib.Core.Path.{subst₂}
use capital.Rational.Ring.{neg-neg, +ℚ_comm, -ℚ_lem, neg-+ℚ, zero-+ℚ}
use capital.Rational.Order.{◌≤ℚ◌, ◌<ℚ◌, ≤ℚ_trans, ≤ℚ_of_lt, sub-nonneg, +ℚ_mono, /ℚ-pos}
use capital.Rational.Abs.{abs, abs-of_nonneg, neg-nonpos, abs-neg}
use capital.Context.{Context, IsRounding, Fits, quotient}
use capital.Context.Rounding.{absolute-round, round-nonneg}
use capital.Models.{Order, Position, PositionSide, long, short, flat, Database, Time}
use capital.Portfolio.Fills.Exact.{exact_delta}
use capital.Portfolio.Fills.Refinement.{exact_signed, signed_qty-exact, signed_delta-exact}
use capital.Risk.{RiskManager, closing_side, increases_exposure, review, cap_order_size}
use capital.Risk.Gate.{cap_order_size-Clips, review-reducing}

-- An order against a position, and not for more than all of it.
pub record Reduces (o : Order) (p : Position) : Type 0 where
  pub is_open : p.side ≢ flat
  pub against : o.side ≡ closing_side p.side
  pub nonneg : of_ℕ 0 ≤ℚ o.quantity
  pub within : o.quantity ≤ℚ p.qty

sub_between : (a b : ℚ) → of_ℕ 0 ≤ℚ b → b ≤ℚ a → (of_ℕ 0 ≤ℚ a +ℚ neg b) × (a +ℚ neg b ≤ℚ a)
sub_between a b h k = (
  subst (λ t. of_ℕ 0 ≤ℚ t) (-ℚ_lem a b) (sub-nonneg b a k),
  subst₂ (λ s t. s ≤ℚ t) (+ℚ_comm (neg b) a) (zero-+ℚ a)
      (+ℚ_mono (neg b) (of_ℕ 0) a (neg-nonpos b h)),
)

-- What is left is no greater than what was held, on either side.
left-le :
    (p : Position) (q : ℚ)
    → p.side ≢ flat
    → of_ℕ 0 ≤ℚ q
    → q ≤ℚ p.qty
    → abs (exact_signed p +ℚ exact_delta (closing_side p.side) q) ≤ℚ abs (exact_signed p)
left-le p q h pos w = by_side p.side h
  where
    n : of_ℕ 0 ≤ℚ p.qty
    n = ≤ℚ_trans _ _ _ pos w

    by_side :
        (s : PositionSide)
        → s ≢ flat
        → let signed : ℚ = elim s [ long ↦ p.qty | short ↦ neg p.qty | flat ↦ of_ℕ 0 ] in
          abs (signed +ℚ exact_delta (closing_side s) q) ≤ℚ abs signed
    by_side long h =
        let b = sub_between p.qty q pos w in rw (abs-of_nonneg _ b.0, abs-of_nonneg _ n) b.1
    by_side short h =
        let b = sub_between p.qty q pos w in
        let e : neg p.qty +ℚ q ≡ neg (p.qty +ℚ neg q) = simp (neg-+ℚ, neg-neg) in
        rw e (
          rw (abs-neg (p.qty +ℚ neg q))
            (rw (abs-neg p.qty) (rw (abs-of_nonneg _ b.0, abs-of_nonneg _ n) b.1)))
    by_side flat h = absurd (h refl)

module _ ⦃c : Context⦄ (r : IsRounding c.round) where
  Reduces-exposure :
      (o : Order) (p : Position)
      → Reduces o p
      → Fits p.qty
      → Fits o.quantity
      → increases_exposure o p ≡ false
  unfolding increases_exposure
  Reduces-exposure o p d fp fo =
      let s : ℚ = exact_signed p in
      let e : ℚ = exact_delta (closing_side p.side) o.quantity in
      let l = left-le p o.quantity d.is_open d.nonneg d.within in
      rw (signed_qty-exact r p fp, signed_delta-exact r o.side o.quantity fo, d.against)
        (rw (absolute-round r (s +ℚ e)) (rw (r.mono (abs (s +ℚ e)) (abs s) l)))

  cap_order_size-quantity :
      (risk : RiskManager) (o o' : Order) (price : ℚ)
      → cap_order_size risk o price ≡ some o'
      → (o'.quantity ≡ o.quantity)
        ⊎ ((o'.quantity ≡ quotient risk.max_position_notional price)
            × (of_ℕ 0 <ℚ risk.max_position_notional)
            × (of_ℕ 0 <ℚ price))
  unfolding cap_order_size
  cap_order_size-quantity risk o o' price h = ground arith

  clipped-Reduces :
      (risk : RiskManager) (o o' : Order) (p : Position) (price : ℚ)
      → Reduces o p
      → Fits o.quantity
      → cap_order_size risk o price ≡ some o'
      → Reduces o' p × Fits o'.quantity
  clipped-Reduces risk o o' p price d f h =
      let k = cap_order_size-Clips risk o o' price h in
      let reduced : of_ℕ 0 ≤ℚ o'.quantity → Reduces o' p = λ n. record {
        is_open = d.is_open;
        against = k.side ∙ d.against;
        nonneg = n;
        within = ≤ℚ_trans _ _ _ k.quantity d.within;
      } in
      elim (cap_order_size-quantity risk o o' price h) [
        | inl e ↦ (reduced (rw e d.nonneg), rw e f)
        | inr (e, on, pos) ↦
            (reduced (rw e (round-nonneg r _ (≤ℚ_of_lt _ _ (/ℚ-pos _ _ on pos)))), rw e (r.idem _))
      ]

  -- An order that closes or reduces a position passes whatever the losses are: the answer is that of
  -- the sizing cap alone. Stated where the context holds the two quantities.
  pub review_reducing :
      (risk : RiskManager) (now : Time) (db : Database) (o : Order) (p : Position) (price : ℚ)
      → Reduces o p
      → Fits p.qty
      → Fits o.quantity
      → review risk now db o p price ≡ cap_order_size risk o price
  review_reducing risk now db o p price d fp fo =
      review-reducing risk now db o p price
        λ o' h. let k = clipped-Reduces risk o o' p price d fo h in Reduces-exposure o' p k.0 fp k.1
