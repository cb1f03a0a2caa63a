-- ===== src/Portfolio/Allocation/Bounds.antt =====
-- What `enforce_allocation` promises: exposure stays within the budget, and an order that only
-- reduces it passes in full.
use capital.Prelude.{◌≡◌, ◌≢◌, refl, sym, ap, ◌∙◌, subst, some, arith, Bool-cases, inl, inr}
use mathlib.Core.Path.{subst₂}
use capital.Rational.{ℚ, of_ℕ, le?, ◌+ℚ◌, ◌*ℚ◌, ◌/ℚ◌, neg}
use capital.Rational.Ring.{ring, +ℚ_comm, zero-+ℚ, neg-neg, -ℚ_lem}
use capital.Rational.Order.{
  ◌≤ℚ◌, ◌<ℚ◌, ≤ℚ_refl, ≤ℚ_trans, ≤ℚ_of_lt, +ℚ_mono, lt_of_lt_of_le, *ℚ_mono, /ℚ-*ℚ, /ℚ-nonneg,
}
use capital.Context.{Context, IsRounding, Fits, maximum}
use capital.Models.{Order, Position, PositionSide, long, short, flat, FillSide, buy, sell}
use capital.Portfolio.Positions.{signed_qty}
use capital.Portfolio.Fills.Exact.{exact_delta}
use capital.Portfolio.Fills.Refinement.{exact_signed, signed_qty-exact}
use capital.Portfolio.Allocation.{enforce_allocation, headroom, cap_quantity}
use capital.Context.Rounding.{round-nonneg}
use capital.Risk.{closing_side}
use capital.Risk.Gate.{Clips}
use capital.Risk.Reducing.{Reduces}

module _ ⦃c : Context⦄ where
  pub enforce-room :
      (p : Position) (allocation price : ℚ) (o o' : Order)
      → enforce_allocation p allocation o price ≡ some o'
      → let room = headroom o.side (cap_quantity allocation price) (signed_qty p) in
        (of_ℕ 0 <ℚ price) × (of_ℕ 0 <ℚ o'.quantity) × (o'.quantity ≤ℚ room) × Clips o o'
  unfolding enforce_allocation
  enforce-room p allocation price o o' h =
      let room : ℚ = headroom o.side (cap_quantity allocation price) (signed_qty p) in
      ground (arith, ≤ℚ_refl room, ≤ℚ_refl o.quantity, ≤ℚ_of_lt room o.quantity)

-- A size as seen from an order's side: how far it goes the order's way.
abbrev pub along : FillSide → ℚ → ℚ
along buy x = x
along sell x = neg x

pub along-delta :
    (side : FillSide) (s q : ℚ) → along side (s +ℚ exact_delta side q) ≡ along side s +ℚ q
along-delta buy s q = refl
along-delta sell s q = simp ring

along-closing :
    (p : Position) → p.side ≢ flat → along (closing_side p.side) (exact_signed p) ≡ neg p.qty
along-closing p h = by_side p.side h
  where
    by_side :
        (s : PositionSide)
        → s ≢ flat
        → along (closing_side s) (elim s [ long ↦ p.qty | short ↦ neg p.qty | flat ↦ of_ℕ 0 ])
          ≡ neg p.qty
    by_side long h = refl
    by_side short h = refl
    by_side flat h = absurd (h refl)

maximum-nonneg : (a : ℚ) → of_ℕ 0 ≤ℚ maximum a (of_ℕ 0)
maximum-nonneg a = elim (Bool-cases (le? (of_ℕ 0) a)) [ inl e ↦ rw e e | inr e ↦ rw e (≤ℚ_refl _) ]

module _ ⦃c : Context⦄ where
  headroom-along :
      (side : FillSide) (cap s : ℚ) → headroom side cap s ≡ c.round (cap +ℚ neg (along side s))
  headroom-along buy cap s = ap c.round (-ℚ_lem cap s)
  headroom-along sell cap s = ap (λ t. c.round (cap +ℚ t)) (sym (neg-neg s))

  -- An order that the allocation check lets through is the order itself or a smaller one, of a
  -- positive quantity, and after its fill the position is worth no more than the budget on the
  -- order's side, at the price of the check. Stated where the context holds the numbers on the way.
  pub enforce_allocation_bound :
      (r : IsRounding c.round) (p : Position) (allocation price : ℚ) (o o' : Order)
      → Fits p.qty
      → Fits (maximum allocation (of_ℕ 0) /ℚ price)
      → Fits (maximum allocation (of_ℕ 0) /ℚ price +ℚ neg (along o.side (exact_signed p)))
      → enforce_allocation p allocation o price ≡ some o'
      → Clips o o'
        × (of_ℕ 0 <ℚ o'.quantity)
        × (along o.side (exact_signed p +ℚ exact_delta o.side o'.quantity) *ℚ price
            ≤ℚ maximum allocation (of_ℕ 0))
  enforce_allocation_bound r p allocation price o o' fp fc fr h =
      let k = enforce-room p allocation price o o' h in
      let top : ℚ = maximum allocation (of_ℕ 0) in
      let s : ℚ = along o.side (exact_signed p) in
      let e : headroom o.side (cap_quantity allocation price) (signed_qty p)
          ≡ top /ℚ price +ℚ neg s =
        rw (signed_qty-exact r p fp, fc)
          (headroom-along o.side (top /ℚ price) (exact_signed p) ∙ fr) in
      let b : o'.quantity ≤ℚ top /ℚ price +ℚ neg s = subst (λ t. o'.quantity ≤ℚ t) e k.2 in
      let g : top /ℚ price +ℚ neg s +ℚ s ≡ top /ℚ price = simp ring in
      let f : s +ℚ o'.quantity ≤ℚ top /ℚ price =
        subst₂ (λ t u. t ≤ℚ u) (+ℚ_comm o'.quantity s) g (+ℚ_mono _ _ s b) in
      (
        k.3,
        k.1,
        rw (along-delta o.side (exact_signed p) o'.quantity) (
            subst (λ t. (s +ℚ o'.quantity) *ℚ price ≤ℚ t) (/ℚ-*ℚ top price k.0)
              (*ℚ_mono _ _ price (≤ℚ_of_lt _ _ k.0) f)),
      )

  -- An order that closes or reduces a position passes in full, whatever the budget, at any positive
  -- price. Stated where the context holds the position's quantity.
  pub enforce_allocation_reducing :
      (r : IsRounding c.round) (p : Position) (allocation price : ℚ) (o : Order)
      → Reduces o p
      → of_ℕ 0 <ℚ o.quantity
      → of_ℕ 0 <ℚ price
      → Fits p.qty
      → enforce_allocation p allocation o price ≡ some o
  unfolding enforce_allocation
  enforce_allocation_reducing r p allocation price o d pos pr fp =
      let top : ℚ = maximum allocation (of_ℕ 0) in
      let cap : ℚ = cap_quantity allocation price in
      let n : of_ℕ 0 ≤ℚ cap =
        round-nonneg r _ (/ℚ-nonneg top price (maximum-nonneg allocation) pr) in
      let e : headroom o.side cap (signed_qty p) ≡ c.round (cap +ℚ p.qty) =
        rw (signed_qty-exact r p fp, d.against)
          (headroom-along (closing_side p.side) cap (exact_signed p)
            ∙ rw (along-closing p d.is_open) (rw neg-neg refl)) in
      let w : p.qty ≤ℚ c.round (cap +ℚ p.qty) =
        subst (λ t. t ≤ℚ c.round (cap +ℚ p.qty)) (ap c.round (zero-+ℚ p.qty) ∙ fp)
          (r.mono _ _ (+ℚ_mono (of_ℕ 0) cap p.qty n)) in
      let fits : o.quantity ≤ℚ c.round (cap +ℚ p.qty) = ≤ℚ_trans _ _ _ d.within w in
      rw (pr, pos) (rw e (rw (lt_of_lt_of_le _ _ _ pos fits) (rw fits)))
