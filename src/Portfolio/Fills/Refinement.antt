-- ===== src/Portfolio/Fills/Refinement.antt =====
-- `fold_fill` computes the exact fill wherever the context holds the numbers on the way.
use capital.Prelude.{◌≡◌, refl, sym, ap, ◌∙◌, Bool, true, false, some, Bool-cases, inl, inr}
use capital.Rational.{ℚ, of_ℕ, le?, ◌+ℚ◌, ◌-ℚ◌, ◌*ℚ◌, neg, ◌/ℚ◌}
use capital.Rational.Ring.{neg-neg, *ℚ-neg, *ℚ-one}
use capital.Rational.Order.{lt?, eq?, ◌<ℚ◌, ◌≤ℚ◌, ≤ℚ_of_lt, ≤ℚ_refl}
use capital.Rational.Abs.{abs, abs-of_nonneg, abs-of_neg, abs-nonneg, sign_cases, +ℚ-pos_of_nonneg}
use capital.Context.{Context, IsRounding, Fits, minus, divide, minimum}
use capital.Models.{Position, PositionSide, long, short, flat, FillSide, buy, sell, Time}
use capital.Effects.{ok}
use capital.Portfolio.Positions.{signed_qty, direction}
use capital.Portfolio.Fills.{fold_fill, signed_delta, average_entry, side_of, opened}
use capital.Portfolio.Fills.Exact.{
  Holding, exact_delta, is_adding, exact_average, exact_booked, exact_fill,
}

-- Position size as an exact signed number.
abbrev pub exact_signed : Position → ℚ
exact_signed p = elim p.side [ long ↦ p.qty | short ↦ neg p.qty | flat ↦ of_ℕ 0 ]

abbrev pub holding_of : Position → Holding
holding_of p = record { size = exact_signed p; entry = p.entry_price; realized = p.realized_pnl }

-- The row that stands for a holding.
abbrev pub position_at : Position → Holding → ℚ → Time → Position
position_at p h fees now = record p {
  entry_price = h.entry;
  realized_pnl = h.realized;
  fees_paid = fees;
  qty = abs h.size;
  side = side_of h.size;
  opened_at = opened (eq? h.size (of_ℕ 0)) p.opened_at now;
  updated_at = some now;
}

module _ ⦃c : Context⦄ where
  -- The numbers on the way of an adding fill fit the context.
  pub record AddFits (size entry qty price : ℚ) : Type 0 where
    pub weighted : Fits (abs size *ℚ entry)
    pub paid : Fits (qty *ℚ price)
    pub total : Fits (abs size *ℚ entry +ℚ qty *ℚ price)
    pub grown : Fits (abs size +ℚ qty)
    pub average : Fits (exact_average size entry qty price)

  -- The numbers on the way of a reducing, closing or flipping fill fit the context.
  pub record ReduceFits (size entry realized qty price : ℚ) : Type 0 where
    pub move : Fits (price -ℚ entry)
    pub closed : Fits ((price -ℚ entry) *ℚ minimum qty (abs size))
    pub total : Fits (realized +ℚ exact_booked size entry qty price)

  -- The numbers on the way of a fill fit the context.
  pub record FillFits (p : Position) (side : FillSide) (qty price fee : ℚ) : Type 0 where
    pub held : Fits p.qty
    pub filled : Fits qty
    pub left : Fits (exact_signed p +ℚ exact_delta side qty)
    pub charged : Fits (p.fees_paid +ℚ fee)
    pub adding :
        is_adding (exact_signed p) (exact_delta side qty) ≡ true
        → AddFits (exact_signed p) p.entry_price qty price
    pub reducing :
        is_adding (exact_signed p) (exact_delta side qty) ≡ false
        → ReduceFits (exact_signed p) p.entry_price p.realized_pnl qty price

  module _ (r : IsRounding c.round) where
    pub Fits-neg : (a : ℚ) → Fits a → Fits (neg a)
    Fits-neg a h = r.odd a ∙ ap neg h

    pub Fits-abs : (a : ℚ) → Fits a → Fits (abs a)
    Fits-abs a h = elim (Bool-cases (le? (of_ℕ 0) a)) [
      | inl e ↦ rw (abs-of_nonneg a e) h
      | inr e ↦ rw (abs-of_neg a e) (Fits-neg a h)
    ]

    pub signed_qty-exact : (p : Position) → Fits p.qty → signed_qty p ≡ exact_signed p
    unfolding signed_qty
    signed_qty-exact p h = by_side p.side
      where
        by_side :
            (s : PositionSide)
            → elim s [ long ↦ p.qty | short ↦ minus p.qty | flat ↦ of_ℕ 0 ]
              ≡ elim s [ long ↦ p.qty | short ↦ neg p.qty | flat ↦ of_ℕ 0 ]
        by_side long = refl
        by_side short = Fits-neg p.qty h
        by_side flat = refl

    pub Fits-exact_signed : (p : Position) → Fits p.qty → Fits (exact_signed p)
    Fits-exact_signed p h = by_side p.side
      where
        by_side :
            (s : PositionSide) → Fits (elim s [ long ↦ p.qty | short ↦ neg p.qty | flat ↦ of_ℕ 0 ])
        by_side long = h
        by_side short = Fits-neg p.qty h
        by_side flat = r.zero

    pub signed_delta-exact :
        (side : FillSide) (qty : ℚ) → Fits qty → signed_delta side qty ≡ exact_delta side qty
    signed_delta-exact buy qty h = refl
    signed_delta-exact sell qty h = Fits-neg qty h

    pub Fits-exact_delta : (side : FillSide) (qty : ℚ) → Fits qty → Fits (exact_delta side qty)
    Fits-exact_delta buy qty h = h
    Fits-exact_delta sell qty h = Fits-neg qty h

    divide-exact : (a b : ℚ) → of_ℕ 0 <ℚ b → Fits (a /ℚ b) → divide a b ≡ ok (a /ℚ b)
    divide-exact a b pos h = rw pos (rw h)

    average_entry-exact :
        (s e q p : ℚ)
        → Fits s
        → of_ℕ 0 <ℚ q
        → AddFits s e q p
        → average_entry s e q p ≡ ok (exact_average s e q p)
    average_entry-exact s e q p fs pos f =
        simp (Fits-abs s fs, f.weighted, f.paid, f.total, f.grown)
          (divide-exact _ _ (+ℚ-pos_of_nonneg _ _ (abs-nonneg s) pos) f.average)

    Fits-signed : (b : Bool) (x : ℚ) → Fits x → c.round (x *ℚ direction b) ≡ x *ℚ direction b
    Fits-signed true x h = rw *ℚ-one h
    Fits-signed false x h = rw (*ℚ-neg x, *ℚ-one) (Fits-neg x h)

    -- Where the context holds the numbers on the way, a fill of a positive quantity succeeds, and
    -- the row that it computes stands for the exact fill of the holding that the row stood for.
    pub fold_fill-refines :
        (p : Position) (side : FillSide) (qty price fee : ℚ) (now : Time)
        → of_ℕ 0 <ℚ qty
        → FillFits p side qty price fee
        → fold_fill p side qty price fee now
          ≡ ok (position_at p (exact_fill (holding_of p) side qty price) (p.fees_paid +ℚ fee) now)
    unfolding fold_fill exact_fill
    fold_fill-refines p side qty price fee now pos f =
        let s : ℚ = exact_signed p in
        let d : ℚ = exact_delta side qty in
        let fs : Fits s = Fits-exact_signed p f.held in
        let fd : Fits d = Fits-exact_delta side qty f.filled in
        rw (signed_qty-exact p f.held, signed_delta-exact side qty f.filled)
          (rw (f.left, f.charged)
            (elim (Bool-cases (is_adding s d)) [
              | inl add ↦ rw add (
                  rw (average_entry-exact s p.entry_price qty price fs pos (f.adding add))
                    (rw (Fits-abs (s +ℚ d) f.left)))
              | inr red ↦
                  rw red
                    let g : ReduceFits s p.entry_price p.realized_pnl qty price = f.reducing red in
                      (simp (
                        Fits-abs s fs,
                        Fits-abs d fd,
                        Fits-abs (s +ℚ d) f.left,
                        g.move,
                        g.closed,
                        Fits-signed (lt? (of_ℕ 0) s)
                            ((price -ℚ p.entry_price) *ℚ minimum qty (abs s)) g.closed,
                        g.total,
                      ))
            ]))

-- A row whose side is the sign of its size, and whose quantity is not negative.
pub record IsValid (p : Position) : Type 0 where
  pub qty_nonneg : of_ℕ 0 ≤ℚ p.qty
  pub side_lem : p.side ≡ side_of (exact_signed p)

pub signed_of :
    (n : ℚ) → elim (side_of n) [ long ↦ abs n | short ↦ neg (abs n) | flat ↦ of_ℕ 0 ] ≡ n
signed_of n = elim (sign_cases n) [
  | inl h ↦ rw h (abs-of_nonneg n (≤ℚ_of_lt _ _ h))
  | inr (inl h) ↦ rw h (rw (≤ℚ_refl (of_ℕ 0)))
  | inr (inr h) ↦ rw (≤ℚ_of_lt _ _ h) (rw h (rw (abs-of_neg n h) (neg-neg n)))
]

-- The row for a holding reads as that holding, and is valid.
pub holding_of-position_at :
    (p : Position) (h : Holding) (fees : ℚ) (now : Time)
    → (holding_of (position_at p h fees now) ≡ h) × IsValid (position_at p h fees now)
holding_of-position_at p h fees now = (
  λ i. record { size = signed_of h.size i; entry = h.entry; realized = h.realized },
  record { qty_nonneg = abs-nonneg h.size; side_lem = ap side_of (sym (signed_of h.size)) },
)
