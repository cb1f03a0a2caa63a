-- ===== src/Portfolio/Fills/Exact/Value.antt =====
-- The value of a holding, marked at any price, across a fill.
use capital.Prelude.{◌≡◌, inl, inr, true, if◌then◌else◌, Bool-cases}
use capital.Rational.{ℚ, of_ℕ, le?, ◌+ℚ◌, ◌-ℚ◌, ◌*ℚ◌, neg, ◌/ℚ◌}
use capital.Rational.Ring.{ring, neg-neg, neg-zero}
use capital.Rational.Order.{eq?, ◌≤ℚ◌, ◌<ℚ◌, /ℚ-*ℚ, ≤ℚ_of_lt, ≤ℚ_antisymm, ≤ℚ_refl}
use capital.Rational.Abs.{sign_cases, neg-nonpos, neg-neg_of_pos, neg-pos_of_neg, +ℚ-pos_of_nonneg}
use capital.Models.{FillSide, buy, sell}
use capital.Portfolio.Fills.Exact.{Holding, exact_delta, exact_fill, value, gain}

module _ (s e r q p m : ℚ) where
  add_long_lem :
      of_ℕ 0 <ℚ s +ℚ q
      → r +ℚ (m -ℚ (s *ℚ e +ℚ q *ℚ p) /ℚ (s +ℚ q)) *ℚ (s +ℚ q) ≡ r +ℚ (m -ℚ e) *ℚ s +ℚ q *ℚ (m -ℚ p)
  add_long_lem h =
      let a : ℚ = (s *ℚ e +ℚ q *ℚ p) /ℚ (s +ℚ q) in
      let f : (m -ℚ a) *ℚ (s +ℚ q) ≡ m *ℚ (s +ℚ q) -ℚ a *ℚ (s +ℚ q) = simp ring in
      rw f (rw (/ℚ-*ℚ (s *ℚ e +ℚ q *ℚ p) (s +ℚ q) h) (simp ring))

  add_short_lem :
      of_ℕ 0 <ℚ neg s +ℚ q
      → r +ℚ (m -ℚ (neg s *ℚ e +ℚ q *ℚ p) /ℚ (neg s +ℚ q)) *ℚ (s +ℚ neg q)
        ≡ r +ℚ (m -ℚ e) *ℚ s +ℚ neg q *ℚ (m -ℚ p)
  add_short_lem h =
      let a : ℚ = (neg s *ℚ e +ℚ q *ℚ p) /ℚ (neg s +ℚ q) in
      let f : (m -ℚ a) *ℚ (s +ℚ neg q) ≡ a *ℚ (neg s +ℚ q) -ℚ m *ℚ (neg s +ℚ q) = simp ring in
      rw f (rw (/ℚ-*ℚ (neg s *ℚ e +ℚ q *ℚ p) (neg s +ℚ q) h) (simp ring))

  reduce_long_lem :
      r +ℚ (p -ℚ e) *ℚ q *ℚ of_ℕ 1 +ℚ (m -ℚ e) *ℚ (s +ℚ neg q)
      ≡ r +ℚ (m -ℚ e) *ℚ s +ℚ neg q *ℚ (m -ℚ p)
  reduce_long_lem = simp ring

  reduce_short_lem :
      r +ℚ (p -ℚ e) *ℚ q *ℚ neg (of_ℕ 1) +ℚ (m -ℚ e) *ℚ (s +ℚ q)
      ≡ r +ℚ (m -ℚ e) *ℚ s +ℚ q *ℚ (m -ℚ p)
  reduce_short_lem = simp ring

  flip_long_lem :
      r +ℚ (p -ℚ e) *ℚ s *ℚ of_ℕ 1 +ℚ (m -ℚ p) *ℚ (s +ℚ neg q)
      ≡ r +ℚ (m -ℚ e) *ℚ s +ℚ neg q *ℚ (m -ℚ p)
  flip_long_lem = simp ring

  flip_short_lem :
      r +ℚ (p -ℚ e) *ℚ neg s *ℚ neg (of_ℕ 1) +ℚ (m -ℚ p) *ℚ (s +ℚ q)
      ≡ r +ℚ (m -ℚ e) *ℚ s +ℚ q *ℚ (m -ℚ p)
  flip_short_lem = simp ring

-- The entry that is left does not matter when nothing is left open.
close_lem :
    (e m size : ℚ) → (m -ℚ (if eq? size (of_ℕ 0) then of_ℕ 0 else e)) *ℚ size ≡ (m -ℚ e) *ℚ size
close_lem e m size = elim (Bool-cases (le? size (of_ℕ 0))) [
  | inr f ↦ rw f
  | inl f ↦ elim (Bool-cases (le? (of_ℕ 0) size)) [
    | inr g ↦ rw (f, g)
    | inl g ↦ rw (≤ℚ_antisymm size (of_ℕ 0) f g) (simp ring)
  ]
]

module _ (h : Holding) (q p m : ℚ) (hq : of_ℕ 0 <ℚ q) where
  buy_long : of_ℕ 0 <ℚ h.size → value (exact_fill h buy q p) m ≡ value h m +ℚ gain q p m
  unfolding value exact_fill
  buy_long hs =
      let hs' : of_ℕ 0 ≤ℚ h.size = ≤ℚ_of_lt _ _ hs in
      simp (hs, hs', hq)
        (add_long_lem h.size h.entry h.realized q p m (+ℚ-pos_of_nonneg _ _ hs' hq))

  sell_long : of_ℕ 0 <ℚ h.size → value (exact_fill h sell q p) m ≡ value h m +ℚ gain (neg q) p m
  unfolding value exact_fill
  sell_long hs =
      let hs' : of_ℕ 0 ≤ℚ h.size = ≤ℚ_of_lt _ _ hs in
      let hn : neg q ≤ℚ of_ℕ 0 = neg-nonpos q (≤ℚ_of_lt _ _ hq) in
      let hn' : neg q <ℚ of_ℕ 0 = neg-neg_of_pos q hq in
      elim (Bool-cases (le? q h.size)) [
        | inl fits ↦
            simp (hs, hs', hn, hn', neg-neg, fits)
              (rw (close_lem h.entry m (h.size +ℚ neg q))
                (reduce_long_lem h.size h.entry h.realized q p m))
        | inr flips ↦
            simp (hs, hs', hn, hn', neg-neg, flips) (flip_long_lem h.size h.entry h.realized q p m)
      ]

  buy_flat : h.size ≡ of_ℕ 0 → value (exact_fill h buy q p) m ≡ value h m +ℚ gain q p m
  unfolding value exact_fill
  buy_flat hs =
      let hz : le? (of_ℕ 0) (of_ℕ 0) ≡ true = ≤ℚ_refl _ in
      simp (hs, hz)
        (add_long_lem (of_ℕ 0) h.entry h.realized q p m (+ℚ-pos_of_nonneg _ _ (≤ℚ_refl _) hq))

  sell_flat : h.size ≡ of_ℕ 0 → value (exact_fill h sell q p) m ≡ value h m +ℚ gain (neg q) p m
  unfolding value exact_fill
  sell_flat hs =
      let hz : le? (of_ℕ 0) (of_ℕ 0) ≡ true = ≤ℚ_refl _ in
      simp (hs, hz)
        (let l = add_short_lem (of_ℕ 0) h.entry h.realized q p m in
          rw neg-zero at (l (rw neg-zero (+ℚ-pos_of_nonneg _ _ (≤ℚ_refl _) hq))))

  sell_short : h.size <ℚ of_ℕ 0 → value (exact_fill h sell q p) m ≡ value h m +ℚ gain (neg q) p m
  unfolding value exact_fill
  sell_short hs =
      let hs' : h.size ≤ℚ of_ℕ 0 = ≤ℚ_of_lt _ _ hs in
      let hn : neg q ≤ℚ of_ℕ 0 = neg-nonpos q (≤ℚ_of_lt _ _ hq) in
      let hp : of_ℕ 0 ≤ℚ neg h.size = ≤ℚ_of_lt _ _ (neg-pos_of_neg _ hs) in
      simp (hs, hs', hn)
        (add_short_lem h.size h.entry h.realized q p m (+ℚ-pos_of_nonneg _ _ hp hq))

  buy_short : h.size <ℚ of_ℕ 0 → value (exact_fill h buy q p) m ≡ value h m +ℚ gain q p m
  unfolding value exact_fill
  buy_short hs =
      let hs' : h.size ≤ℚ of_ℕ 0 = ≤ℚ_of_lt _ _ hs in
      let hq' : of_ℕ 0 ≤ℚ q = ≤ℚ_of_lt _ _ hq in
      elim (Bool-cases (le? q (neg h.size))) [
        | inl fits ↦
            simp (hs, hs', hq, hq', fits)
              (rw (close_lem h.entry m (h.size +ℚ q))
                (reduce_short_lem h.size h.entry h.realized q p m))
        | inr flips ↦
            simp (hs, hs', hq, hq', flips) (flip_short_lem h.size h.entry h.realized q p m)
      ]

-- Whatever the holding was, a fill changes its marked value by what the fill itself earns between
-- its price and the mark: averaging, booking, closing and flipping create no money and lose none.
pub value-exact_fill :
    (h : Holding) (side : FillSide) (q p m : ℚ)
    → of_ℕ 0 <ℚ q
    → value (exact_fill h side q p) m ≡ value h m +ℚ gain (exact_delta side q) p m
value-exact_fill h buy q p m hq = elim (sign_cases h.size) [
  | inl hs ↦ buy_long h q p m hq hs
  | inr (inl hs) ↦ buy_flat h q p m hq hs
  | inr (inr hs) ↦ buy_short h q p m hq hs
]
value-exact_fill h sell q p m hq = elim (sign_cases h.size) [
  | inl hs ↦ sell_long h q p m hq hs
  | inr (inl hs) ↦ sell_flat h q p m hq hs
  | inr (inr hs) ↦ sell_short h q p m hq hs
]
