-- ===== src/Accounting/Costs.antt =====
-- engine/trading/accounting.py: what `cost_summary` reports, as sums over the trade log.
use capital.Prelude.{
  String, ◌==◌, eq_iff, ◌≡◌, refl, sym, ap, ◌∙◌, false, Bool-cases, inl, inr, List, [], ◌∷◌, map,
  select, lookup, or_else, arith, if◌then◌else◌,
}
use capital.Rational.{ℚ, of_ℕ, ◌+ℚ◌}
use capital.Rational.Ring.{+ℚ_assoc, +ℚ_comm, zero-+ℚ}
use capital.Context.{Context, Fits, sum, sum_from, ◌⊕◌, ◌⊗◌}
use capital.Models.{Trade, Database}
use capital.Accounting.{cost_summary, add_fee, costs_from}

-- What a dictionary of fees holds for a market.
abbrev pub fee_at : String → List (String × ℚ) → ℚ
fee_at market fees = or_else (of_ℕ 0) (lookup market fees)

abbrev pub trades_in : String → List Trade → List Trade
trades_in market ts = select (λ t. t.market == market) ts

abbrev pub trade_fees : List Trade → List ℚ
trade_fees ts = map (λ t. t.fee) ts

module _ ⦃c : Context⦄ where
  abbrev pub trade_volumes : List Trade → List ℚ
  trade_volumes ts = map (λ t. t.quantity ⊗ t.price) ts

  fee_at-add_fee :
      (k m : String) (f : ℚ) (d : List (String × ℚ))
      → fee_at k (add_fee m f d) ≡ (if m == k then fee_at k d ⊕ f else fee_at k d)
  fee_at-add_fee k m f [] = elim (Bool-cases (m == k)) [ inl e ↦ rw e refl | inr e ↦ rw e refl ]
  fee_at-add_fee k m f ((n, g) ∷ d) = elim (Bool-cases (n == m)) [
    | inl e ↦
        let same : n ≡ m = (eq_iff n m).0 e in
        rw (e, sym same) (elim (Bool-cases (n == k)) [ inl h ↦ rw h refl | inr h ↦ rw h refl ])
    | inr e ↦ elim (Bool-cases (n == k)) [
      | inl h ↦
          let other : (m == k) ≡ false = ground (arith, eq_iff n m, eq_iff n k, eq_iff m k) in
          rw (e, h, other) refl
      | inr h ↦ rw (e, h) (fee_at-add_fee k m f d)
    ]
  ]

  costs_from-lem :
      (k : String) (fees : List (String × ℚ)) (all volume : ℚ) (ts : List Trade)
      → let out = costs_from (fees, all, volume) ts in
        (fee_at k out.0 ≡ sum_from (fee_at k fees) (trade_fees (trades_in k ts)))
        × (out.1 ≡ sum_from all (trade_fees ts))
        × (out.2 ≡ sum_from volume (trade_volumes ts))
  costs_from-lem k fees all volume [] = (refl, refl, refl)
  costs_from-lem k fees all volume (t ∷ ts) =
      let ih =
        costs_from-lem k (add_fee t.market t.fee fees) (all ⊕ t.fee) (volume ⊕ t.quantity ⊗ t.price)
          ts in
      let step = fee_at-add_fee k t.market t.fee fees in
      (
        ih.0 ∙ elim (Bool-cases (t.market == k)) [
          | inl e ↦ rw e (ap (λ x. sum_from x (trade_fees (trades_in k ts))) (rw e at step))
          | inr e ↦ rw e (ap (λ x. sum_from x (trade_fees (trades_in k ts))) (rw e at step))
        ],
        ih.1,
        ih.2,
      )

  -- The fees that the summary holds for a market are the sum of the fees of its trades, and its
  -- total of the fees and its volume are the sums over all trades, each in the order of the log.
  pub cost_summary-sums :
      (db : Database) (market : String)
      → let s = cost_summary db in
        (fee_at market s.fees_by_market ≡ sum (trade_fees (trades_in market db.trades)))
        × (s.total_fees ≡ sum (trade_fees db.trades))
        × (s.traded_volume ≡ sum (trade_volumes db.trades))
  unfolding cost_summary
  cost_summary-sums db market = costs_from-lem market [] (of_ℕ 0) (of_ℕ 0) db.trades

  module _ (fit : (a : ℚ) → Fits a) where
    ⊕-assoc : (a b d : ℚ) → a ⊕ (b ⊕ d) ≡ a ⊕ b ⊕ d
    ⊕-assoc a b d =
        ap (λ t. a ⊕ t) (fit (b +ℚ d))
        ∙ (ap c.round (sym (+ℚ_assoc a b d)) ∙ ap (λ t. t ⊕ d) (sym (fit (a +ℚ b))))

    ⊕-comm : (a b : ℚ) → a ⊕ b ≡ b ⊕ a
    ⊕-comm a b = ap c.round (+ℚ_comm a b)

    sum_from-shift : (a f : ℚ) (xs : List ℚ) → sum_from (a ⊕ f) xs ≡ sum_from a xs ⊕ f
    sum_from-shift a f [] = refl
    sum_from-shift a f (x ∷ xs) =
        ap (λ t. sum_from t xs)
          (sym (⊕-assoc a f x) ∙ (ap (λ t. a ⊕ t) (⊕-comm f x) ∙ ⊕-assoc a x f))
        ∙ sum_from-shift (a ⊕ x) f xs

    sum_from-add_fee :
        (a : ℚ) (m : String) (f : ℚ) (d : List (String × ℚ))
        → sum_from a (map (λ e. e.1) (add_fee m f d)) ≡ sum_from a (map (λ e. e.1) d) ⊕ f
    sum_from-add_fee a m f [] = ap (λ t. a ⊕ t) (fit _ ∙ zero-+ℚ f)
    sum_from-add_fee a m f ((n, g) ∷ d) = elim (Bool-cases (n == m)) [
      | inl e ↦ rw e (
          ap (λ t. sum_from t (map (λ e. e.1) d)) (⊕-assoc a g f)
          ∙ sum_from-shift (a ⊕ g) f (map (λ e. e.1) d))
      | inr e ↦ rw e (sum_from-add_fee (a ⊕ g) m f d)
    ]

    costs_from-balances :
        (fees : List (String × ℚ)) (all volume : ℚ) (ts : List Trade)
        → sum (map (λ e. e.1) fees) ≡ all
        → let out = costs_from (fees, all, volume) ts in sum (map (λ e. e.1) out.0) ≡ out.1
    costs_from-balances fees all volume [] h = h
    costs_from-balances fees all volume (t ∷ ts) h =
        costs_from-balances (add_fee t.market t.fee fees) (all ⊕ t.fee)
          (volume ⊕ t.quantity ⊗ t.price) ts
          (sum_from-add_fee (of_ℕ 0) t.market t.fee fees ∙ ap (λ x. x ⊕ t.fee) h)

    -- On a context that holds every number as it is, the fees by market add up to the total.
    pub cost_summary-balances :
        (db : Database)
        → let s = cost_summary db in sum (map (λ e. e.1) s.fees_by_market) ≡ s.total_fees
    unfolding cost_summary
    cost_summary-balances db = costs_from-balances [] (of_ℕ 0) (of_ℕ 0) db.trades refl
