-- ===== src/Strategies/Indicators/Bounds.antt =====
-- engine/strategies/indicators.py: the length of a moving average and the range of the RSI.
use capital.Prelude.{
  ℕ, zero, suc, ◌+◌, ◌-◌, ◌≡◌, ◌≤◌, ◌<◌, refl, subst, ap, ◌∙◌, false, ◌||◌, Bool-cases, inl, inr,
  List, [], ◌∷◌, length, take, drop, All, arith, eqb, ltb, length-drop,
}
use capital.Rational.{ℚ, of_ℕ, le?, ◌+ℚ◌, ◌*ℚ◌, ◌/ℚ◌}
use capital.Rational.Order.{
  ◌≤ℚ◌, ◌<ℚ◌, eq?, ≤ℚ_refl, ≤ℚ_of_lt, +ℚ-nonneg, *ℚ-nonneg, /ℚ-nonneg, +ℚ_mono_both, sub-nonneg,
  lt_of_lt_of_le, /ℚ_mono, *ℚ_mono, *ℚ-/ℚ,
}
use capital.Rational.Abs.{neg-nonneg}
use capital.Rational.Ring.{+ℚ-zero, *ℚ_comm, one-*ℚ}
use capital.Context.{Context, IsRounding, Fits, quotient, sum_from, ◌⊕◌, ◌⊖◌, ◌⊗◌}
use capital.Context.Rounding.{round-nonneg}
use capital.Context.Percent.{IsPercent, hundred-nonneg, of_ℕ-pos, of_ℕ_mono, sub-le}
use capital.Effects.{ok}
use capital.Strategies.Indicators.{
  ema_series, smooth, rsi, wilder, wilder_from, moves, moves_from, gain_of, loss_of, index_of,
  mean_of,
}

pos_of : (a : ℚ) → of_ℕ 0 ≤ℚ a → eq? a (of_ℕ 0) ≡ false → of_ℕ 0 <ℚ a
pos_of a nonneg other = ground arith

/ℚ-le : (b : ℚ) → of_ℕ 1 ≤ℚ b → of_ℕ 0 <ℚ b → of_ℕ 100 /ℚ b ≤ℚ of_ℕ 100
/ℚ-le b wide pos =
    subst (λ t. of_ℕ 100 /ℚ b ≤ℚ t) (*ℚ-/ℚ (of_ℕ 100) b pos)
      (/ℚ_mono _ _ _ pos (
        subst (λ t. t ≤ℚ of_ℕ 100 *ℚ b) (one-*ℚ (of_ℕ 100))
          (subst (λ t. of_ℕ 1 *ℚ of_ℕ 100 ≤ℚ t) (*ℚ_comm b (of_ℕ 100))
            (*ℚ_mono _ _ _ hundred-nonneg wide))))

module _ ⦃c : Context⦄ where
  length-smooth : (k prev : ℚ) (vs : List ℚ) → length (smooth k prev vs) ≡ length vs
  length-smooth k prev [] = refl
  length-smooth k prev (v ∷ vs) = ap suc (length-smooth k (v ⊗ k ⊕ prev ⊗ (of_ℕ 1 ⊖ k)) vs)

  -- The moving average of at least `period` values is defined and has one value for each input from
  -- the index `period - 1` on.
  pub length-ema_series :
      (values : List ℚ) (period : ℕ)
      → 0 < period
      → period ≤ length values
      → (series : List ℚ) × ((ema_series values period ≡ ok series)
          × (length series ≡ length values - period + 1))
  unfolding ema_series
  length-ema_series values period pos enough =
      let seed : ℚ = mean_of (take period values) period in
      let k : ℚ = quotient (of_ℕ 2) (of_ℕ (period + 1)) in
      let defined : (eqb period 0 || ltb (length values) period) ≡ false = ground arith in
      (
        seed ∷ smooth k seed (drop period values),
        (
          rw defined refl,
          ap suc (length-smooth k seed (drop period values) ∙ length-drop period values)
              ∙ omega arith,
        ),
      )

  abbrev pub IsNonneg : ℚ → Type 0
  IsNonneg a = of_ℕ 0 ≤ℚ a

  module _ (r : IsRounding c.round) where
    sum_from-IsNonneg :
        (acc : ℚ) (xs : List ℚ) → IsNonneg acc → All IsNonneg xs → IsNonneg (sum_from acc xs)
    sum_from-IsNonneg acc [] h hs = h
    sum_from-IsNonneg acc (x ∷ xs) h hs =
        sum_from-IsNonneg (acc ⊕ x) xs (round-nonneg r _ (+ℚ-nonneg acc x h hs.0)) hs.1

    take-IsNonneg : (n : ℕ) (xs : List ℚ) → All IsNonneg xs → All IsNonneg (take n xs)
    take-IsNonneg zero xs h = tt
    take-IsNonneg (suc n) [] h = tt
    take-IsNonneg (suc n) (x ∷ xs) h = (h.0, take-IsNonneg n xs h.1)

    drop-IsNonneg : (n : ℕ) (xs : List ℚ) → All IsNonneg xs → All IsNonneg (drop n xs)
    drop-IsNonneg zero xs h = h
    drop-IsNonneg (suc n) [] h = tt
    drop-IsNonneg (suc n) (x ∷ xs) h = drop-IsNonneg n xs h.1

    module _ (period : ℕ) (pos : of_ℕ 0 <ℚ of_ℕ period) where
      wilder_from-IsNonneg :
          (xs : List ℚ) (avg : ℚ)
          → IsNonneg avg
          → All IsNonneg xs
          → IsNonneg (wilder_from period avg xs)
      wilder_from-IsNonneg [] avg h hs = h
      wilder_from-IsNonneg (x ∷ xs) avg h hs =
          wilder_from-IsNonneg xs _
            (round-nonneg r _ (
              /ℚ-nonneg _ _
                (round-nonneg r _ (
                  +ℚ-nonneg _ _
                    (round-nonneg r _ (*ℚ-nonneg _ _ h (of_ℕ_mono 0 (period - 1) (omega arith))))
                    hs.0))
                pos))
            hs.1

      wilder-IsNonneg : (xs : List ℚ) → All IsNonneg xs → IsNonneg (wilder period xs)
      wilder-IsNonneg xs h =
          wilder_from-IsNonneg (drop period xs) _
            (round-nonneg r _ (
              /ℚ-nonneg _ _
                (sum_from-IsNonneg (of_ℕ 0) (take period xs) (≤ℚ_refl _)
                  (take-IsNonneg period xs h))
                pos))
            (drop-IsNonneg period xs h)

    gain_of-IsNonneg : (prev cur : ℚ) → IsNonneg (gain_of prev cur)
    gain_of-IsNonneg prev cur = elim (Bool-cases (le? (cur ⊖ prev) (of_ℕ 0))) [
      | inl e ↦ rw e (≤ℚ_refl _)
      | inr e ↦ rw e (≤ℚ_of_lt _ _ e)
    ]

    loss_of-IsNonneg : (prev cur : ℚ) → IsNonneg (loss_of prev cur)
    loss_of-IsNonneg prev cur = elim (Bool-cases (le? (of_ℕ 0) (cur ⊖ prev))) [
      | inl e ↦ rw e (≤ℚ_refl _)
      | inr e ↦ rw e (round-nonneg r _ (neg-nonneg _ (≤ℚ_of_lt _ _ e)))
    ]

    moves_from-IsNonneg :
        (f : ℚ → ℚ → ℚ)
        → ((prev cur : ℚ) → IsNonneg (f prev cur))
        → (prev : ℚ) (vs : List ℚ) → All IsNonneg (moves_from f prev vs)
    moves_from-IsNonneg f h prev [] = tt
    moves_from-IsNonneg f h prev (cur ∷ rest) = (h prev cur, moves_from-IsNonneg f h cur rest)

    moves-IsNonneg :
        (f : ℚ → ℚ → ℚ)
        → ((prev cur : ℚ) → IsNonneg (f prev cur))
        → (vs : List ℚ) → All IsNonneg (moves f vs)
    moves-IsNonneg f h [] = tt
    moves-IsNonneg f h (v ∷ vs) = moves_from-IsNonneg f h v vs

    module _ (one : Fits (of_ℕ 1)) (top : Fits (of_ℕ 100)) where
      within : (rs : ℚ) → IsNonneg rs → IsPercent (of_ℕ 100 ⊖ quotient (of_ℕ 100) (of_ℕ 1 ⊕ rs))
      within rs h =
          let d : ℚ = of_ℕ 1 ⊕ rs in
          let wide : of_ℕ 1 ≤ℚ d =
            subst (λ t. t ≤ℚ d) one
              (r.mono _ _ (
                subst (λ t. t ≤ℚ of_ℕ 1 +ℚ rs) (+ℚ-zero (of_ℕ 1))
                  (+ℚ_mono_both _ _ _ _ (≤ℚ_refl (of_ℕ 1)) h))) in
          let pos : of_ℕ 0 <ℚ d = lt_of_lt_of_le _ _ _ (of_ℕ-pos 1 refl) wide in
          let part : of_ℕ 0 ≤ℚ quotient (of_ℕ 100) d =
            round-nonneg r _ (/ℚ-nonneg _ _ hundred-nonneg pos) in
          let below : quotient (of_ℕ 100) d ≤ℚ of_ℕ 100 =
            subst (λ t. quotient (of_ℕ 100) d ≤ℚ t) top (r.mono _ _ (/ℚ-le d wide pos)) in
          (
            round-nonneg r _ (sub-nonneg _ _ below),
            subst (λ t. of_ℕ 100 ⊖ quotient (of_ℕ 100) d ≤ℚ t) top (r.mono _ _ (sub-le _ _ part)),
          )

      index_of-IsPercent :
          (gain loss : ℚ) → IsNonneg gain → IsNonneg loss → IsPercent (index_of gain loss)
      index_of-IsPercent gain loss g l = elim (Bool-cases (eq? loss (of_ℕ 0))) [
        | inl e ↦ rw e (hundred-nonneg, ≤ℚ_refl _)
        | inr e ↦ rw e (
            within (quotient gain loss)
              (round-nonneg r _ (/ℚ-nonneg gain loss g (pos_of loss l e))))
      ]

      -- The RSI of at least `period + 1` values is defined, and it is between 0 and 100, for every
      -- rounding of the decimal context that holds 1 and 100 as they are.
      pub rsi_bound :
          (values : List ℚ) (period : ℕ)
          → 0 < period
          → period < length values
          → (value : ℚ) × ((rsi values period ≡ ok value) × IsPercent value)
      unfolding rsi
      rsi_bound values period pos enough =
          let defined : (eqb period 0 || ltb (length values) (period + 1)) ≡ false = ground arith in
          let positive : of_ℕ 0 <ℚ of_ℕ period = of_ℕ-pos period (ground arith) in
          let gain : ℚ = wilder period (moves gain_of values) in
          let loss : ℚ = wilder period (moves loss_of values) in
          (
            index_of gain loss,
            (
              rw defined refl,
              index_of-IsPercent gain loss
                  (wilder-IsNonneg period positive _
                    (moves-IsNonneg gain_of gain_of-IsNonneg values))
                  (wilder-IsNonneg period positive _
                    (moves-IsNonneg loss_of loss_of-IsNonneg values)),
            ),
          )
