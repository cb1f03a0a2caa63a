-- ===== src/Strategies/Indicators.antt =====
-- engine/strategies/indicators.py. The square root of a variance is a method of `Decimal`, which a
-- caller passes as `root`; periods are not negative.
pub mod Bounds
use capital.Prelude.{
  ℕ, zero, suc, ◌+◌, ◌-◌, Bool, true, false, ◌||◌, Option, none, some, List, [], ◌∷◌, map, length,
  take, drop, take_last, last_or, ltb, leb, eqb, if◌then◌else◌,
}
use capital.Rational.{ℚ, of_ℕ}
use capital.Rational.Order.{lt?, eq?}
use capital.Context.{Context, minus, quotient, divide, sum, ◌⊕◌, ◌⊖◌, ◌⊗◌}
use capital.Effects.{Result, ok, err, value_error}
use capital.Effects.Fallible.{◌>>=◌}

-- `xs[-1]`, which raises on an empty list.
abbrev pub last : List ℚ → Result ℚ
last [] = err value_error
last (x ∷ xs) = ok (last_or x xs)

-- `zip(xs, ys, strict=True)` under a function of two values.
abbrev pub zip_strict : (ℚ → ℚ → ℚ) → List ℚ → List ℚ → Result (List ℚ)
zip_strict f [] [] = ok []
zip_strict f (x ∷ xs) (y ∷ ys) = do rest ← zip_strict f xs ys; ok (f x y ∷ rest)
zip_strict f _ _ = err value_error

module _ ⦃c : Context⦄ where
  -- The mean of some values by their stated number.
  abbrev pub mean_of : List ℚ → ℕ → ℚ
  mean_of xs n = quotient (sum xs) (of_ℕ n)

  unfoldable pub sma : List ℚ → ℕ → Result ℚ
  sma values period =
      if eqb period 0 || ltb (length values) period
      then err value_error
      else ok (mean_of (take_last period values) period)

  -- The values after the seed, given the last of them.
  abbrev pub smooth : ℚ → ℚ → List ℚ → List ℚ
  smooth k prev [] = []
  smooth k prev (v ∷ vs) = let next = v ⊗ k ⊕ prev ⊗ (of_ℕ 1 ⊖ k) in next ∷ smooth k next vs

  unfoldable pub ema_series : List ℚ → ℕ → Result (List ℚ)
  ema_series values period =
      if eqb period 0 || ltb (length values) period
      then err value_error
      else (let seed = mean_of (take period values) period in
          ok (seed ∷ smooth (quotient (of_ℕ 2) (of_ℕ (period + 1))) seed (drop period values)))

  unfoldable pub ema : List ℚ → ℕ → Result ℚ
  unfolding ema_series
  ema values period = do series ← ema_series values period; last series

  -- The moves from each value to the next, split in their rises and their falls.
  abbrev pub gain_of : ℚ → ℚ → ℚ
  gain_of prev cur = if lt? (of_ℕ 0) (cur ⊖ prev) then cur ⊖ prev else of_ℕ 0

  abbrev pub loss_of : ℚ → ℚ → ℚ
  loss_of prev cur = if lt? (cur ⊖ prev) (of_ℕ 0) then minus (cur ⊖ prev) else of_ℕ 0

  abbrev pub moves_from : (ℚ → ℚ → ℚ) → ℚ → List ℚ → List ℚ
  moves_from f prev [] = []
  moves_from f prev (cur ∷ rest) = f prev cur ∷ moves_from f cur rest

  abbrev pub moves : (ℚ → ℚ → ℚ) → List ℚ → List ℚ
  moves f [] = []
  moves f (v ∷ vs) = moves_from f v vs

  -- Wilder's smoothing of one of the two series.
  abbrev pub wilder_from : ℕ → ℚ → List ℚ → ℚ
  wilder_from period avg [] = avg
  wilder_from period avg (x ∷ xs) =
      wilder_from period (quotient (avg ⊗ of_ℕ (period - 1) ⊕ x) (of_ℕ period)) xs

  abbrev pub wilder : ℕ → List ℚ → ℚ
  wilder period xs = wilder_from period (mean_of (take period xs) period) (drop period xs)

  -- The index of the two averages.
  abbrev pub index_of : ℚ → ℚ → ℚ
  index_of avg_gain avg_loss =
      if eq? avg_loss (of_ℕ 0)
      then of_ℕ 100
      else of_ℕ 100 ⊖ quotient (of_ℕ 100) (of_ℕ 1 ⊕ quotient avg_gain avg_loss)

  unfoldable pub rsi : List ℚ → ℕ → Result ℚ
  rsi values period =
      if eqb period 0 || ltb (length values) (period + 1)
      then err value_error
      else ok
          (index_of (wilder period (moves gain_of values)) (wilder period (moves loss_of values)))

  unfoldable pub macd : List ℚ → ℕ → ℕ → ℕ → Result (ℚ × ℚ × ℚ)
  unfolding ema_series
  macd values fast slow signal = if leb slow fast then err value_error else (do
    fast_s ← ema_series values fast
    slow_s ← ema_series values slow
    line ← zip_strict ◌⊖◌ (drop (length fast_s - length slow_s) fast_s) slow_s
    signal_line ← ema_series line signal
    macd_val ← last line
    signal_val ← last signal_line
    ok (macd_val, signal_val, macd_val ⊖ signal_val))

  -- The population variance about a mean.
  abbrev pub variance_of : List ℚ → ℚ → ℕ → ℚ
  variance_of xs mid n = mean_of (map (λ v. (v ⊖ mid) ⊗ (v ⊖ mid)) xs) n

  unfoldable pub bollinger : (ℚ → ℚ) → List ℚ → ℕ → ℚ → Result (ℚ × ℚ × ℚ)
  bollinger root values period num_std =
      if eqb period 0 || ltb (length values) period
      then err value_error
      else (let window = take_last period values in
          let mid = mean_of window period in
          let std = root (variance_of window mid period) in
          ok (mid ⊖ num_std ⊗ std, mid, mid ⊕ num_std ⊗ std))
