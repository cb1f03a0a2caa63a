-- ===== src/Tests/Fills.antt =====
-- Fills at concrete inputs: a long position of 2 at 100, and the empty database.
use capital.Prelude.{◌≡◌, refl, none, some, []}
use capital.Rational.{of_ℕ, ◌+ℚ◌}
use capital.Context.{unlimited, unlimited-IsRounding}
use capital.Context.Percent.{of_ℕ-pos}
use capital.Models.{Position, Database, buy, sell}
use capital.Effects.{ok}
use capital.Portfolio.Positions.{find_position}
use capital.Portfolio.Fills.{fold_fill, apply_fill, record_fill}
use capital.Portfolio.Fills.Exact.{value, gain, exact_delta}
use capital.Portfolio.Fills.Refinement.{FillFits, IsValid, holding_of}
use capital.Portfolio.Fills.Worth.{fold_fill-value}
use capital.Portfolio.Fills.Frame.{
  apply_fill-frame, apply_fill-refines, SameElsewhere, SameOthers, filled,
}
use capital.Portfolio.Fills.Log.{Logged, record_fill-Logged}
use capital.Tests.Data.{long_two, one_position, empty_db, order_for}

-- Selling 3 at 120 flips the position short.
fits : FillFits ⦃c = unlimited⦄ long_two sell (of_ℕ 3) (of_ℕ 120) (of_ℕ 1)
fits = record {
  held = refl;
  filled = refl;
  left = refl;
  charged = refl;
  adding = λ h. record { weighted = refl; paid = refl; total = refl; grown = refl; average = refl };
  reducing = λ h. record { move = refl; closed = refl; total = refl };
}

fold_fill-value_example :
    (q : Position) × ((fold_fill ⦃c = unlimited⦄ long_two sell (of_ℕ 3) (of_ℕ 120) (of_ℕ 1) 7
        ≡ ok q)
      × (IsValid q
          × (value (holding_of q) (of_ℕ 90)
              ≡ value (holding_of long_two) (of_ℕ 90)
                +ℚ gain (exact_delta sell (of_ℕ 3)) (of_ℕ 120) (of_ℕ 90))))
fold_fill-value_example =
    fold_fill-value ⦃c = unlimited⦄ unlimited-IsRounding long_two sell (of_ℕ 3) (of_ℕ 120) (of_ℕ 1)
      (of_ℕ 90) 7 (of_ℕ-pos 3 refl) fits

apply_fill-refines_example :
    let out =
      apply_fill ⦃c = unlimited⦄ "s" "spot" "BTC" sell
        (of_ℕ 3)
        (of_ℕ 120)
        (of_ℕ 1)
        7
        one_position in
    (out.0 ≡ ok (filled "s" "spot" "BTC" sell (of_ℕ 3) (of_ℕ 120) (of_ℕ 1) 7 one_position))
    × (find_position "s" "spot" "BTC" out.1
        ≡ some (filled "s" "spot" "BTC" sell (of_ℕ 3) (of_ℕ 120) (of_ℕ 1) 7 one_position))
apply_fill-refines_example =
    apply_fill-refines ⦃c = unlimited⦄ unlimited-IsRounding "s" "spot" "BTC" sell (of_ℕ 3)
      (of_ℕ 120) (of_ℕ 1) 7 one_position (of_ℕ-pos 3 refl) fits refl

apply_fill-frame_example :
    let after =
      (apply_fill ⦃c = unlimited⦄ "s" "spot" "BTC" buy
        (of_ℕ 1)
        (of_ℕ 90)
        (of_ℕ 0)
        7
        one_position).1 in
    SameElsewhere "s" "spot" "BTC" after one_position × SameOthers after one_position
apply_fill-frame_example =
    apply_fill-frame ⦃c = unlimited⦄ "s" "spot" "BTC" buy (of_ℕ 1) (of_ℕ 90) (of_ℕ 0) 7 one_position

record_fill-Logged_example : Logged ⦃c = unlimited⦄ [] (
    record_fill ⦃c = unlimited⦄ "sim"
      (order_for buy 1)
      (of_ℕ 1)
      (of_ℕ 90)
      (of_ℕ 0)
      none
      7
      one_position)
record_fill-Logged_example =
    record_fill-Logged ⦃c = unlimited⦄ "sim" (order_for buy 1) (of_ℕ 1) (of_ℕ 90) (of_ℕ 0) none 7
      one_position

-- A purchase, and then a sale that flips the position short.
abbrev bought : Database
bought = (apply_fill ⦃c = unlimited⦄ "s" "spot" "BTC" buy (of_ℕ 1) (of_ℕ 90) (of_ℕ 0) 7 empty_db).1

abbrev flipped : Database
flipped = (apply_fill ⦃c = unlimited⦄ "s" "spot" "BTC" sell (of_ℕ 3) (of_ℕ 95) (of_ℕ 0) 8 bought).1
