-- ===== src/Portfolio/Allocation.antt =====
-- engine/trading/portfolio.py: capital allocations and `enforce_allocation`.
pub mod Bounds
use capital.Prelude.{
  String, ◌==◌, Bool, true, Option, none, some, List, [], ◌∷◌, ◌++◌, find, if◌then◌else◌, ◌||◌,
}
use capital.Rational.{ℚ, of_ℕ, le?}
use capital.Context.{Context, ◌⊕◌, ◌⊖◌, quotient, maximum}
use capital.Models.{Position, Order, FillSide, buy, sell, StrategyAllocation, Database}
use capital.Effects.{ok}
use capital.Effects.Stateful.{Action}
use capital.Portfolio.Positions.{signed_qty}

abbrev pub is_row_of : String → StrategyAllocation → Bool
is_row_of strategy a = a.strategy == strategy

abbrev pub find_allocation : String → Database → Option StrategyAllocation
find_allocation strategy db = find (is_row_of strategy) db.allocations

abbrev pub allocated_or_zero : Option StrategyAllocation → ℚ
allocated_or_zero (some a) = a.allocated
allocated_or_zero none = of_ℕ 0

unfoldable pub get_allocation : String → Database → ℚ
get_allocation strategy db = allocated_or_zero (find_allocation strategy db)

-- Write an allocation row back in its place.
unfoldable pub replace_allocation :
    StrategyAllocation → List StrategyAllocation → List StrategyAllocation
replace_allocation b [] = []
replace_allocation b (a ∷ as') =
    if is_row_of b.strategy a then b ∷ as' else a ∷ replace_allocation b as'

-- Add the row when the query found none, or write it back.
abbrev pub upsert_allocation : Option StrategyAllocation → StrategyAllocation → Database → Database
upsert_allocation none b db = record db { allocations = db.allocations ++ b ∷ [] }
upsert_allocation (some a) b db = record db { allocations = replace_allocation b db.allocations }

-- `StrategyAllocation(strategy=strategy)`, with the columns' defaults.
abbrev pub allocation_or_new : String → Option StrategyAllocation → StrategyAllocation
allocation_or_new strategy (some a) = a
allocation_or_new strategy none = record { strategy = strategy; allocated = of_ℕ 0; enabled = true }

unfoldable pub list_allocations : Database → List StrategyAllocation
list_allocations db = db.allocations

module _ ⦃c : Context⦄ where
  unfoldable pub set_allocation : String → ℚ → Action Database StrategyAllocation
  unfolding replace_allocation
  set_allocation strategy amount db =
      let row = find_allocation strategy db in
      let new : StrategyAllocation = record (allocation_or_new strategy row) {
        allocated = c.column amount;
      } in
      (ok new, upsert_allocation row new db)

  -- Headroom on the order's side before the absolute cap is breached.
  abbrev pub headroom : FillSide → ℚ → ℚ → ℚ
  headroom buy cap_qty signed = cap_qty ⊖ signed
  headroom sell cap_qty signed = cap_qty ⊕ signed

  abbrev pub cap_quantity : ℚ → ℚ → ℚ
  cap_quantity allocation price = quotient (maximum allocation (of_ℕ 0)) price

  -- `order`, its copy with the quantity clipped to the room, or nothing.
  abbrev pub clip : Order → ℚ → Option Order
  clip order room =
      if le? room (of_ℕ 0)
      then none
      else (if le? order.quantity room then some order else some (record order { quantity = room }))

  unfoldable pub enforce_allocation : Position → ℚ → Order → ℚ → Option Order
  unfolding signed_qty
  enforce_allocation position allocation order price =
      if le? price (of_ℕ 0) || le? order.quantity (of_ℕ 0)
      then none
      else clip order (headroom order.side (cap_quantity allocation price) (signed_qty position))
