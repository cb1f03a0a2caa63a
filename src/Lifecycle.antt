-- ===== src/Lifecycle.antt =====
-- engine/trading/lifecycle.py: enabling, disabling and deleting a strategy.
pub mod Safety
use capital.Prelude.{
  String, ◌==◌, Bool, true, false, not, Option, none, some, List, [], ◌∷◌, select, if◌then◌else◌,
}
use capital.Models.{StrategyAllocation, Position, Database}
use capital.Effects.{Result, ok, err, lifecycle_error}
use capital.Effects.Stateful.{Action}
use capital.Portfolio.Positions.{list_positions}
use capital.Portfolio.Allocation.{
  find_allocation, allocation_or_new, upsert_allocation, replace_allocation, is_row_of,
}

abbrev pub enabled_or_default : Option StrategyAllocation → Bool
enabled_or_default (some a) = a.enabled
enabled_or_default none = true

unfoldable pub is_enabled : String → Database → Bool
is_enabled strategy db = enabled_or_default (find_allocation strategy db)

unfoldable pub set_enabled : String → Bool → Action Database StrategyAllocation
unfolding replace_allocation
set_enabled strategy enabled db =
    let row = find_allocation strategy db in
    let new : StrategyAllocation = record (allocation_or_new strategy row) { enabled = enabled } in
    (ok new, upsert_allocation row new db)

-- `session.delete(row)` of the one row that the query found.
unfoldable pub delete_row : String → List StrategyAllocation → List StrategyAllocation
delete_row strategy [] = []
delete_row strategy (a ∷ as') = if is_row_of strategy a then as' else a ∷ delete_row strategy as'

abbrev pub is_of : String → Position → Bool
is_of strategy p = p.strategy == strategy

abbrev pub without : String → Database → Database
without strategy db = record db {
  positions = select (λ p. not (is_of strategy p)) db.positions;
  allocations = delete_row strategy db.allocations;
}

abbrev pub delete_when : List Position → String → Action Database (Unit {0})
delete_when [] strategy db = (ok tt, without strategy db)
delete_when (p ∷ ps) strategy db = (err lifecycle_error, db)

unfoldable pub delete_strategy : String → Action Database (Unit {0})
unfolding list_positions delete_row
delete_strategy strategy db = delete_when (list_positions (some strategy) true db) strategy db
