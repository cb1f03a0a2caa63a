-- ===== src/Portfolio/Fills/History.antt =====
-- engine/trading/portfolio.py: the rows that any history of fills leaves.
use capital.Prelude.{String, ◌≡◌, false, List, [], ◌∷◌, All}
use capital.Rational.{ℚ}
use capital.Context.{Context}
use capital.Models.{Position, FillSide, Database, Time}
use capital.Portfolio.Positions.{is_at}
use capital.Portfolio.Fills.{apply_fill}
use capital.Portfolio.Fills.Refinement.{IsValid}

-- No two rows have the same strategy, market and symbol.
abbrev pub Distinct : List Position → Type 0
Distinct [] = Unit
Distinct (p ∷ ps) = All (λ q. is_at p.strategy p.market p.symbol q ≡ false) ps × Distinct ps

-- Every row is valid, and no two stand at one place.
abbrev pub IsLedger : Database → Type 0
IsLedger db = All IsValid db.positions × Distinct db.positions

-- The databases that fills lead to, from any database without positions.
pub data Reachable ⦃c : Context⦄ : Database → Type 0 where
  fresh : (db : Database) → db.positions ≡ [] → Reachable db
  fill :
      (db : Database) (s m y : String) (side : FillSide) (qty price fee : ℚ) (now : Time)
      → Reachable db
      → Reachable (apply_fill s m y side qty price fee now db).1
