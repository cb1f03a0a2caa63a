-- ===== src/Portfolio/Positions.antt =====
-- engine/trading/portfolio.py: reading, creating and listing position rows.
use capital.Prelude.{
  String, ◌==◌, Bool, true, false, not, ◌&&◌, ◌||◌, Option, none, some, List, [], ◌∷◌, ◌++◌, find,
  select, if◌then◌else◌,
}
use capital.Rational.{ℚ, of_ℕ, neg}
use capital.Rational.Order.{eq?}
use capital.Context.{Context, minus, ◌⊖◌, ◌⊗◌}
use capital.Models.{Position, long, short, flat, is_flat, is_long, Database}
use capital.Effects.{ok}
use capital.Effects.Stateful.{Action}

-- `Position.strategy == strategy, Position.market == market, Position.symbol == symbol`
abbrev pub is_at : String → String → String → Position → Bool
is_at strategy market symbol p =
    p.strategy == strategy && (p.market == market && p.symbol == symbol)

-- `Position(strategy=strategy, market=market, symbol=symbol)`, with the columns' defaults.
abbrev pub new_position : String → String → String → Position
new_position strategy market symbol = record {
  strategy = strategy;
  market = market;
  symbol = symbol;
  side = flat;
  qty = of_ℕ 0;
  entry_price = of_ℕ 0;
  realized_pnl = of_ℕ 0;
  fees_paid = of_ℕ 0;
  opened_at = none;
  updated_at = none;
}

abbrev pub find_position : String → String → String → Database → Option Position
find_position strategy market symbol db = find (is_at strategy market symbol) db.positions

-- Insert the row when the query found none.
abbrev pub or_insert : Position → Option Position → Action Database Position
or_insert fresh (some p) db = (ok p, db)
or_insert fresh none db = (ok fresh, record db { positions = db.positions ++ fresh ∷ [] })

unfoldable pub get_or_create_position : String → String → String → Action Database Position
get_or_create_position strategy market symbol db =
    or_insert (new_position strategy market symbol) (find_position strategy market symbol db) db

-- Write the row back in its place.
unfoldable pub replace_position : Position → List Position → List Position
replace_position q [] = []
replace_position q (p ∷ ps) =
    if is_at q.strategy q.market q.symbol p then q ∷ ps else p ∷ replace_position q ps

-- The filters of `list_positions`.
abbrev pub is_listed : Option String → Bool → Position → Bool
is_listed none open_only p = not open_only || not (is_flat p.side)
is_listed (some s) open_only p = p.strategy == s && (not open_only || not (is_flat p.side))

unfoldable pub list_positions : Option String → Bool → Database → List Position
list_positions strategy open_only db = select (is_listed strategy open_only) db.positions

-- `Decimal(1) if ... else Decimal(-1)`
abbrev pub direction : Bool → ℚ
direction true = of_ℕ 1
direction false = neg (of_ℕ 1)

module _ ⦃c : Context⦄ where
  -- Position size as a signed number, long positive and short negative.
  unfoldable pub signed_qty : Position → ℚ
  signed_qty p = elim p.side [ long ↦ p.qty | short ↦ minus p.qty | flat ↦ of_ℕ 0 ]

  unfoldable pub unrealized_pnl : Position → ℚ → ℚ
  unrealized_pnl p mark =
      if is_flat p.side || eq? p.qty (of_ℕ 0)
      then of_ℕ 0
      else (mark ⊖ p.entry_price) ⊗ p.qty ⊗ direction (is_long p.side)
