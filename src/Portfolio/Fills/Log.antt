-- ===== src/Portfolio/Fills/Log.antt =====
-- engine/trading/portfolio.py: the trade log and the fills that `record_fill` returns.
use capital.Prelude.{
  String, ◌≡◌, refl, ap, ◌∙◌, Bool, true, false, Option, none, some, List, [], ◌∷◌, ◌++◌, ◌⊎◌, inl,
  inr,
}
use capital.Rational.{ℚ, of_ℕ, le?}
use capital.Context.{Context, ◌⊖◌}
use capital.Models.{Position, FillSide, Order, Fill, Trade, Database, Time}
use capital.Effects.{Result, ok, err, Error, value_error}
use capital.Effects.Stateful.{Action, continue, raise_if, lift, modify, ◌>>=◌, ◌>>◌}
use capital.Portfolio.Positions.{get_or_create_position, find_position, or_insert, new_position}
use capital.Portfolio.Fills.{
  apply_fill, record_fill, fold_fill, save_position, new_trade, new_fill, add_trade,
}

-- The row of a fill, as it reads once written.
pub record Matches ⦃c : Context⦄ (t : Trade) (f : Fill) : Type 0 where
  pub strategy : t.strategy ≡ f.strategy
  pub market : t.market ≡ f.market
  pub symbol : t.symbol ≡ f.symbol
  pub side : t.side ≡ f.side
  pub quantity : t.quantity ≡ c.column f.quantity
  pub price : t.price ≡ c.column f.price
  pub fee : t.fee ≡ c.column f.fee
  pub realized : t.realized_pnl ≡ c.column f.realized_pnl

-- A fill and its one row at the end of the log, or an exception and the log as it was.
abbrev pub Logged : ⦃c : Context⦄ → List Trade → Result Fill × Database → Type 0
Logged log out =
    ((f : Fill) × (t : Trade) × ((out.0 ≡ ok f) × (out.1.trades ≡ log ++ t ∷ []) × Matches t f))
    ⊎ ((x : Error) × ((out.0 ≡ err x) × (out.1.trades ≡ log)))

pub continue-Logged :
    ⦃c : Context⦄ {A : Type 0} (log : List Trade) (f : A → Action Database Fill)
    (out : Result A × Database)
    → out.1.trades ≡ log
    → ((a : A) (db : Database) → db.trades ≡ log → Logged log (f a db))
    → Logged log (continue f out)
continue-Logged log f (ok a, db) k next = next a db k
continue-Logged log f (err x, db) k next = inr (x, (refl, k))

continue-trades :
    {A B : Type 0} (log : List Trade) (f : A → Action Database B) (out : Result A × Database)
    → out.1.trades ≡ log
    → ((a : A) (db : Database) → db.trades ≡ log → (f a db).1.trades ≡ log)
    → (continue f out).1.trades ≡ log
continue-trades log f (ok a, db) k next = next a db k
continue-trades log f (err x, db) k next = k

pub raise_if-trades :
    (b : Bool) (x : Error) (db : Database) → (raise_if b x db).1.trades ≡ db.trades
raise_if-trades true x db = refl
raise_if-trades false x db = refl

get_or_create-trades :
    (s m y : String) (db : Database) → (get_or_create_position s m y db).1.trades ≡ db.trades
unfolding get_or_create_position
get_or_create-trades s m y db = by_row (find_position s m y db)
  where
    by_row : (row : Option Position) → (or_insert (new_position s m y) row db).1.trades ≡ db.trades
    by_row none = refl
    by_row (some p) = refl

module _ ⦃c : Context⦄ where
  apply_fill-trades :
      (s m y : String) (side : FillSide) (qty price fee : ℚ) (now : Time) (db : Database)
      → (apply_fill s m y side qty price fee now db).1.trades ≡ db.trades
  unfolding apply_fill
  apply_fill-trades s m y side qty price fee now db =
      let fold : Position → Action Database Position =
        λ p. lift (fold_fill p side qty price fee now) >>= λ q. save_position q in
      continue-trades db.trades (λ u. get_or_create_position s m y >>= fold)
        (raise_if (le? qty (of_ℕ 0)) value_error db)
        (raise_if-trades (le? qty (of_ℕ 0)) value_error db)
        λ u w k.
          continue-trades db.trades fold (get_or_create_position s m y w)
            (get_or_create-trades s m y w ∙ k)
            λ p v j.
              continue-trades db.trades (λ q. save_position q)
                (fold_fill p side qty price fee now, v) j (λ q x i. i)

  -- Recording a fill is all or nothing for the trade log: either it returns a fill, and exactly the
  -- row of that fill is appended; or it raises, and the log is as it was.
  pub record_fill-Logged :
      (mode : String) (order : Order) (qty price fee : ℚ) (id : Option String) (now : Time)
      (db : Database)
      → Logged db.trades (record_fill mode order qty price fee id now db)
  unfolding record_fill
  record_fill-Logged mode order qty price fee id now db =
      let finish : Position → Position → Action Database Fill = λ before after.
        let realized = after.realized_pnl ⊖ before.realized_pnl in
        modify (add_trade (new_trade mode order qty price fee realized id now))
        >> (λ w. (ok (new_fill order qty price fee realized), w)) in
      let fill : Action Database Position =
        apply_fill order.strategy order.market order.symbol order.side qty price fee now in
      continue-Logged db.trades (λ before. fill >>= finish before)
        (get_or_create_position order.strategy order.market order.symbol db)
        (get_or_create-trades order.strategy order.market order.symbol db)
        λ before w k.
          continue-Logged db.trades (finish before) (fill w)
            (apply_fill-trades order.strategy order.market order.symbol order.side qty price fee now
                w
              ∙ k)
            λ after v j.
              let realized = after.realized_pnl ⊖ before.realized_pnl in
              inl (
                new_fill order qty price fee realized,
                new_trade mode order qty price fee realized id now,
                (
                  refl,
                  ap (λ log. log ++ new_trade mode order qty price fee realized id now ∷ []) j,
                  record {
                    strategy = refl;
                    market = refl;
                    symbol = refl;
                    side = refl;
                    quantity = refl;
                    price = refl;
                    fee = refl;
                    realized = refl;
                  },
                ),
              )
