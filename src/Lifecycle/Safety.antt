-- ===== src/Lifecycle/Safety.antt =====
-- engine/trading/lifecycle.py: what enabling, disabling and deleting a strategy do to it and to the
-- other strategies.
use capital.Prelude.{
  String, ◌==◌, eq_iff, eq_refl, ◌≡◌, refl, ap, ◌∙◌, Bool, true, false, not, Bool-cases, inl, inr,
  ◌⊎◌, none, some, Option-cases, List, [], ◌∷◌, ◌++◌, select, find, arith, if◌then◌else◌,
}
use capital.Rational.{of_ℕ}
use capital.Context.{Context}
use capital.Models.{Position, StrategyAllocation, Database}
use capital.Effects.{Result, ok, err, lifecycle_error}
use capital.Portfolio.Positions.{list_positions, is_listed}
use capital.Portfolio.Allocation.{is_row_of, find_allocation, replace_allocation, get_allocation}
use capital.Lifecycle.{is_enabled, set_enabled, is_of, delete_when, delete_strategy}

find-replace_self :
    (s : String) (new old : StrategyAllocation) (rows : List StrategyAllocation)
    → new.strategy ≡ s
    → find (is_row_of s) rows ≡ some old
    → find (is_row_of s) (replace_allocation new rows) ≡ some new
unfolding replace_allocation
find-replace_self s new old [] k h = cc
find-replace_self s new old (a ∷ as') k h = ground (
  arith,
  k,
  eq_iff new.strategy s,
  eq_iff a.strategy s,
  eq_iff a.strategy new.strategy,
  find-replace_self s new old as' k,
)

find-replace_other :
    (t : String) (new : StrategyAllocation) (rows : List StrategyAllocation)
    → (new.strategy == t) ≡ false
    → find (is_row_of t) (replace_allocation new rows) ≡ find (is_row_of t) rows
unfolding replace_allocation
find-replace_other t new [] h = refl
find-replace_other t new (a ∷ as') h =
    ground (arith, eq_iff a.strategy new.strategy, find-replace_other t new as' h)

find-append_self :
    (s : String) (new : StrategyAllocation) (rows : List StrategyAllocation)
    → (new.strategy == s) ≡ true
    → find (is_row_of s) rows ≡ none
    → find (is_row_of s) (rows ++ new ∷ []) ≡ some new
find-append_self s new [] k h = rw k refl
find-append_self s new (a ∷ as') k h = ground (arith, find-append_self s new as' k)

find-append_other :
    (t : String) (new : StrategyAllocation) (rows : List StrategyAllocation)
    → (new.strategy == t) ≡ false
    → find (is_row_of t) (rows ++ new ∷ []) ≡ find (is_row_of t) rows
find-append_other t new [] h = rw h refl
find-append_other t new (a ∷ as') h = ground (arith, find-append_other t new as' h)

find-key :
    (s : String) (a : StrategyAllocation) (rows : List StrategyAllocation)
    → find (is_row_of s) rows ≡ some a
    → a.strategy ≡ s
find-key s a [] h = cc
find-key s a (b ∷ bs) h = ground (arith, eq_iff b.strategy s, find-key s a bs)

-- A strategy that was enabled or disabled reads so; its capital stays what it was; and no other
-- strategy changes its state or its capital.
pub is_enabled-set_enabled :
    ⦃c : Context⦄ (s : String) (enabled : Bool) (db : Database)
    → (is_enabled s (set_enabled s enabled db).1 ≡ enabled)
      × (get_allocation s (set_enabled s enabled db).1 ≡ get_allocation s db)
      × ((t : String)
          → (s == t) ≡ false
          → (is_enabled t (set_enabled s enabled db).1 ≡ is_enabled t db)
            × (get_allocation t (set_enabled s enabled db).1 ≡ get_allocation t db))
unfolding is_enabled set_enabled get_allocation
is_enabled-set_enabled s enabled db = elim (Option-cases (find_allocation s db)) [
  | inl e ↦
      let new : StrategyAllocation = record {
        strategy = s;
        allocated = of_ℕ 0;
        enabled = enabled;
      } in
      let found = find-append_self s new db.allocations (eq_refl s) e in
      let others : (t : String)
          → (s == t) ≡ false
          → find (is_row_of t) (db.allocations ++ new ∷ []) ≡ find (is_row_of t) db.allocations =
        λ t h. find-append_other t new db.allocations h in
      rw e (rw found (refl, refl, λ t h. rw (others t h) (refl, refl)))
  | inr (a, e) ↦
      let new : StrategyAllocation = record a { enabled = enabled } in
      let key : a.strategy ≡ s = find-key s a db.allocations e in
      let found = find-replace_self s new a db.allocations key e in
      let others : (t : String)
          → (s == t) ≡ false
          → find (is_row_of t) (replace_allocation new db.allocations)
            ≡ find (is_row_of t) db.allocations =
        λ t h. find-replace_other t new db.allocations (ap (λ k. k == t) key ∙ h) in
      rw e (rw found (refl, refl, λ t h. rw (others t h) (refl, refl)))
]

select-without_self :
    (s : String) (only_open : Bool) (ps : List Position)
    → select (is_listed (some s) only_open) (select (λ p. not (is_of s p)) ps) ≡ []
select-without_self s only_open [] = refl
select-without_self s only_open (p ∷ ps) = elim (Bool-cases (p.strategy == s)) [
  | inl e ↦ rw e (select-without_self s only_open ps)
  | inr e ↦ rw e (rw e (select-without_self s only_open ps))
]

select-without_other :
    (s t : String) (only_open : Bool) (ps : List Position)
    → (s == t) ≡ false
    → select (is_listed (some t) only_open) (select (λ p. not (is_of s p)) ps)
      ≡ select (is_listed (some t) only_open) ps
select-without_other s t only_open [] h = refl
select-without_other s t only_open (p ∷ ps) h =
    let tail = select-without_other s t only_open ps h in
    elim (Bool-cases (p.strategy == s)) [
      | inl e ↦
          let no_match : (p.strategy == t) ≡ false =
            ap (λ k. k == t) ((eq_iff p.strategy s).0 e) ∙ h in
          rw e (rw no_match tail)
      | inr e ↦ rw e (ap (λ rest. if is_listed (some t) only_open p then p ∷ rest else rest) tail)
    ]

-- The outcome of a deletion that was refused: there is an open position, and nothing changed.
pub record Refused (s : String) (db : Database) (out : Result (Unit {0}) × Database) : Type 0 where
  pub open_row : (p : Position) × (ps : List Position) × (list_positions (some s) true db ≡ p ∷ ps)
  pub unchanged : out ≡ (err lifecycle_error, db)

-- The outcome of a deletion that took place: there was no open position, the strategy has no row
-- left, and the rows of the others, the trades and the equity history are as they were.
pub record Deleted (s : String) (db : Database) (out : Result (Unit {0}) × Database) : Type 0 where
  pub succeeds : out.0 ≡ ok tt
  pub was_flat : list_positions (some s) true db ≡ []
  pub gone : list_positions (some s) false out.1 ≡ []
  pub others :
      (t : String) (only_open : Bool)
      → (s == t) ≡ false
      → list_positions (some t) only_open out.1 ≡ list_positions (some t) only_open db
  pub trades : out.1.trades ≡ db.trades
  pub snapshots : out.1.snapshots ≡ db.snapshots

-- A strategy is either refused, with an open position of its own and the database as it was, or
-- deleted: then it had no open position, no position row of it is left, and the positions of every
-- other strategy, the trade log and the equity history are as they were.
pub delete_strategy-cases :
    (s : String) (db : Database)
    → Refused s db (delete_strategy s db) ⊎ Deleted s db (delete_strategy s db)
unfolding list_positions delete_strategy
delete_strategy-cases s db = by_open (list_positions (some s) true db) refl
  where
    by_open :
        (found : List Position)
        → list_positions (some s) true db ≡ found
        → Refused s db (delete_when found s db) ⊎ Deleted s db (delete_when found s db)
    by_open [] h = inr (record {
      succeeds = refl;
      was_flat = h;
      gone = select-without_self s false db.positions;
      others = λ t only_open k. select-without_other s t only_open db.positions k;
      trades = refl;
      snapshots = refl;
    })
    by_open (p ∷ ps) h = inl (record { open_row = (p, ps, h); unchanged = refl })
