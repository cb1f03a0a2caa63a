-- ===== src/Portfolio/Fills/Rows.antt =====
-- Finding a position row after rows were written: by its unique columns.
use capital.Prelude.{
  String, eq_iff, ◌≡◌, refl, true, false, none, some, List, [], ◌∷◌, ◌++◌, find, arith,
}
use capital.Models.{Position}
use capital.Portfolio.Positions.{is_at, replace_position}

-- Rows with the same unique columns answer every query alike.
pub is_at-congr :
    (s m y : String) (p q : Position)
    → is_at q.strategy q.market q.symbol p ≡ true
    → is_at s m y p ≡ is_at s m y q
is_at-congr s m y p q h =
    ground (arith, eq_iff p.strategy q.strategy, eq_iff p.market q.market, eq_iff p.symbol q.symbol)

pub is_at_self : (q : Position) → is_at q.strategy q.market q.symbol q ≡ true
is_at_self q =
    ground (arith, eq_iff q.strategy q.strategy, eq_iff q.market q.market, eq_iff q.symbol q.symbol)

pub find-replace_self :
    (q p : Position) (ps : List Position)
    → find (is_at q.strategy q.market q.symbol) ps ≡ some p
    → find (is_at q.strategy q.market q.symbol) (replace_position q ps) ≡ some q
unfolding replace_position
find-replace_self q p [] h = cc
find-replace_self q p (x ∷ ps) h = ground (arith, is_at_self q, find-replace_self q p ps)

pub find-replace_other :
    (s m y : String) (q : Position) (ps : List Position)
    → is_at s m y q ≡ false
    → find (is_at s m y) (replace_position q ps) ≡ find (is_at s m y) ps
unfolding replace_position
find-replace_other s m y q [] h = refl
find-replace_other s m y q (x ∷ ps) h =
    ground (arith, is_at-congr s m y x q, find-replace_other s m y q ps h)

pub find-append_other :
    (s m y : String) (q : Position) (ps : List Position)
    → is_at s m y q ≡ false
    → find (is_at s m y) (ps ++ q ∷ []) ≡ find (is_at s m y) ps
find-append_other s m y q [] h = rw h
find-append_other s m y q (x ∷ ps) h = ground (arith, find-append_other s m y q ps h)

pub find-append_self :
    (q : Position) (ps : List Position)
    → find (is_at q.strategy q.market q.symbol) ps ≡ none
    → find (is_at q.strategy q.market q.symbol) (ps ++ q ∷ []) ≡ some q
find-append_self q [] h = rw (is_at_self q)
find-append_self q (x ∷ ps) h = ground (arith, find-append_self q ps)

-- A row that a query finds has the columns that it asks for.
pub find-key :
    (s m y : String) (p : Position) (ps : List Position)
    → find (is_at s m y) ps ≡ some p
    → is_at s m y p ≡ true
find-key s m y p [] h = cc
find-key s m y p (x ∷ ps) h = ground (arith, find-key s m y p ps)

pub columns_of :
    (s m y : String) (p : Position)
    → is_at s m y p ≡ true
    → (p.strategy ≡ s) × (p.market ≡ m) × (p.symbol ≡ y)
columns_of s m y p h = ground (arith, eq_iff p.strategy s, eq_iff p.market m, eq_iff p.symbol y)

pub find-replace_at :
    (s m y : String) (q p : Position) (ps : List Position)
    → (q.strategy ≡ s) × (q.market ≡ m) × (q.symbol ≡ y)
    → find (is_at s m y) ps ≡ some p
    → find (is_at s m y) (replace_position q ps) ≡ some q
find-replace_at s m y q p ps k h =
    rw (← k.0, ← k.1, ← k.2) (find-replace_self q p ps (rw (k.0, k.1, k.2) h))
