-- ===== src/Reconcile.antt =====
-- engine/trading/reconcile.py and engine/ops/recovery.py: the sub-ledger against the venue.
mod Keys
pub mod Drift
use capital.Prelude.{
  String, ◌==◌, Bool, not, ◌&&◌, Option, none, some, List, [], ◌∷◌, ◌++◌, map, select, contains,
  if◌then◌else◌,
}
use Prim.Native.String.{compare}
use Prim.Native.Nat.{Ordering}
use capital.Rational.{ℚ, of_ℕ, of_fraction}
use capital.Rational.Order.{lt?}
use capital.Context.{Context, absolute, minus, ◌⊕◌, ◌⊖◌}
use capital.Models.{Position, long, short, flat, Trade, Database}
use capital.Effects.{Result, ok, err}
use capital.Executors.Venue.{Venue}

-- `(market, symbol)`
abbrev pub Key : Type 0
Key = String × String

abbrev pub Quantities : Type 0
Quantities = List (Key × ℚ)

pub record PositionDiscrepancy : Type 0 where
  pub market : String
  pub symbol : String
  pub engine_qty : ℚ
  pub exchange_qty : ℚ

abbrev pub same_key : Key → Key → Bool
same_key a b = a.0 == b.0 && a.1 == b.1

-- `d.get(key, Decimal(0))`
abbrev pub quantity_at : Key → Quantities → ℚ
quantity_at k [] = of_ℕ 0
quantity_at k ((j, q) ∷ d) = if same_key j k then q else quantity_at k d

abbrev pub compare_keys : Key → Key → Ordering
compare_keys a b = elim (compare a.0 b.0) [
  | Ordering.lt ↦ Ordering.lt
  | Ordering.eq ↦ compare a.1 b.1
  | Ordering.gt ↦ Ordering.gt
]

abbrev pub insert_key : Key → List Key → List Key
insert_key k [] = k ∷ []
insert_key k (j ∷ js) = elim (compare_keys k j) [
  | Ordering.lt ↦ k ∷ j ∷ js
  | Ordering.eq ↦ j ∷ js
  | Ordering.gt ↦ j ∷ insert_key k js
]

abbrev pub sorted_keys : List Key → List Key
sorted_keys [] = []
sorted_keys (k ∷ ks) = insert_key k (sorted_keys ks)

-- 0.00000001
abbrev pub default_tolerance : ℚ
default_tolerance = of_fraction (1, 0, 99_999_999)

-- The truthy `client_order_id`s of the trades.
abbrev pub known_ids : List Trade → List String
known_ids [] = []
known_ids (t ∷ ts) = elim t.client_order_id [
  | none ↦ known_ids ts
  | some id ↦ if id == "" then known_ids ts else id ∷ known_ids ts
]

unfoldable pub untracked_order_ids : List String → Database → List String
untracked_order_ids ids db = select (λ id. not (contains id (known_ids db.trades))) ids

module _ ⦃c : Context⦄ where
  -- `drift`: the quantity that no strategy accounts for.
  abbrev pub drift : PositionDiscrepancy → ℚ
  drift d = d.exchange_qty ⊖ d.engine_qty

  -- `totals[key] = totals.get(key, Decimal(0)) + signed`
  abbrev pub add_at : Key → ℚ → Quantities → Quantities
  add_at k q [] = (k, of_ℕ 0 ⊕ q) ∷ []
  add_at k q ((j, r) ∷ d) = if same_key j k then (j, r ⊕ q) ∷ d else (j, r) ∷ add_at k q d

  abbrev pub add_position : Quantities → Position → Quantities
  add_position d p = elim p.side [
    | long ↦ add_at (p.market, p.symbol) p.qty d
    | short ↦ add_at (p.market, p.symbol) (minus p.qty) d
    | flat ↦ d
  ]

  abbrev pub totals_from : Quantities → List Position → Quantities
  totals_from d [] = d
  totals_from d (p ∷ ps) = totals_from (add_position d p) ps

  unfoldable pub engine_positions : Database → Quantities
  engine_positions db = totals_from [] db.positions

  abbrev pub discrepancy : Quantities → Quantities → Key → PositionDiscrepancy
  discrepancy engine exchange k = record {
    market = k.0;
    symbol = k.1;
    engine_qty = quantity_at k engine;
    exchange_qty = quantity_at k exchange;
  }

  abbrev pub differs : ℚ → Quantities → Quantities → Key → Bool
  differs tolerance engine exchange k =
      lt? tolerance (absolute (quantity_at k engine ⊖ quantity_at k exchange))

  unfoldable pub reconcile_positions : Quantities → ℚ → Database → List PositionDiscrepancy
  unfolding engine_positions
  reconcile_positions exchange tolerance db =
      let engine = engine_positions db in
      map (discrepancy engine exchange) (
        select (differs tolerance engine exchange)
          (sorted_keys (map (λ e. e.0) engine ++ map (λ e. e.0) exchange)))

  -- A dictionary's entries under one market.
  abbrev pub under_market : String → List (String × ℚ) → Quantities
  under_market market [] = []
  under_market market ((s, q) ∷ rest) = ((market, s), q) ∷ under_market market rest

  abbrev pub reconcile_answer :
      String → Result (List (String × ℚ)) → Database → Result (List PositionDiscrepancy)
  reconcile_answer market (ok qs) db =
      ok (reconcile_positions (under_market market qs) default_tolerance db)
  reconcile_answer market (err e) db = err e

  unfoldable pub reconcile_with_venue :
      Venue → String → Database → Result (List PositionDiscrepancy)
  unfolding reconcile_positions
  reconcile_with_venue venue market db = reconcile_answer market venue.positions db

  -- `recover_on_boot`, for a mode that is not Sim and the venue built for it: never raises.
  abbrev pub never_raise : Result (List PositionDiscrepancy) → List PositionDiscrepancy
  never_raise (ok ds) = ds
  never_raise (err e) = []

  abbrev pub recover_from : Option Venue → Database → List PositionDiscrepancy
  recover_from none db = []
  recover_from (some venue) db = never_raise (reconcile_with_venue venue "futures" db)

  unfoldable pub recover_on_boot : Bool → Option Venue → Database → List PositionDiscrepancy
  unfolding reconcile_with_venue
  recover_on_boot is_sim venue db = if is_sim then [] else recover_from venue db
