-- ===== src/Portfolio/Fills/Frame.antt =====
-- `apply_fill` on the database: which row it reads and writes, and what it leaves alone.
use capital.Prelude.{
  String, ◌≡◌, refl, sym, ◌∙◌, ap, false, Option, none, some, Bool-cases, Option-cases, inl, inr,
}
use capital.Rational.{ℚ, of_ℕ, le?, ◌+ℚ◌}
use capital.Rational.Order.{◌≤ℚ◌, ◌<ℚ◌}
use capital.Context.{Context, IsRounding}
use capital.Models.{Position, FillSide, Time, Database}
use capital.Effects.{Result, ok, err, value_error}
use capital.Effects.Fallible.{Result-cases, ok-injective}
use capital.Effects.Stateful.{Action, ◌>>=◌, continue}
use capital.Portfolio.Positions.{
  is_at, new_position, find_position, get_or_create_position, signed_qty,
}
use capital.Portfolio.Fills.{
  fold_fill, apply_fill, save_position, stored, same_direction, signed_delta, average_entry,
}
use capital.Portfolio.Fills.Rows.{
  is_at-congr, is_at_self, find-replace_other, find-append_other, find-append_self, find-key,
  columns_of, find-replace_at,
}
use capital.Portfolio.Fills.Exact.{exact_fill}
use capital.Portfolio.Fills.Refinement.{FillFits, position_at, holding_of, fold_fill-refines}

-- The row that a fill starts from: the one with its columns, or a fresh one.
abbrev pub row_or : Position → Option Position → Position
row_or fresh (some p) = p
row_or fresh none = fresh

abbrev pub current : String → String → String → Database → Position
current s m y db = row_or (new_position s m y) (find_position s m y db)

-- Everything but the position rows.
abbrev pub SameOthers : Database → Database → Type 0
SameOthers a b =
    (a.allocations ≡ b.allocations)
    × (a.trades ≡ b.trades)
    × (a.snapshots ≡ b.snapshots)
    × (a.settings ≡ b.settings)
    × (a.candles ≡ b.candles)
    × (a.usage ≡ b.usage)
    × (a.signals ≡ b.signals)

-- Every query for other columns answers as before.
abbrev pub SameElsewhere : String → String → String → Database → Database → Type 0
SameElsewhere s m y a b =
    (s' m' y' : String)
    → is_at s' m' y' (new_position s m y) ≡ false
    → find_position s' m' y' a ≡ find_position s' m' y' b

SameOthers-trans : (a b d : Database) → SameOthers a b → SameOthers b d → SameOthers a d
SameOthers-trans a b d h k =
    (h.0 ∙ k.0, h.1 ∙ k.1, h.2 ∙ k.2, h.3 ∙ k.3, h.4 ∙ k.4, h.5 ∙ k.5, h.6 ∙ k.6)

-- `get_or_create_position` returns the current row, which is stored from then on, and changes no
-- answer to another query.
pub get_or_create_lem :
    (s m y : String) (db : Database)
    → let (r, db') = get_or_create_position s m y db in
      (r ≡ ok (current s m y db))
      × (find_position s m y db' ≡ some (current s m y db))
      × SameElsewhere s m y db' db
      × SameOthers db' db
unfolding get_or_create_position
get_or_create_lem s m y db = elim (Option-cases (find_position s m y db)) [
  | inl e ↦ rw e (
    refl,
    find-append_self (new_position s m y) db.positions e,
    λ s' m' y' h. find-append_other s' m' y' (new_position s m y) db.positions h,
    (refl, refl, refl, refl, refl, refl, refl),
  )
  | inr (p, e) ↦ rw e (refl, e, λ s' m' y' h. refl, (refl, refl, refl, refl, refl, refl, refl))
]

-- The current row has the columns that were asked for.
pub is_at-current :
    (s m y s' m' y' : String) (db : Database)
    → is_at s' m' y' (current s m y db) ≡ is_at s' m' y' (new_position s m y)
is_at-current s m y s' m' y' db = elim (Option-cases (find_position s m y db)) [
  | inl e ↦ rw e
  | inr (p, e) ↦
      rw e (is_at-congr s' m' y' p (new_position s m y) (find-key s m y p db.positions e))
]

-- The row for the exact fill of the holding that the current row stands for.
abbrev pub filled : String → String → String → FillSide → ℚ → ℚ → ℚ → Time → Database → Position
filled s m y side qty price fee now db =
    let p = current s m y db in
    position_at p (exact_fill (holding_of p) side qty price) (p.fees_paid +ℚ fee) now

module _ ⦃c : Context⦄ where
  -- A fill keeps a row's columns.
  fold_fill-key :
      (p q : Position) (side : FillSide) (qty price fee : ℚ) (now : Time)
      → fold_fill p side qty price fee now ≡ ok q
      → (q.strategy ≡ p.strategy) × (q.market ≡ p.market) × (q.symbol ≡ p.symbol)
  unfolding fold_fill
  fold_fill-key p q side qty price fee now h =
      let s : ℚ = signed_qty p in
      let d : ℚ = signed_delta side qty in
      elim (Bool-cases (same_direction s d)) [
        | inl e ↦ elim (Result-cases (average_entry s p.entry_price qty price)) [
          | inl (a, f) ↦
              let k = ok-injective _ _ (rw f at (rw e at h)) in
              (ap (λ t. t.strategy) (sym k), ap (λ t. t.market) (sym k), ap (λ t. t.symbol) (sym k))
          | inr (x, f) ↦ let k = rw f at (rw e at h) in cc
        ]
        | inr e ↦
            let k = ok-injective _ _ (rw e at h) in
            (ap (λ t. t.strategy) (sym k), ap (λ t. t.market) (sym k), ap (λ t. t.symbol) (sym k))
      ]

  save-frame :
      (s m y : String) (r : Result Position) (db : Database)
      → ((q : Position) → r ≡ ok q → (q.strategy ≡ s) × (q.market ≡ m) × (q.symbol ≡ y))
      → let db' = (◌>>=◌ (λ d. (r, d)) save_position db).1 in
        SameElsewhere s m y db' db × SameOthers db' db
  save-frame s m y (err e) db key = (λ s' m' y' h. refl, (refl, refl, refl, refl, refl, refl, refl))
  save-frame s m y (ok q) db key =
      let k = key q refl in
      (
        λ s' m' y' h. find-replace_other s' m' y' (stored q) db.positions (rw (k.0, k.1, k.2) h),
        (refl, refl, refl, refl, refl, refl, refl),
      )

  -- What follows the row's lookup in `apply_fill`.
  abbrev pub fold_and_save : FillSide → ℚ → ℚ → ℚ → Time → Position → Action Database Position
  fold_and_save side qty price fee now p =
      (λ d. (fold_fill p side qty price fee now, d)) >>= save_position

  -- The step of `apply_fill` after its guard.
  pub apply_fill-eq :
      (s m y : String) (side : FillSide) (qty price fee : ℚ) (now : Time) (db : Database)
      → of_ℕ 0 <ℚ qty
      → apply_fill s m y side qty price fee now db
        ≡ fold_and_save side qty price fee now
            (current s m y db)
            (get_or_create_position s m y db).1
  unfolding apply_fill
  apply_fill-eq s m y side qty price fee now db pos =
      let l = get_or_create_lem s m y db in
      let e : get_or_create_position s m y db
          ≡ (ok (current s m y db), (get_or_create_position s m y db).1) =
        λ i. (l.0 i, (get_or_create_position s m y db).1) in
      rw pos (ap (continue (fold_and_save side qty price fee now)) e)

  -- A fill of no positive quantity is a `ValueError`, and not even its row is created.
  pub apply_fill-rejects :
      (s m y : String) (side : FillSide) (qty price fee : ℚ) (now : Time) (db : Database)
      → qty ≤ℚ of_ℕ 0
      → apply_fill s m y side qty price fee now db ≡ (err value_error, db)
  unfolding apply_fill
  apply_fill-rejects s m y side qty price fee now db h = rw h

  -- After any fill, rejected ones included, every query for another strategy, market or symbol
  -- answers as before, and no other table has changed.
  pub apply_fill-frame :
      (s m y : String) (side : FillSide) (qty price fee : ℚ) (now : Time) (db : Database)
      → let db' = (apply_fill s m y side qty price fee now db).1 in
        SameElsewhere s m y db' db × SameOthers db' db
  apply_fill-frame s m y side qty price fee now db = elim (Bool-cases (le? qty (of_ℕ 0))) [
    | inl e ↦
        rw (apply_fill-rejects s m y side qty price fee now db e)
          (λ s' m' y' h. refl, (refl, refl, refl, refl, refl, refl, refl))
    | inr e ↦
        let l = get_or_create_lem s m y db in
        let p : Position = current s m y db in
        let k =
          columns_of s m y p (is_at-current s m y s m y db ∙ is_at_self (new_position s m y)) in
        let f =
          save-frame s m y (fold_fill p side qty price fee now) (get_or_create_position s m y db).1
            (λ q h.
              let j = fold_fill-key p q side qty price fee now h in
              (j.0 ∙ k.0, j.1 ∙ k.1, j.2 ∙ k.2)) in
        rw (apply_fill-eq s m y side qty price fee now db e) (
          λ s' m' y' h. f.0 s' m' y' h ∙ l.2 s' m' y' h,
          SameOthers-trans
              (fold_and_save side qty price fee now (current s m y db)
                (get_or_create_position s m y db).1).1
              (get_or_create_position s m y db).1 db f.1 l.3,
        )
  ]

  -- Where the context and the columns hold the numbers on the way, a fill succeeds: it returns the
  -- row for the exact fill of the holding that the current row stood for, and that row is what a
  -- query for its columns finds from then on.
  pub apply_fill-refines :
      (r : IsRounding c.round) (s m y : String) (side : FillSide) (qty price fee : ℚ) (now : Time)
      (db : Database)
      → of_ℕ 0 <ℚ qty
      → FillFits (current s m y db) side qty price fee
      → stored (filled s m y side qty price fee now db) ≡ filled s m y side qty price fee now db
      → let (result, db') = apply_fill s m y side qty price fee now db in
        (result ≡ ok (filled s m y side qty price fee now db))
        × (find_position s m y db' ≡ some (filled s m y side qty price fee now db))
  apply_fill-refines r s m y side qty price fee now db pos f st =
      let p : Position = current s m y db in
      let q : Position =
        position_at p (exact_fill (holding_of p) side qty price) (p.fees_paid +ℚ fee) now in
      let l = get_or_create_lem s m y db in
      let k = columns_of s m y p (is_at-current s m y s m y db ∙ is_at_self (new_position s m y)) in
      let d : Database = (get_or_create_position s m y db).1 in
      rw (apply_fill-eq s m y side qty price fee now db pos) (
        rw (fold_fill-refines r p side qty price fee now pos f)
          (rw st (refl, find-replace_at s m y q p d.positions k l.1)))
