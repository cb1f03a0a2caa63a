-- ===== src/Reconcile/Drift.antt =====
-- engine/trading/reconcile.py: the discrepancies are those of the row sums, at every key.
use capital.Prelude.{
  ◌≡◌, refl, sym, ap, ◌∙◌, Bool, true, false, ◌&&◌, Bool-cases, inl, inr, List, [], ◌∷◌, ◌++◌, map,
  select, All, if◌then◌else◌,
}
use capital.Rational.{ℚ, of_ℕ, le?, neg, ◌+ℚ◌, ◌-ℚ◌}
use capital.Rational.Order.{lt?, ◌≤ℚ◌}
use capital.Context.Rounding.{absolute-round}
use capital.Context.{Context, IsRounding, absolute, minus, ◌⊕◌, ◌⊖◌}
use capital.Models.{Position, PositionSide, long, short, flat, Database}
use capital.Reconcile.{
  Key, Quantities, PositionDiscrepancy, same_key, quantity_at, sorted_keys, add_at, add_position,
  totals_from, engine_positions, discrepancy, differs, reconcile_positions,
}
use capital.Reconcile.Keys.{
  has_key, same_key-≡, has_key-sorted_keys, has_key-append, quantity_at-absent, and_false, or_false,
  covered,
}

abbrev key_of : PositionDiscrepancy → Key
key_of d = (d.market, d.symbol)

-- Whether a discrepancy is reported under a key.
abbrev pub is_reported : Key → List PositionDiscrepancy → Bool
is_reported k [] = false
is_reported k (d ∷ ds) = if same_key (key_of d) k then true else is_reported k ds

module _ ⦃c : Context⦄ where
  -- A row's contribution to the running sum.
  abbrev add_row : ℚ → Position → ℚ
  add_row acc p = elim p.side [ long ↦ acc ⊕ p.qty | short ↦ acc ⊕ minus p.qty | flat ↦ acc ]

  -- The running sum of the signed quantities of the rows at a key, in the order of the rows.
  abbrev pub net_from : Key → ℚ → List Position → ℚ
  net_from k acc [] = acc
  net_from k acc (p ∷ ps) =
      net_from k (if same_key (p.market, p.symbol) k then add_row acc p else acc) ps

  abbrev pub net : Key → Database → ℚ
  net k db = net_from k (of_ℕ 0) db.positions

  quantity_at-add_at :
      (k j : Key) (q : ℚ) (d : Quantities)
      → quantity_at k (add_at j q d)
        ≡ (if same_key j k then quantity_at k d ⊕ q else quantity_at k d)
  quantity_at-add_at k j q [] = elim (Bool-cases (same_key j k)) [
    | inl e ↦ rw e refl
    | inr e ↦ rw e refl
  ]
  quantity_at-add_at k j q ((i, r) ∷ d) = elim (Bool-cases (same_key i j)) [
    | inl e ↦
        rw (e, sym (same_key-≡ i j e))
          (elim (Bool-cases (same_key i k)) [ inl f ↦ rw f refl | inr f ↦ rw f refl ])
    | inr e ↦ elim (Bool-cases (same_key i k)) [
      | inl f ↦ elim (Bool-cases (same_key j k)) [
        | inl g ↦ let n : same_key i j ≡ true = ap (same_key i) (same_key-≡ j k g) ∙ f in cc
        | inr g ↦ rw (e, f, g) refl
      ]
      | inr f ↦ rw (e, f) (quantity_at-add_at k j q d)
    ]
  ]

  quantity_at-add_position :
      (k : Key) (d : Quantities) (p : Position)
      → quantity_at k (add_position d p)
        ≡ (if same_key (p.market, p.symbol) k then add_row (quantity_at k d) p else quantity_at k d)
  quantity_at-add_position k d p = by_side p.side
    where
      by_side :
          (s : PositionSide)
          → quantity_at k (elim s [
            | long ↦ add_at (p.market, p.symbol) p.qty d
            | short ↦ add_at (p.market, p.symbol) (minus p.qty) d
            | flat ↦ d
          ])
            ≡ (if same_key (p.market, p.symbol) k
                then elim s [
                  | long ↦ quantity_at k d ⊕ p.qty
                  | short ↦ quantity_at k d ⊕ minus p.qty
                  | flat ↦ quantity_at k d
                ]
                else quantity_at k d)
      by_side long = quantity_at-add_at k (p.market, p.symbol) p.qty d
      by_side short = quantity_at-add_at k (p.market, p.symbol) (minus p.qty) d
      by_side flat = elim (Bool-cases (same_key (p.market, p.symbol) k)) [
        | inl e ↦ rw e refl
        | inr e ↦ rw e refl
      ]

  quantity_at-totals_from :
      (k : Key) (d : Quantities) (ps : List Position)
      → quantity_at k (totals_from d ps) ≡ net_from k (quantity_at k d) ps
  quantity_at-totals_from k d [] = refl
  quantity_at-totals_from k d (p ∷ ps) =
      quantity_at-totals_from k (add_position d p) ps
      ∙ ap (λ t. net_from k t ps) (quantity_at-add_position k d p)

  is_reported-select :
      (engine exchange : Quantities) (p : Key → Bool) (k : Key) (ks : List Key)
      → is_reported k (map (discrepancy engine exchange) (select p ks)) ≡ (has_key k ks && p k)
  is_reported-select engine exchange p k [] = refl
  is_reported-select engine exchange p k (j ∷ js) = elim (Bool-cases (p j)) [
    | inl e ↦ elim (Bool-cases (same_key j k)) [
      | inl f ↦ rw (e, f) (sym (ap p (sym (same_key-≡ j k f)) ∙ e))
      | inr f ↦ rw (e, f) (is_reported-select engine exchange p k js)
    ]
    | inr e ↦ elim (Bool-cases (same_key j k)) [
      | inl f ↦
          let n : p k ≡ false = ap p (sym (same_key-≡ j k f)) ∙ e in
          rw (e, f, n) (is_reported-select engine exchange p k js ∙ rw n (and_false (has_key k js)))
      | inr f ↦ rw (e, f) (is_reported-select engine exchange p k js)
    ]
  ]

  All-select :
      (engine exchange : Quantities) (p : Key → Bool) (P : PositionDiscrepancy → Type 0)
      (ks : List Key)
      → ((k : Key) → p k ≡ true → P (discrepancy engine exchange k))
      → All P (map (discrepancy engine exchange) (select p ks))
  All-select engine exchange p P [] h = tt
  All-select engine exchange p P (k ∷ ks) h = elim (Bool-cases (p k)) [
    | inl e ↦ rw e (h k e, All-select engine exchange p P ks h)
    | inr e ↦ rw e (All-select engine exchange p P ks h)
  ]

  differs-absent :
      (r : IsRounding c.round) (engine exchange : Quantities) (tolerance : ℚ) (k : Key)
      → of_ℕ 0 ≤ℚ tolerance
      → has_key k (map (λ e. e.0) engine ++ map (λ e. e.0) exchange) ≡ false
      → differs tolerance engine exchange k ≡ false
  unfolding ◌-ℚ◌ le? ◌+ℚ◌ neg
  differs-absent r engine exchange tolerance k pos h =
      let n = or_false _ _ (sym (has_key-append k (map (λ e. e.0) engine) _) ∙ h) in
      let z : absolute (of_ℕ 0 ⊖ of_ℕ 0) ≡ of_ℕ 0 = absolute-round r (of_ℕ 0 -ℚ of_ℕ 0) ∙ r.zero in
      rw (quantity_at-absent k engine n.0, quantity_at-absent k exchange n.1)
        (ap (lt? tolerance) z ∙ rw pos refl)

  -- The discrepancy at a key, from the sum over the rows.
  abbrev pub drift_at : Quantities → Database → Key → PositionDiscrepancy
  drift_at exchange db k = record {
    market = k.0;
    symbol = k.1;
    engine_qty = net k db;
    exchange_qty = quantity_at k exchange;
  }

  -- With a tolerance that is not negative, a discrepancy is reported under a key exactly if the sum
  -- of the signed quantities of the rows at it and the venue's quantity differ by more than the
  -- tolerance; and every discrepancy that is reported carries that sum and that quantity.
  pub reconcile_positions-drift :
      (r : IsRounding c.round) (exchange : Quantities) (tolerance : ℚ) (db : Database) (k : Key)
      → of_ℕ 0 ≤ℚ tolerance
      → (is_reported k (reconcile_positions exchange tolerance db)
          ≡ lt? tolerance (absolute (net k db ⊖ quantity_at k exchange)))
        × All
            (λ d. d ≡ drift_at exchange db (d.market, d.symbol))
            (reconcile_positions exchange tolerance db)
  unfolding reconcile_positions engine_positions
  reconcile_positions-drift r exchange tolerance db k pos =
      let engine : Quantities = engine_positions db in
      let keys : List Key = map (λ e. e.0) engine ++ map (λ e. e.0) exchange in
      let sum : (j : Key) → quantity_at j engine ≡ net j db =
        λ j. quantity_at-totals_from j [] db.positions in
      (
        is_reported-select engine exchange (differs tolerance engine exchange) k (sorted_keys keys)
            ∙ (ap (λ b. b && differs tolerance engine exchange k) (has_key-sorted_keys k keys)
                ∙ (covered (has_key k keys) (differs tolerance engine exchange k)
                      (differs-absent r engine exchange tolerance k pos)
                    ∙ ap (λ t. lt? tolerance (absolute (t ⊖ quantity_at k exchange))) (sum k))),
        All-select engine exchange (differs tolerance engine exchange)
            (λ d. d ≡ drift_at exchange db (d.market, d.symbol)) _
            (λ j h i. record {
              market = j.0;
              symbol = j.1;
              engine_qty = sum j i;
              exchange_qty = quantity_at j exchange;
            }),
      )
