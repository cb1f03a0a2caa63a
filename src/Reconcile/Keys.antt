-- ===== src/Reconcile/Keys.antt =====
-- engine/trading/reconcile.py: the sorted set of keys holds the keys of both sides.
use Prim.Native.String.{compare}
use Prim.Native.Nat.{Ordering}
use text.Mathlib.TextEquality.{path_by_compare}
use capital.Prelude.{
  eq_iff, ◌≡◌, refl, sym, ap, ◌∙◌, ◌⊎◌, Bool, true, false, ◌&&◌, ◌||◌, Bool-cases, inl, inr, List,
  [], subst, ◌∷◌, ◌++◌, map, arith, if◌then◌else◌,
}
use capital.Rational.{of_ℕ}
use capital.Reconcile.{
  Key, Quantities, same_key, quantity_at, compare_keys, insert_key, sorted_keys,
}

abbrev pub has_key : Key → List Key → Bool
has_key k [] = false
has_key k (j ∷ js) = if same_key j k then true else has_key k js

pub same_key-≡ : (a b : Key) → same_key a b ≡ true → a ≡ b
same_key-≡ (a, x) (b, y) h =
    let e : a ≡ b = ground (arith, eq_iff a b, eq_iff x y) in
    let f : x ≡ y = ground (arith, eq_iff a b, eq_iff x y) in λ i. (e i, f i)

Ordering-cases : (o : Ordering) → (o ≡ Ordering.lt) ⊎ ((o ≡ Ordering.eq) ⊎ (o ≡ Ordering.gt))
Ordering-cases Ordering.lt = inl refl
Ordering-cases Ordering.eq = inr (inl refl)
Ordering-cases Ordering.gt = inr (inr refl)

compare_keys-eq : (a b : Key) → compare_keys a b ≡ Ordering.eq → a ≡ b
compare_keys-eq a b h = elim (Ordering-cases (compare a.0 b.0)) [
  | inl e ↦ let k = rw (e, compare_keys) at h in cc
  | inr (inl e) ↦
      let m : a.0 ≡ b.0 = path_by_compare a.0 b.0 e in
      let s : a.1 ≡ b.1 = path_by_compare a.1 b.1 (rw (e, compare_keys) at h) in λ i. (m i, s i)
  | inr (inr e) ↦ let k = rw (e, compare_keys) at h in cc
]

or_twice :
    (b c d : Bool)
    → (if b then true else (if c then true else d)) ≡ (if c then true else (if b then true else d))
or_twice true true d = refl
or_twice true false d = refl
or_twice false c d = refl

or_same : (b d : Bool) → (if b then true else d) ≡ (if b then true else (if b then true else d))
or_same true d = refl
or_same false d = refl

pub and_false : (b : Bool) → (b && false) ≡ false
and_false true = refl
and_false false = refl

pub or_false : (b d : Bool) → (b || d) ≡ false → (b ≡ false) × (d ≡ false)
or_false true d h = cc
or_false false d h = (refl, h)

pub covered : (b d : Bool) → (b ≡ false → d ≡ false) → (b && d) ≡ d
covered true d h = refl
covered false d h = sym (h refl)

has_key-insert_key : (k j : Key) (ks : List Key) → has_key k (insert_key j ks) ≡ has_key k (j ∷ ks)
has_key-insert_key k j [] = refl
has_key-insert_key k j (i ∷ is) = by_order (has_key-insert_key k j is) (compare_keys j i) refl
  where
    by_order :
        (ih : has_key k (insert_key j is) ≡ has_key k (j ∷ is)) (o : Ordering)
        → compare_keys j i ≡ o
        → has_key k (elim o [
          | Ordering.lt ↦ j ∷ i ∷ is
          | Ordering.eq ↦ i ∷ is
          | Ordering.gt ↦ i ∷ insert_key j is
        ])
          ≡ has_key k (j ∷ i ∷ is)
    by_order ih Ordering.lt e = refl
    by_order ih Ordering.eq e =
        subst (λ t. has_key k (i ∷ is) ≡ has_key k (t ∷ i ∷ is)) (sym (compare_keys-eq j i e))
          (or_same (same_key i k) (has_key k is))
    by_order ih Ordering.gt e =
        ap (λ b. if same_key i k then true else b) ih
        ∙ or_twice (same_key i k) (same_key j k) (has_key k is)

pub has_key-sorted_keys : (k : Key) (ks : List Key) → has_key k (sorted_keys ks) ≡ has_key k ks
has_key-sorted_keys k [] = refl
has_key-sorted_keys k (j ∷ js) =
    has_key-insert_key k j (sorted_keys js)
    ∙ ap (λ b. if same_key j k then true else b) (has_key-sorted_keys k js)

pub has_key-append : (k : Key) (a b : List Key) → has_key k (a ++ b) ≡ (has_key k a || has_key k b)
has_key-append k [] b = refl
has_key-append k (j ∷ js) b = elim (Bool-cases (same_key j k)) [
  | inl e ↦ rw e refl
  | inr e ↦ rw e (has_key-append k js b)
]

pub quantity_at-absent :
    (k : Key) (d : Quantities) → has_key k (map (λ e. e.0) d) ≡ false → quantity_at k d ≡ of_ℕ 0
quantity_at-absent k [] h = refl
quantity_at-absent k ((j, q) ∷ d) h = elim (Bool-cases (same_key j k)) [
  | inl e ↦ let n = rw e at h in cc
  | inr e ↦ rw e (quantity_at-absent k d (rw e at h))
]
