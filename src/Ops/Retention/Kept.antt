-- ===== src/Ops/Retention/Kept.antt =====
-- engine/ops/retention.py: what pruning leaves.
use capital.Prelude.{
  ℕ, ◌+◌, ◌≡◌, ◌<◌, refl, Bool, false, not, Bool-cases, inl, inr, List, [], ◌∷◌, select, length,
  All, ltb, eqb, arith,
}
use capital.Models.{Database, Time}
use capital.Ops.Retention.{cutoff, prune_candles, prune_equity_snapshots, prune_all}

All-select :
    {A : Type 0} (old : A → Bool) (xs : List A)
    → All (λ x. old x ≡ false) (select (λ x. not (old x)) xs)
All-select old [] = tt
All-select old (x ∷ xs) = elim (Bool-cases (old x)) [
  | inl e ↦ rw e (All-select old xs)
  | inr e ↦ rw e (e, All-select old xs)
]

length-split :
    {A : Type 0} (old : A → Bool) (xs : List A)
    → length (select old xs) + length (select (λ x. not (old x)) xs) ≡ length xs
length-split old [] = omega arith
length-split old (x ∷ xs) = elim (Bool-cases (old x)) [
  | inl e ↦ rw e (omega (arith, length-split old xs))
  | inr e ↦ rw e (omega (arith, length-split old xs))
]

-- With both windows set, pruning leaves no candle and no equity snapshot from before its cutoff, and
-- the counts that it returns are the numbers of rows that went; the trade log, the positions and
-- the record of signals stay as they are.
pub prune_all-kept :
    (candle_days equity_days : ℕ) (now : Time) (db : Database)
    → 0 < candle_days
    → 0 < equity_days
    → let out = prune_all candle_days equity_days now db in
      All (λ k. ltb k.open_time (cutoff candle_days now) ≡ false) out.1.candles
      × All (λ s. ltb s.ts (cutoff equity_days now) ≡ false) out.1.snapshots
      × (out.0.0 + length out.1.candles ≡ length db.candles)
      × (out.0.1 + length out.1.snapshots ≡ length db.snapshots)
      × (out.1.trades ≡ db.trades)
      × (out.1.positions ≡ db.positions)
      × (out.1.signals ≡ db.signals)
unfolding prune_all prune_candles prune_equity_snapshots
prune_all-kept candle_days equity_days now db hc he =
    let c : eqb candle_days 0 ≡ false = ground arith in
    let e : eqb equity_days 0 ≡ false = ground arith in
    rw (c, e)
      (
        All-select (λ k. ltb k.open_time (cutoff candle_days now)) db.candles,
        All-select (λ s. ltb s.ts (cutoff equity_days now)) db.snapshots,
        length-split (λ k. ltb k.open_time (cutoff candle_days now)) db.candles,
        length-split (λ s. ltb s.ts (cutoff equity_days now)) db.snapshots,
        refl,
        refl,
        refl,
      )
