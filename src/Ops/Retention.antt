-- ===== src/Ops/Retention.antt =====
-- engine/ops/retention.py: candles and equity snapshots older than a number of days are deleted.
pub mod Kept
use capital.Prelude.{
  ℕ, zero, suc, ◌-◌, ◌*◌, Bool, not, Option, List, [], ◌∷◌, select, length, ltb, eqb, if◌then◌else◌,
}
use capital.Models.{Candle, EquitySnapshot, Database, Time}
use capital.Risk.{day}

-- `_cutoff`; the clock is later than the epoch by more than any window.
abbrev pub cutoff : ℕ → Time → Time
cutoff days now = now - days * day

unfoldable pub prune_candles : ℕ → Time → Database → ℕ × Database
prune_candles days now db =
    let old : Candle → Bool = λ k. ltb k.open_time (cutoff days now) in
    if eqb days 0 then (0, db) else (
      length (select old db.candles),
      record db { candles = select (λ k. not (old k)) db.candles },
    )

unfoldable pub prune_equity_snapshots : ℕ → Time → Database → ℕ × Database
prune_equity_snapshots days now db =
    let old : EquitySnapshot → Bool = λ s. ltb s.ts (cutoff days now) in
    if eqb days 0 then (0, db) else (
      length (select old db.snapshots),
      record db { snapshots = select (λ s. not (old s)) db.snapshots },
    )

unfoldable pub prune_all : ℕ → ℕ → Time → Database → (ℕ × ℕ) × Database
unfolding prune_candles prune_equity_snapshots
prune_all candle_days equity_days now db =
    let (candles, db') = prune_candles candle_days now db in
    let (snapshots, db'') = prune_equity_snapshots equity_days now db' in
    ((candles, snapshots), db'')
