-- ===== src/Ai/Signals.antt =====
-- engine/ai/signals.py: decisions that wait for an operator.
use capital.Prelude.{
  ℕ, String, Bool, true, Option, none, some, List, [], ◌∷◌, ◌++◌, select, reverse, sort_by, take,
}
use capital.Rational.{ℚ}
use capital.Context.{Context}
use capital.Models.{AiSignal, SignalStatus, pending, executed, dismissed, Database, Time}
use capital.Effects.{ok}
use capital.Effects.Stateful.{Action}

-- What a signal is recorded from.
pub record Advice : Type 0 where
  pub strategy : String
  pub symbol : String
  pub market : String
  pub action : String
  pub confidence : ℚ
  pub reasoning : String
  pub reference_price : ℚ
  pub quantity : ℚ

module _ ⦃c : Context⦄ where
  -- The row as it reads once written.
  abbrev pub new_signal : Advice → Time → AiSignal
  new_signal a now = record {
    strategy = a.strategy;
    symbol = a.symbol;
    market = a.market;
    action = a.action;
    confidence = c.column a.confidence;
    reasoning = a.reasoning;
    reference_price = c.price_column a.reference_price;
    quantity = c.price_column a.quantity;
    status = pending;
    created_at = now;
  }

  unfoldable pub record_signal : Advice → Time → Action Database AiSignal
  record_signal a now db =
      let row = new_signal a now in (ok row, record db { signals = db.signals ++ row ∷ [] })

abbrev pub same_status : SignalStatus → SignalStatus → Bool
same_status pending pending = true
same_status executed executed = true
same_status dismissed dismissed = true
same_status _ _ = Bool.false

abbrev pub has_status : Option SignalStatus → AiSignal → Bool
has_status none s = true
has_status (some status) s = same_status status s.status

-- Newest first.
unfoldable pub recent_signals : Option SignalStatus → ℕ → Database → List AiSignal
recent_signals status limit db =
    take limit (reverse (sort_by (λ s. s.created_at) (select (has_status status) db.signals)))
