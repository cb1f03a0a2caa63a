-- ===== src/Ai/Usage.antt =====
-- engine/ai/usage.py. `strip` and `lower` are the two functions of a `Normaliser`.
use text.Mathlib.Text.{starts_with}
use Prim.Native.Nat.{Ordering}
use Prim.Native.String.{compare}
use capital.Prelude.{
  ℕ, ◌+◌, String, ◌==◌, Bool, true, false, ◌&&◌, Option, none, some, List, [], ◌∷◌, ◌++◌, map,
  select, reverse, sort_by, take, leb, if◌then◌else◌,
}
use capital.Rational.{ℚ, of_ℕ, of_fraction}
use capital.Context.{Context, quotient, sum, ◌⊕◌, ◌⊗◌}
use capital.Models.{LlmUsage, Database, Time}
use capital.Effects.{ok}
use capital.Effects.Stateful.{Action}

-- `text.strip().lower()`
abbrev pub Normaliser : Type 0
Normaliser = String → String

abbrev pub Rates : Type 0
Rates = ℚ × ℚ

-- Input and output US$ per million tokens, by the prefix of a model's name.
abbrev pub pricing : List (String × Rates)
pricing =
    ("claude", (of_ℕ 3, of_ℕ 15))
    ∷ ("gpt-4o", (of_fraction (5, 0, 1), of_ℕ 10))
    ∷ ("gpt-4", (of_ℕ 10, of_ℕ 30))
    ∷ ("gpt-3.5", (of_fraction (1, 0, 1), of_fraction (3, 0, 1)))
    ∷ ("o1", (of_ℕ 15, of_ℕ 60))
    ∷ ("gemini", (of_fraction (1, 0, 9), of_fraction (2, 0, 4)))
    ∷ ("deepseek", (of_fraction (3, 0, 9), of_fraction (6, 0, 4)))
    ∷ []

abbrev pub fallback : Rates
fallback = (of_ℕ 5, of_ℕ 15)

-- The first prefix that fits, in the order of the table.
abbrev pub rates_for : String → List (String × Rates) → Rates
rates_for name [] = fallback
rates_for name ((prefix, rates) ∷ rest) =
    if starts_with name prefix then rates else rates_for name rest

-- `Completion` of engine/ai/providers/base.py: the text, and what the call used.
pub record Completion : Type 0 where
  pub text : String
  pub provider : String
  pub model : String
  pub input_tokens : ℕ
  pub output_tokens : ℕ

pub record ModelUsage : Type 0 where
  pub provider : String
  pub model : String
  pub decisions : ℕ
  pub buys : ℕ
  pub sells : ℕ
  pub holds : ℕ
  pub total_cost_usd : ℚ

abbrev pub one_if : String → Option String → ℕ
one_if word none = 0
one_if word (some action) = if action == word then 1 else 0

-- `(provider, model)` of two rollups, compared as tuples of texts.
abbrev pub same_model : String → String → ModelUsage → Bool
same_model provider model m = m.provider == provider && m.model == model

abbrev pub comes_before : ModelUsage → ModelUsage → Bool
comes_before a b = elim (compare a.provider b.provider) [
  | Ordering.lt ↦ true
  | Ordering.gt ↦ false
  | Ordering.eq ↦ elim (compare a.model b.model) [ Ordering.gt ↦ false | _ ↦ true ]
]

abbrev pub insert_model : ModelUsage → List ModelUsage → List ModelUsage
insert_model m [] = m ∷ []
insert_model m (n ∷ ns) = if comes_before m n then m ∷ n ∷ ns else n ∷ insert_model m ns

abbrev pub sort_models : List ModelUsage → List ModelUsage
sort_models [] = []
sort_models (m ∷ ms) = insert_model m (sort_models ms)

module _ ⦃c : Context⦄ (norm : Normaliser) where
  unfoldable pub estimate_cost : String → String → ℕ → ℕ → ℚ
  estimate_cost provider model input_tokens output_tokens =
      let (rate_in, rate_out) = rates_for (norm model) pricing in
      if norm provider == "ollama"
      then of_ℕ 0
      else quotient (of_ℕ input_tokens ⊗ rate_in ⊕ of_ℕ output_tokens ⊗ rate_out) (of_ℕ 1_000_000)

  abbrev pub stored_confidence : Option ℚ → Option ℚ
  stored_confidence none = none
  stored_confidence (some x) = some (c.column x)

  -- The row as it reads once written.
  abbrev pub usage_row : Completion → Option String → Option String → Option ℚ → Time → LlmUsage
  usage_row used strategy action confidence now = record {
    provider = used.provider;
    model = used.model;
    strategy = strategy;
    input_tokens = used.input_tokens;
    output_tokens = used.output_tokens;
    estimated_cost_usd =
        c.column (estimate_cost used.provider used.model used.input_tokens used.output_tokens);
    action = action;
    confidence = stored_confidence confidence;
    created_at = now;
  }

  unfoldable pub record_usage :
      Completion → Option String → Option String → Option ℚ → Time → Action Database LlmUsage
  unfolding estimate_cost
  record_usage used strategy action confidence now db =
      let row = usage_row used strategy action confidence now in
      (ok row, record db { usage = db.usage ++ row ∷ [] })

module _ ⦃c : Context⦄ where
  unfoldable pub spend_since : Time → Database → ℚ
  spend_since since db =
      sum (map (λ u. u.estimated_cost_usd) (select (λ u. leb since u.created_at) db.usage))

  abbrev pub new_rollup : LlmUsage → ModelUsage
  new_rollup row = record {
    provider = row.provider;
    model = row.model;
    decisions = 0;
    buys = 0;
    sells = 0;
    holds = 0;
    total_cost_usd = of_ℕ 0;
  }

  abbrev pub roll_up : LlmUsage → ModelUsage → ModelUsage
  roll_up row m = record m {
    decisions = m.decisions + 1;
    buys = m.buys + one_if "buy" row.action;
    sells = m.sells + one_if "sell" row.action;
    holds = m.holds + one_if "hold" row.action;
    total_cost_usd = m.total_cost_usd ⊕ row.estimated_cost_usd;
  }

  -- `by_key[key] = ...`
  abbrev pub add_usage : LlmUsage → List ModelUsage → List ModelUsage
  add_usage row [] = roll_up row (new_rollup row) ∷ []
  add_usage row (m ∷ ms) =
      if same_model row.provider row.model m then roll_up row m ∷ ms else m ∷ add_usage row ms

  abbrev pub add_all : List LlmUsage → List ModelUsage → List ModelUsage
  add_all [] acc = acc
  add_all (row ∷ rows) acc = add_all rows (add_usage row acc)

  unfoldable pub model_usage_summary : Database → List ModelUsage
  model_usage_summary db = sort_models (add_all db.usage [])

-- Newest first.
unfoldable pub recent_usage : ℕ → Database → List LlmUsage
recent_usage limit db = take limit (reverse (sort_by (λ u. u.created_at) db.usage))
