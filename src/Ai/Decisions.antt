-- ===== src/Ai/Decisions.antt =====
-- engine/strategies/ai_strategy.py, with `Decision` of engine/ai/providers/base.py. The provider
-- answers from outside. The text of the prompt (engine/ai/analyze.py) and the JSON of the answer
-- are left to two functions, `prompt_of` and `parse_decision`.
use capital.Prelude.{
  String, Bool, true, false, not, ◌&&◌, ◌||◌, Option, none, some, length, ltb, if◌then◌else◌,
}
use capital.Rational.{ℚ, of_ℕ, le?}
use capital.Rational.Order.{lt?}
use capital.Context.{Context, quotient}
use capital.Models.{is_long, buy, sell, Order}
use capital.Effects.{Result, ok, err, llm_error}
use capital.Effects.Fallible.{◌>>=◌}
use capital.Strategies.{StrategyContext, Address, closes, order_of}
use capital.Ai.Usage.{Completion}

pub data DecisionAction : Type 0 where
  buying : DecisionAction
  selling : DecisionAction
  holding : DecisionAction

abbrev pub action_value : DecisionAction → String
action_value buying = "buy"
action_value selling = "sell"
action_value holding = "hold"

pub record Decision : Type 0 where
  pub action : DecisionAction
  pub confidence : ℚ
  pub reasoning : String

pub record Provider : Type 0 where
  pub complete : String → Option String → Result Completion

pub record Reader : Type 0 where
  pub prompt_of : StrategyContext → String
  pub parse_decision : String → Result Decision

-- `AIStrategy`: the provider and the model come with every tick.
pub record AiStrategy : Type 0 where
  pub address : Address
  pub timeframe : String
  pub reader : Reader

-- What `evaluate` returns and leaves in `last_usage` and `last_decision`.
pub record Turn : Type 0 where
  pub order : Option Order
  pub last_usage : Option Completion
  pub last_decision : Option Decision

abbrev pub no_turn : Turn
no_turn = record { order = none; last_usage = none; last_decision = none }

module _ ⦃c : Context⦄ where
  abbrev pub is_entry : DecisionAction → Bool
  is_entry buying = true
  is_entry _ = false

  abbrev pub is_exit : DecisionAction → Bool
  is_exit selling = true
  is_exit _ = false

  -- The order that a decision asks for.
  unfoldable pub order_for : Address → Decision → StrategyContext → Option Order
  order_for a d ctx =
      let held = is_long ctx.position.side in
      if is_entry d.action && (not held && lt? (of_ℕ 0) ctx.allocation)
      then some (order_of a buy (quotient ctx.allocation ctx.price))
      else (if is_exit d.action && held then some (order_of a sell ctx.position.qty) else none)

  -- The call and the reading of its answer.
  abbrev pub consult :
      AiStrategy → Provider → Option String → StrategyContext → Result (Completion × Decision)
  consult s provider model ctx = do
    completion ← provider.complete (s.reader.prompt_of ctx) model
    decision ← s.reader.parse_decision completion.text
    ok (completion, decision)

  -- `except LLMError: return None`
  abbrev pub turn_of : Address → StrategyContext → Result (Completion × Decision) → Result Turn
  turn_of a ctx (err llm_error) = ok no_turn
  turn_of a ctx (err e) = err e
  turn_of a ctx (ok (completion, decision)) = ok (record {
    order = order_for a decision ctx;
    last_usage = some completion;
    last_decision = some decision;
  })

  unfoldable pub evaluate :
      AiStrategy → Option Provider → Option String → StrategyContext → Result Turn
  unfolding order_for
  evaluate s none model ctx = ok no_turn
  evaluate s (some provider) model ctx =
      if ltb (length (closes ctx)) 2 || le? ctx.price (of_ℕ 0)
      then ok no_turn
      else turn_of s.address ctx (consult s provider model ctx)
