-- ===== src/Engine.antt =====
-- engine/trading/engine.py: the loop that ticks the strategies. The routers, the providers and the
-- standard library come in as an `Engine` of functions; one time stands for the clock readings of
-- a strategy's tick. Logging is left out, and a notification is a value.
pub mod Tick
pub mod Controls
pub mod Steps
pub mod Quiet
pub mod Frozen
pub mod Vetted
pub mod Unread
use capital.Prelude.{
  ℕ, String, ◌==◌, Bool, true, false, not, Option, none, some, List, [], ◌∷◌, ◌++◌, last_or, lookup,
  if◌then◌else◌,
}
use capital.Rational.{ℚ, of_ℕ, le?}
use capital.Context.{Context}
use capital.Models.{Candle, Position, FillSide, Order, Fill, Database, Setting, Time}
use capital.Effects.{Result, ok, err, Error, execution_error, llm_error}
use capital.Effects.Stateful.{Action}
use capital.Executors.{Executor}
use capital.Executors.Venue.{Venue}
use capital.Risk.{RiskManager, start_of_day}
use capital.Strategies.{Strategy, StrategyContext}
use capital.Ai.Usage.{Completion, Normaliser, spend_since, record_usage}
use capital.Ai.Decisions.{AiStrategy, Provider, Decision, Turn, action_value}
use capital.Settings.Llm.{get_ai_spend_cap}

-- A registered strategy: `isinstance(strat, AIStrategy)` tells the two apart.
pub data Runner : Type 0 where
  plain : Strategy → Runner
  advised : AiStrategy → Runner

pub record Engine : Type 0 where
  pub strategies : List Runner
  pub risk : RiskManager
  pub candle_limit : ℕ
  -- `VenueRouter.resolve` and `ExecutorRouter.resolve`
  pub resolve_venue : Database → Result Venue
  pub resolve_executor : Database → Result Executor
  -- `strategy_ai_settings`
  pub resolve_ai : Database → String → Result (Option Provider × Option String)
  -- `text.strip().lower()`, `Decimal(text)` and `datetime.isoformat`
  pub norm : Normaliser
  pub parse : String → Result ℚ
  pub isoformat : Time → String

pub data Notice : Type 0 where
  -- the strategy, the order, the price and the confidence of a signal
  signal_notice : String → Order → ℚ → ℚ → Notice
  trade_notice : String → Fill → Notice

-- The database, the latest price of each symbol, and what has been sent.
pub record World : Type 0 where
  pub db : Database
  pub last_prices : List (String × ℚ)
  pub notices : List Notice
  pub stopping : Bool

abbrev pub with_db : Database → World → World
with_db db w = record w { db = db }

-- An action on the database, run in the world.
abbrev pub on_db : {A : Type 0} → Action Database A → Action World A
on_db m w = let out = m w.db in (out.0, with_db out.1 w)

-- A function of the database that may raise.
abbrev pub ask : {A : Type 0} → (Database → Result A) → Action World A
ask f w = (f w.db, w)

abbrev pub set_price : String → ℚ → List (String × ℚ) → List (String × ℚ)
set_price symbol price [] = (symbol, price) ∷ []
set_price symbol price ((s, p) ∷ rest) =
    if s == symbol then (s, price) ∷ rest else (s, p) ∷ set_price symbol price rest

abbrev pub see_price : String → ℚ → World → World
see_price symbol price w = record w { last_prices = set_price symbol price w.last_prices }

abbrev pub notify : Notice → World → World
notify notice w = record w { notices = w.notices ++ notice ∷ [] }

module _ ⦃c : Context⦄ (e : Engine) where
  abbrev pub reaches : ℚ → Time → Database → Bool
  reaches cap now db =
      if le? cap (of_ℕ 0) then false else le? cap (spend_since (start_of_day now) db)

  abbrev pub cap_reached : Time → Database → Result ℚ → Result Bool
  cap_reached now db (err x) = err x
  cap_reached now db (ok cap) = ok (reaches cap now db)

  -- `_llm_cap_reached`: a cap that is not positive means unlimited.
  unfoldable pub llm_cap_reached : Time → Database → Result Bool
  unfolding get_ai_spend_cap spend_since
  llm_cap_reached now db = cap_reached now db (get_ai_spend_cap e.parse db.settings)

  abbrev pub action_of : Option Decision → Option String
  action_of none = none
  action_of (some d) = some (action_value d.action)

  abbrev pub confidence_of : Option Decision → Option ℚ
  confidence_of none = none
  confidence_of (some d) = some d.confidence

  -- `_record_ai_usage`
  unfoldable pub record_ai_usage : String → Turn → Time → Database → Database
  unfolding record_usage
  record_ai_usage name turn now db = elim turn.last_usage [
    | none ↦ db
    | some used ↦
        (record_usage e.norm used (some name) (action_of turn.last_decision)
          (confidence_of turn.last_decision) now db).1
  ]
