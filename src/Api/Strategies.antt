-- ===== src/Api/Strategies.antt =====
-- engine/api/strategies.py: the endpoints of the Strategies page.
pub mod Switch
use capital.Prelude.{
  ℕ, String, ◌==◌, Bool, true, false, not, Option, none, some, List, [], ◌∷◌, ◌++◌, map, contains,
  put, eqb, if◌then◌else◌,
}
use capital.Rational.{ℚ, of_ℕ}
use capital.Context.{Context}
use capital.Models.{Database, Time}
use capital.Effects.{Result, ok, err, http_error}
use capital.Effects.Stateful.{Action, ◌>>=◌, ◌>>◌, pure, lift, raise_if, gets, modify}
use capital.Accounting.{MarkPrices, StrategySummary, strategy_summary}
use capital.Engine.{Engine, Runner, plain, advised, World}
use capital.Engine.Controls.{flatten}
use capital.Exchange.Market.{Ticker}
use capital.Json.{Json, text, bool, num, obj, field, end}
use capital.Lifecycle.{is_enabled, set_enabled}
use capital.Portfolio.Allocation.{get_allocation, set_allocation}
use capital.Settings.{AiConfig, get_strategy_ai_config, set_strategy_ai_config}
use capital.Strategies.{Strategy}
use capital.Auth.{User, Library, record_audit}
use capital.Api.{Console, on_world, on_db, on_accounts}

pub record StrategyRead : Type 0 where
  pub name : String
  pub kind : String
  pub symbol : String
  pub market : String
  pub timeframe : String
  pub enabled : Bool
  pub summary : StrategySummary
  -- provider and model, for AI strategies
  pub ai : Option AiConfig

-- The registered strategies, the kind of each that is not an AI strategy, the tickers of the two
-- hubs, and `str` of a Decimal.
pub record Page : Type 0 where
  pub engine : Engine
  pub kind_of : Strategy → String
  pub spot : List Ticker
  pub futures : List Ticker
  pub show : ℚ → String

abbrev pub llm_providers : List String
llm_providers = "claude" ∷ "openai" ∷ "gemini" ∷ "ollama" ∷ []

abbrev pub marks_from : MarkPrices → List Ticker → MarkPrices
marks_from marks [] = marks
marks_from marks (t ∷ ts) = marks_from (put t.symbol t.price marks) ts

-- `_marks`
abbrev pub marks_of : Page → MarkPrices
marks_of page = marks_from (marks_from [] page.spot) page.futures

abbrev pub name_of : Runner → String
name_of (plain s) = s.name
name_of (advised s) = s.address.name

abbrev pub is_ai : Runner → Bool
is_ai (plain s) = false
is_ai (advised s) = true

-- `_find`
abbrev pub find_strategy : String → List Runner → Result Runner
find_strategy name [] = err (http_error 404)
find_strategy name (s ∷ ss) = if name_of s == name then ok s else find_strategy name ss

module _ ⦃c : Context⦄ (lib : Library) (page : Page) where
  -- `_read`
  unfoldable pub read : Runner → Database → StrategyRead
  unfolding strategy_summary is_enabled get_strategy_ai_config
  read (plain s) db = record {
    name = s.name;
    kind = page.kind_of s;
    symbol = s.symbol;
    market = s.market;
    timeframe = s.timeframe;
    enabled = is_enabled s.name db;
    summary = strategy_summary (marks_of page) db s.name;
    ai = none;
  }
  read (advised s) db = record {
    name = s.address.name;
    kind = "AI";
    symbol = s.address.symbol;
    market = s.address.market;
    timeframe = s.timeframe;
    enabled = is_enabled s.address.name db;
    summary = strategy_summary (marks_of page) db s.address.name;
    ai = some (get_strategy_ai_config s.address.name db.settings);
  }

  unfoldable pub list_strategies : Database → List StrategyRead
  unfolding read
  list_strategies db = map (λ s. read s db) page.engine.strategies

  abbrev pub audit : User → String → String → Json → Action Console (Unit {0})
  audit user action name detail =
      modify (on_accounts (record_audit lib user.username action (some name) (some detail)))

  abbrev pub from_to : Json → Json → Json
  from_to a b = obj (field "from" a (field "to" b end))

  unfoldable pub update_allocation : String → ℚ → User → Action Console StrategyRead
  unfolding set_allocation get_allocation
  update_allocation name allocated user = do
    s ← lift (find_strategy name page.engine.strategies)
    before ← gets (λ t. get_allocation name t.world.db)
    on_db (set_allocation name allocated)
    audit user "strategy.allocation" name
        (from_to (text (page.show before)) (text (page.show allocated)))
    gets (λ t. read s t.world.db)

  unfoldable pub update_enabled : String → Bool → User → Action Console StrategyRead
  unfolding set_enabled is_enabled
  update_enabled name enabled user = do
    s ← lift (find_strategy name page.engine.strategies)
    before ← gets (λ t. is_enabled name t.world.db)
    on_db (set_enabled name enabled)
    audit user "strategy.enabled" name (from_to (bool before) (bool enabled))
    gets (λ t. read s t.world.db)

  abbrev pub pin : String → String → String → Database → Database
  pin name provider model db = record db {
    settings = set_strategy_ai_config name provider model db.settings;
  }

  unfoldable pub update_ai_model : String → String → String → User → Action Console StrategyRead
  unfolding set_strategy_ai_config
  update_ai_model name provider model user = do
    s ← lift (find_strategy name page.engine.strategies)
    raise_if (not (is_ai s)) (http_error 400)
    raise_if (not (contains provider llm_providers)) (http_error 400)
    on_db (modify (pin name provider model))
    audit user "strategy.ai_model" name
        (obj (field "provider" (text provider) (field "model" (text model) end)))
    gets (λ t. read s t.world.db)

  -- A close is recorded if it closed anything.
  abbrev pub audit_closed : User → String → ℕ → Action Console ℕ
  audit_closed user name closed =
      if eqb closed 0
      then pure closed
      else audit user "strategy.close" name (obj (field "closed" (num (of_ℕ closed)) end))
        >> pure closed

  unfoldable pub close_strategy : String → User → Time → Action Console ℕ
  unfolding flatten
  close_strategy name user now = do
    lift (find_strategy name page.engine.strategies)
    closed ← on_world (flatten page.engine name now)
    audit_closed user name closed
