-- ===== src/Tests/Data.antt =====
-- The data of the tests: an exact context, a few rows, a venue that answers, and strategies.
use Prim.Native.String.{String as Text}
use capital.Prelude.{
  ℕ, zero, suc, ◌-◌, ◌≡◌, refl, ap, ◌∙◌, arith, String, ◌==◌, eq_iff, Bool-cases, inl, inr, Bool,
  false, none, some, List, [], ◌∷◌,
}
use capital.Rational.{of_ℕ}
use capital.Context.{unlimited}
use capital.Models.{Position, long, FillSide, buy, Order, Candle, Database}
use capital.Effects.{Result, ok, err, venue_error}
use capital.Executors.Venue.{Venue, VenueCandle}
use capital.Executors.Sim.{default_sim, sim_executor}
use capital.Risk.{RiskManager}
use capital.Strategies.{Strategy, StrategyContext, Address}
use capital.Ai.Usage.{Completion}
use capital.Ai.Decisions.{AiStrategy, Provider, Decision, buying}
use capital.Ops.Watchdog.{Calendar}
use capital.Ops.Watchdog.Alerts.{IsCalendar}
use capital.Engine.{Engine, World, Runner}

abbrev pub empty_db : Database
empty_db = record {
  positions = [];
  allocations = [];
  trades = [];
  snapshots = [];
  settings = [];
  candles = [];
  usage = [];
  signals = [];
}

-- Long 2 at 100.
abbrev pub long_two : Position
long_two = record {
  strategy = "s";
  market = "spot";
  symbol = "BTC";
  side = long;
  qty = of_ℕ 2;
  entry_price = of_ℕ 100;
  realized_pnl = of_ℕ 0;
  fees_paid = of_ℕ 0;
  opened_at = none;
  updated_at = none;
}

abbrev pub one_position : Database
one_position = record empty_db { positions = long_two ∷ [] }

abbrev pub order_for : FillSide → ℕ → Order
order_for side n = record {
  strategy = "s";
  market = "spot";
  symbol = "BTC";
  side = side;
  quantity = of_ℕ n;
}

-- Every limit on: a cap of 1000, stops at 5 and 10 percent, a loss limit of 50, a drawdown of 20.
abbrev pub strict : RiskManager
strict = record {
  max_position_notional = of_ℕ 1000;
  stop_loss_pct = of_ℕ 5;
  take_profit_pct = of_ℕ 10;
  daily_loss_limit = of_ℕ 50;
  max_drawdown_pct = of_ℕ 20;
}

abbrev pub no_limits : RiskManager
no_limits = record {
  max_position_notional = of_ℕ 0;
  stop_loss_pct = of_ℕ 0;
  take_profit_pct = of_ℕ 0;
  daily_loss_limit = of_ℕ 0;
  max_drawdown_pct = of_ℕ 0;
}

abbrev pub bar_at : ℕ → ℕ → VenueCandle
bar_at time price = record {
  open_time = time;
  open_price = of_ℕ price;
  high = of_ℕ price;
  low = of_ℕ price;
  close = of_ℕ price;
  volume = of_ℕ 1;
}

abbrev pub candle_at : ℕ → ℕ → Candle
candle_at time price = record {
  market = "spot";
  symbol = "BTC";
  interval = "1h";
  open_time = time;
  open_price = of_ℕ price;
  high = of_ℕ price;
  low = of_ℕ price;
  close = of_ℕ price;
  volume = of_ℕ 1;
  close_time = time;
}

-- A venue with two bars, at 100 and at 120.
abbrev pub two_bars : Venue
two_bars = record {
  name = "test";
  instrument = λ symbol market. err venue_error;
  candles = λ symbol interval limit market. ok (bar_at 0 100 ∷ bar_at 3_600_000_000 120 ∷ []);
  price = λ symbol. ok (of_ℕ 120);
  place_order = λ request. err venue_error;
  positions = ok [];
}

abbrev pub spot_btc : Address
spot_btc = record { name = "s"; market = "spot"; symbol = "BTC" }

-- A strategy that buys one on every tick.
abbrev pub buyer : Strategy
buyer = record {
  name = "s";
  symbol = "BTC";
  market = "spot";
  timeframe = "1h";
  evaluate = λ ctx. ok (some (order_for buy 1));
}

-- An answer of a model that asks to buy.
abbrev pub completion : Completion
completion = record {
  text = "buy";
  provider = "claude";
  model = "claude";
  input_tokens = 1000;
  output_tokens = 100;
}

abbrev pub advisor : Provider
advisor = record { complete = λ prompt model. ok completion }

abbrev pub adviser_of : Result Decision → AiStrategy
adviser_of decision = record {
  address = spot_btc;
  timeframe = "1h";
  reader = record { prompt_of = λ ctx. "BTC?"; parse_decision = λ text. decision };
}

abbrev pub buy_decision : Decision
buy_decision = record { action = buying; confidence = of_ℕ 1; reasoning = "up" }

abbrev pub engine : RiskManager → List Runner → Engine
engine risk strategies = record {
  strategies = strategies;
  risk = risk;
  candle_limit = 200;
  resolve_venue = λ db. ok two_bars;
  resolve_executor = λ db. ok (sim_executor ⦃c = unlimited⦄ default_sim);
  resolve_ai = λ db name. ok (some advisor, none);
  norm = λ t. t;
  parse = λ t. ok (of_ℕ 0);
  isoformat = λ t. "now";
}

abbrev pub allocated : Bool → ℕ → Database
allocated enabled n = record empty_db {
  allocations = record { strategy = "s"; allocated = of_ℕ n; enabled = enabled } ∷ [];
}

abbrev pub world_of : Database → World
world_of db = record { db = db; last_prices = []; notices = []; stopping = false }

abbrev pub context_at : ℕ → Position → StrategyContext
context_at price p = record {
  candles = candle_at 0 100 ∷ candle_at 3_600_000_000 120 ∷ [];
  position = p;
  allocation = of_ℕ 600;
  price = of_ℕ price;
}

-- A time as a text of one mark more.
abbrev pub marks : ℕ → String
marks zero = Text.[]
marks (suc n) = Text.◌∷◌ "|" (marks n)

abbrev pub count_marks : String → ℕ
count_marks Text.[] = 0
count_marks (Text.◌∷◌ ch s) = suc (count_marks s)

abbrev pub calendar : Calendar
calendar = record { isoformat = λ t. marks (suc t); fromisoformat = λ s. ok (count_marks s - 1) }

count_marks-marks : (n : ℕ) → count_marks (marks n) ≡ n
count_marks-marks zero = refl
count_marks-marks (suc n) = ap suc (count_marks-marks n)

marks-nonempty : (n : ℕ) → (marks (suc n) == "") ≡ false
marks-nonempty n = elim (Bool-cases (marks (suc n) == "")) [
  | inl e ↦ absurd (never (ap count_marks ((eq_iff (marks (suc n)) "").0 e)))
  | inr e ↦ e
]
  where
    never : suc (count_marks (marks n)) ≡ 0 → ⊥
    never h = cc

pub calendar-IsCalendar : IsCalendar calendar
calendar-IsCalendar = record {
  printed = marks-nonempty;
  reads = λ t. ap (λ n. ok (n - 1)) (count_marks-marks (suc t)) ∙ ap ok (omega arith);
}
