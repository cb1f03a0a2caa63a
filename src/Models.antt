-- ===== src/Models.antt =====
-- engine/trading/models.py and the rows of engine/marketdata, engine/ai and engine/appsettings that
-- the trading core reads and writes; engine/trading/executors/base.py for orders and fills. The
-- integer primary keys are left out: the modelled code finds rows by their unique columns.
use capital.Prelude.{ℕ, String, Bool, true, false, Option, List}
use capital.Rational.{ℚ}

pub data PositionSide : Type 0 where
  long : PositionSide
  short : PositionSide
  flat : PositionSide

pub data FillSide : Type 0 where
  buy : FillSide
  sell : FillSide

-- A time is a number of microseconds since an epoch.
abbrev pub Time : Type 0
Time = ℕ

pub record StrategyAllocation : Type 0 where
  pub strategy : String
  pub allocated : ℚ
  pub enabled : Bool

pub record Position : Type 0 where
  pub strategy : String
  pub market : String
  pub symbol : String
  pub side : PositionSide
  pub qty : ℚ
  pub entry_price : ℚ
  pub realized_pnl : ℚ
  pub fees_paid : ℚ
  pub opened_at : Option Time
  pub updated_at : Option Time

pub record Trade : Type 0 where
  pub strategy : String
  pub market : String
  pub symbol : String
  pub side : FillSide
  pub quantity : ℚ
  pub price : ℚ
  pub fee : ℚ
  pub realized_pnl : ℚ
  pub mode : String
  pub client_order_id : Option String
  pub executed_at : Time

pub record EquitySnapshot : Type 0 where
  pub ts : Time
  pub equity : ℚ
  pub realized_pnl : ℚ
  pub unrealized_pnl : ℚ
  pub fees : ℚ
  pub net_pnl : ℚ

pub record Order : Type 0 where
  pub strategy : String
  pub market : String
  pub symbol : String
  pub side : FillSide
  pub quantity : ℚ

pub record Fill : Type 0 where
  pub strategy : String
  pub market : String
  pub symbol : String
  pub side : FillSide
  pub quantity : ℚ
  pub price : ℚ
  pub fee : ℚ
  pub realized_pnl : ℚ

-- engine/appsettings/models.py
pub record Setting : Type 0 where
  pub key : String
  pub value : String
  pub is_secret : Bool

-- engine/marketdata/models.py
pub record Candle : Type 0 where
  pub market : String
  pub symbol : String
  pub interval : String
  pub open_time : Time
  pub open_price : ℚ
  pub high : ℚ
  pub low : ℚ
  pub close : ℚ
  pub volume : ℚ
  pub close_time : Time

-- engine/ai/usage.py
pub record LlmUsage : Type 0 where
  pub provider : String
  pub model : String
  pub strategy : Option String
  pub input_tokens : ℕ
  pub output_tokens : ℕ
  pub estimated_cost_usd : ℚ
  pub action : Option String
  pub confidence : Option ℚ
  pub created_at : Time

-- engine/ai/signals.py
pub data SignalStatus : Type 0 where
  pending : SignalStatus
  executed : SignalStatus
  dismissed : SignalStatus

pub record AiSignal : Type 0 where
  pub strategy : String
  pub symbol : String
  pub market : String
  pub action : String
  pub confidence : ℚ
  pub reasoning : String
  pub reference_price : ℚ
  pub quantity : ℚ
  pub status : SignalStatus
  pub created_at : Time

-- The tables of a session, each in the order of insertion.
pub record Database : Type 0 where
  pub positions : List Position
  pub allocations : List StrategyAllocation
  pub trades : List Trade
  pub snapshots : List EquitySnapshot
  pub settings : List Setting
  pub candles : List Candle
  pub usage : List LlmUsage
  pub signals : List AiSignal

abbrev pub is_long : PositionSide → Bool
is_long long = true
is_long _ = false

abbrev pub is_flat : PositionSide → Bool
is_flat flat = true
is_flat _ = false

abbrev pub is_buy : FillSide → Bool
is_buy buy = true
is_buy sell = false
