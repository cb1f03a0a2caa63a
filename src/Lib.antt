-- ===== src/Lib.antt =====
-- The trading engine of Capital, a self-hosted platform that runs strategies against paper and real
-- venues (engine/, in Python). The engine ticks every registered strategy: it refreshes the
-- candles of the strategy's symbol, freezes on a stale feed, closes a position whose stop is
-- breached, asks an enabled strategy for an order, clips the order to the strategy's allocation,
-- passes it through the risk manager, and hands it to the executor that the settings route to. The
-- executor fills it and the portfolio attributes the fill to the strategy's own position row and
-- to the trade log, from which the accounting and the kill switch read.
--
-- Which file models what. A function keeps the name that it has in the source.
--   Models: engine/trading/models.py and the rows of engine/marketdata/models.py,
--     engine/ai/usage.py, engine/ai/signals.py and engine/appsettings/models.py; Order and Fill of
--     engine/trading/executors/base.py. `Database` is the session: its tables as lists.
--   Portfolio.Positions, Portfolio.Fills, Portfolio.Allocation: engine/trading/portfolio.py.
--     `fold_fill` is the body of `apply_fill` on one row. Portfolio.Fills.Exact is the
--     specification: a signed holding on exact numbers.
--   Risk: engine/trading/risk.py.
--   Executors, Executors.Sim, Executors.Venue: engine/trading/executors and engine/venues/base.py.
--   Engine, Engine.Tick, Engine.Controls: engine/trading/engine.py. `tick_strategy` is
--     `_tick_strategy`, cut into one definition for each stretch between two early returns.
--   Lifecycle, Accounting, Reconcile, Routing: the files of those names in engine/trading
--     (Reconcile with engine/ops/recovery.py, Routing with engine/venues/registry.py).
--   Settings, Settings.Llm, Settings.Keys: engine/appsettings/store.py.
--   Strategies: engine/strategies, the indicators and the five built-in strategies.
--   Ai.Decisions, Ai.Usage, Ai.Signals: engine/strategies/ai_strategy.py, engine/ai/usage.py,
--     engine/ai/signals.py.
--   Backtest, Backtest.Scores: engine/backtest/runner.py.
--   MarketData.Cache, MarketData.Download, MarketData.Freshness: engine/marketdata/cache.py and
--     freshness.py. MarketData.Stream: engine/marketdata/stream.py, `run` as a step relation.
--   Ops.Watchdog, Ops.Retention: engine/ops. RateLimit: engine/auth/ratelimit.py.
--   Auth, Auth.Tokens, Auth.Login: engine/auth: the operators, the tokens of programs, the current
--     user, login and refresh. Auth.Users: engine/api/users.py and engine/api/tokens.py.
--   Exchange, Exchange.Market, Exchange.Client: engine/exchange/client.py, the retry, the typed
--     market data and the methods.
--   Venues: engine/venues: Binance, Alpaca, Polymarket, BinanceAlpha and the Factory, each an
--     `as_venue` of the interface in Executors.Venue.
--   Connections, Connections.Suggest: engine/connections. News: engine/news.
--   Api.Orders, Api.Strategies, Api.Settings: the files of those names in engine/api, on a
--     `Console`, which is the engine's world with the tables of engine/auth.
--   Json: what `json.loads` and the SDKs answer.
--   Prelude, Rational, Effects, Context: lists and tests on native numbers, the rationals with their
--     ring and order, exceptions and state, and decimal arithmetic.
--   Tests: the theorems at concrete inputs.
--
-- Numbers. A Decimal is an exact rational, so 1.0 and 1.00 are one number. What the program leaves
-- to its environment is a parameter, `Context`: the rounding that every arithmetic result goes
-- through (28 significant digits, half-even, by default) and the roundings of the database's
-- NUMERIC columns, which a row goes through when it is written and read back. A theorem holds for
-- every context, or for every rounding that keeps order and sign (`IsRounding`); where it speaks of
-- exact amounts it assumes that the context holds the particular numbers on the way (`Fits`).
--
-- State and errors. An operation on the session is a function from a database to a result and a
-- database; an exception is a value and keeps what was committed before it. The clock is an
-- argument, in microseconds, and a tick has one time. The scheduler runs ticks one after the other,
-- so there is no interleaving to model. Every loop is structural recursion; the retry of the
-- exchange client has three attempts, as in the source. There is no other fuel.
--
-- Parameters. The SDK of Binance (by call and attempt), its order client, the HTTP clients, bcrypt,
-- PyJWT, SHA-256 and `secrets`, feedparser, the primary keys of the database, a language-model
-- provider, the cipher, the text of a prompt, the parsing of an answer, `Decimal(text)`,
-- `str.strip().lower()`, `datetime.isoformat` and `Decimal.sqrt` are functions that the definitions
-- take.
--
-- Not modelled: the endpoints other than those of orders, strategies, settings, operators and
-- tokens, which read, or call a modelled operation; the seeds of the first operator and of the
-- graph; the AI providers, the background tasks of the streams, notifications over the network, the
-- loading of plugins, the web interface; logging; the primary keys of the trading tables; intervals
-- that are not ASCII text.
pub mod Accounting
pub mod Ai
pub mod Api
pub mod Auth
pub mod Backtest
pub mod Connections
pub mod Context
pub mod Effects
pub mod Engine
pub mod Exchange
pub mod Executors
pub mod Json
pub mod Lifecycle
pub mod MarketData
pub mod Models
pub mod News
pub mod Ops
pub mod Portfolio
pub mod Prelude
pub mod RateLimit
pub mod Rational
pub mod Reconcile
pub mod Risk
pub mod Routing
pub mod Settings
pub mod Strategies
pub mod Tests
pub mod Venues
