-- ===== src/Venues.antt =====
-- engine/venues: the adapters that put a broker behind the interface of engine/venues/base.py.
pub mod Http
pub mod Binance
pub mod Alpaca
pub mod Polymarket
pub mod BinanceAlpha
pub mod Factory
pub mod Contract
