-- ===== src/MarketData.antt =====
-- engine/marketdata/freshness.py and engine/marketdata/cache.py: when a feed counts as stale, and
-- the insert-only cache of candles.
pub mod Cache
pub mod Download
pub mod Stream
pub mod Freshness
