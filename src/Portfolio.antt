-- ===== src/Portfolio.antt =====
-- engine/trading/portfolio.py: the attribution sub-ledger and the capital allocations.
pub mod Positions
pub mod Fills
pub mod Allocation
