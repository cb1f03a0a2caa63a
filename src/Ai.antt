-- ===== src/Ai.antt =====
-- engine/ai: the spend on language models, the signals that wait for an operator, and the strategy
-- that asks a model.
pub mod Usage
pub mod Signals
pub mod Decisions
