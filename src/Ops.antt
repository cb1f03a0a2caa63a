-- ===== src/Ops.antt =====
-- engine/ops: the watchdog over the engine's heartbeat, and the retention of old rows.
pub mod Watchdog
pub mod Retention
