-- ===== src/Tests.antt =====
-- The theorems at concrete inputs.
mod Data
mod Fills
mod Limits
mod Ticks
mod Replays
mod Services
mod Accounts
mod Venues
mod Feeds
mod Consoles
mod Panels
mod Streams
