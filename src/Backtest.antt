-- ===== src/Backtest.antt =====
-- The package `backtest`: the replay engine and its parts.
pub mod Events
pub mod Portfolio
pub mod Fills
pub mod Feed
pub mod Engine
