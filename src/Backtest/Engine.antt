-- ===== src/Backtest/Engine.antt =====
-- backtest/engine.py: the replay loop over a feed, a strategy and a schedule of its own events.
pub mod State
pub mod Matching
pub mod Arrival
pub mod Feed
pub mod Context
pub mod Replay
pub mod Kept
pub mod Runs
pub mod Clock
pub mod Fees
pub mod Payments
pub mod Leverage
pub mod Released
pub mod Reserved
pub mod Owners
pub mod Tidy
pub mod Placing
pub mod Sound
pub mod Funding
pub mod Idle
pub mod Watching
pub mod Demo
pub mod Witnesses
pub mod Ledger
pub mod Causality
