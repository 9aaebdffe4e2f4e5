-- ===== src/Arbitrage.antt =====
-- The package `arbitrage`: from a violated constraint to a sized trade.
pub mod Execution
pub mod Detector
