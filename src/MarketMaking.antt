-- ===== src/MarketMaking.antt =====
-- market_making: the limits on what a market maker can lose.
pub mod Risk
