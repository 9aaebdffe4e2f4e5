-- ===== src/Market.antt =====
-- The package `market`: the pure domain core.
pub mod Contracts
pub mod Listing
pub mod Units
pub mod OrderBook
pub mod Fees
pub mod Relationships
