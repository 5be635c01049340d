-- ===== src/Gold.antt =====
-- The gold layer (src/gold): aggregates of the silver tables.
pub mod Entities
pub mod TopWhales
pub mod MarketFlow
pub mod Popularity
pub mod Hourly
