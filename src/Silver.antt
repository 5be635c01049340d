-- ===== src/Silver.antt =====
-- The silver layer (src/silver): the tables that Spark derives from the extracted files.
pub mod Labels
pub mod Whales
pub mod Checks
pub mod Enriched
pub mod TokenFlow
