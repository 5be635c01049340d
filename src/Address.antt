-- ===== src/Address.antt =====
-- The scripts that collect addresses and tokens (src/address).
pub mod Labels
pub mod Retry
pub mod TopTokens
pub mod Collected
