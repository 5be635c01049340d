-- ===== src/Lake.antt =====
-- The batch extraction into the data lake (src/storage).
pub mod Files
pub mod Extract
pub mod Blocks
pub mod Quality
pub mod Transfers
pub mod Lookup
pub mod Stored
pub mod Dag
pub mod Contracts
pub mod Backfill
