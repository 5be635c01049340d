-- ===== src/Tests.antt =====
-- Concrete inputs, and the theorems at them.
pub mod Samples
mod Streaming
mod Dashboard
mod Extraction
mod Collection
mod Layers
mod Lookups
mod Dag
mod Runs
mod Tables
mod Tokens
