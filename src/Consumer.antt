-- ===== src/Consumer.antt =====
-- The streaming consumer (src/consumer): Kafka messages become rows of PostgreSQL and whale alerts.
pub mod Models
pub mod Table
pub mod Producer
pub mod Redis
pub mod Enrich
pub mod Database
pub mod State
pub mod Flush
pub mod Poll
pub mod Main
