-- ===== src/Backend.antt =====
-- The dashboard backend (src/backend).
pub mod Sockets
pub mod Alerts
pub mod Caching
pub mod Wallets
pub mod Lifespan
pub mod Loading
pub mod WhaleList
pub mod Tokens
pub mod Gas
pub mod Trending
pub mod Bootstrap
