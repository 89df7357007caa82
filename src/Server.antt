-- ===== src/Server.antt =====
-- The relay server, apps/server/src.
pub mod RateLimiter
pub mod SessionManager
pub mod Relay
