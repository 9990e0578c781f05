-- ===== src/Pacing.antt =====
-- The parts of the proxy that pace its outbound work.
pub mod Budget
pub mod Backoff
pub mod RateLimit
