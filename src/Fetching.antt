-- ===== src/Fetching.antt =====
-- db_collector_os/fetching: the persistent fetch queue and the rate limits of the domains.
pub mod Queue
pub mod RateLimiter
pub mod Client
