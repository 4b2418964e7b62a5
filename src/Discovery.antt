-- ===== src/Discovery.antt =====
-- db_collector_os/discovery.
pub mod Saturation
pub mod Urls
pub mod Sitemap
pub mod Engine
