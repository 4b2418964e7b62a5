-- ===== src/Collectors.antt =====
-- db_collector_os/collectors.
pub mod Phases
pub mod Context
pub mod Handling
pub mod Pages
pub mod Drain
pub mod Passes
