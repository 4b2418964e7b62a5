-- ===== src/Models.antt =====
-- db_collector_os/models: the enumerations of enums.py and the rows of the tables in records.py,
-- and the clock of job_registry.py.
pub mod Enums
pub mod Json
