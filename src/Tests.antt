-- ===== src/Tests.antt =====
-- The theorems at concrete inputs.
mod Registry
mod Queue
mod Limits
mod Runs
mod Stores
mod Phases
mod Persisting
mod Running
mod Reviewing
mod Crawling
mod Working
mod Fetched
