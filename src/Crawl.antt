-- ===== src/Crawl.antt =====
-- The crawl frontier and its pipeline: services/api/src/crawler.rs and services/api/src/crawl/.
-- A table of the database is the list of its rows, a statement is one step, and the time is a count
-- of seconds.
pub mod Rows
pub mod Frontier
pub mod Table
pub mod Outcome
pub mod Store
pub mod Enqueue
pub mod Ingest
pub mod Apply
pub mod Maintenance
pub mod Projection
pub mod Admin
pub mod Rules
pub mod Lifecycle
