-- ===== src/Sink.antt =====
-- postgresql/postgresql.go: the sink that stores what the schedulers hand over. PostgreSQL's answers
-- are arguments, and so is `time.Now()`.
pub mod Queue
pub mod Delivery
pub mod Ledger
pub mod History
pub mod Retention
pub mod Kept
pub mod Dropped
pub mod Ingest
pub mod Accounting
pub mod Texts
pub mod Partitions
pub mod Covered
pub mod Rows
