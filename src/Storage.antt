-- ===== src/Storage.antt =====
-- crates/storage: the tables of the database, and the repositories over them.
pub mod Table
pub mod Select
pub mod Db
pub mod Sink
pub mod SinkRepository
pub mod Repo
pub mod Postgres
