-- ===== src/Storage.antt =====
-- crates/storage/src: the tables of the database, the statements that read and change them, and the
-- functions of the storage layer that are made of these statements.
pub mod Models
pub mod Error
pub mod Version
pub mod Tables
pub mod Rows
pub mod Exec
pub mod Experiments
pub mod Projects
pub mod Flags
pub mod Segments
pub mod Audit
pub mod Snapshot
