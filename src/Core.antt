-- ===== src/Core.antt =====
-- crates/core: the domain model and the evaluation engine, a pure function of a flag, a context and
-- an environment.
pub mod Value
pub mod Context
pub mod Flag
pub mod Bucket
pub mod Matcher
pub mod Engine
pub mod Snapshot
pub mod Checks
pub mod Validate
pub mod Experiment
