-- ===== src/Lib.antt =====
-- FlagForge decides which variant of a feature flag a context is served. This is a model of the
-- engine (crates/core), of the client library that runs it (crates/sdk), of the server's storage
-- (crates/storage, migrations), and of the parts of the server (crates/api) that write flags,
-- segments and experiments, cache snapshots and limit requests.
--
-- A snapshot of an environment (crates/core/src/snapshot.rs) holds flags and segments, each in a map
-- ordered by key, and the running experiments. To evaluate a flag, engine.rs looks for its first rule
-- that matches the context; matcher.rs decides that from the rule's conditions and from the segments
-- that it requires. The rule's distribution, or the fallthrough, names a variant or splits the
-- subjects by weight: bucket.rs hashes the salt, the key and the subject into a bucket and walks the
-- weights. validate.rs rejects a flag or a segment that could not be decided. The client keeps the
-- snapshot that it fetched last, evaluates on it, and counts exposures and conversions in the
-- recorder of events.rs, which is drained to be sent and restored if the sending fails.
--
-- The server keeps flags, configurations, segments and experiments in a database. A handler checks
-- its caller, looks up the resource, has validate.rs look at what is to be stored, writes it with
-- the storage's statements, has the cache load the environment again and records an audit entry.
--
-- The files, each with the code that it models:
-- - Core/Value, Core/Context, Core/Flag: value.rs, context.rs, flag.rs and segment.rs of
--   crates/core/src. `AttributeValue::as_str` and `as_f64` are `attribute_as_str` and
--   `attribute_as_f64`.
-- - Core/Bucket: bucket.rs. `preimage` is what the hasher is fed; `pick_from` is the loop.
-- - Core/Matcher: matcher.rs. Core/Matcher/Cache has the cache of compiled patterns: what a call
--   reads and what it finds at its write are two states, since other threads write in between.
-- - Core/Engine: engine.rs. `evaluate_from` is the loop over the rules.
-- - Core/Snapshot: snapshot.rs, and `ExperimentSpec` of experiment.rs.
-- - Core/Checks and Core/Validate: validate.rs. Issues are returned where the source pushes them to a
--   vector, in the same order.
-- - Core/Experiment: experiment.rs, with the operations of `f64` as a second parameter, Floats.
-- - Sdk/Events: crates/sdk/src/events.rs. Sdk/Client: crates/sdk/src/client.rs, whose requests are
--   in Sdk/Error, with error.rs, whose flush is in Sdk/Flush and whose polling is in Sdk/Refresher.
-- - Api/Usage: crates/api/src/auth/usage.rs. Api/Cache: crates/api/src/cache.rs, where a step is what
--   a task does while it holds a lock, and a slot is an address that tasks may keep. Api/RateLimit:
--   crates/api/src/rate_limit.rs, with the operations of `f64` that it uses in Rates.
-- - Storage/Models, Storage/Error: models.rs and error.rs of crates/storage/src. Storage/Tables and
--   Storage/Version: the tables, constraints and triggers of migrations. Storage/Rows: what the
--   statements do with rows. Storage/Exec: a statement takes effect as a whole or fails; a run is in
--   a monad of state and errors, and the statements that meet an outage are given beforehand.
--   Exec/Keeps has the rules for invariants of runs.
-- - Storage/Projects, Flags, Segments, Experiments, Snapshot, Audit: projects.rs, flags.rs,
--   segments.rs, experiments.rs, snapshot.rs and audit.rs of crates/storage/src. Flags/Configs has
--   the configurations, Experiments/Removal the deletion and Experiments/Counters the counters.
-- - Api/Error: crates/api/src/error.rs. Api/Auth: the guards of crates/api/src/auth/extract.rs and
--   `valid_key` of crates/api/src/routes/mod.rs. Api/Flags, Api/Segments, Api/Experiments, Api/Events:
--   flags.rs, segments.rs, experiments.rs and events.rs of crates/api/src/routes. Flags/Service and Segments/Service
--   serve one request after another.
-- - Prelude, Text, TextMap: what the program uses of the standard library. A text is the list of its
--   code points, a `BTreeMap` or a `BTreeSet` a list in ascending order, a `HashMap` a list in
--   whatever order. Extern is the record of what others implement: floating-point numbers, JSON,
--   regular expressions, versions, SHA-256 and the text of a UUID. It is a parameter of everything
--   that uses it, and no law is assumed of it.
-- - Tests: the program at concrete inputs.
--
-- A loop over a list is recursion on the list. The only fuel is that of the decimal digits of a
-- number (Text/Decimal), where the number itself is enough. A `u64` sum wraps at 2^64, and an
-- `i64` version is an integer. The hypotheses `IsU32` and `IsStr` say what the types of the source
-- promise: weights below 2^32, and lengths that fit in memory. In a build that checks for overflow
-- a sum would panic where it wraps here.
--
-- A JSONB column is a value that can be decoded, or one that cannot. Ids are given out in order where
-- the source draws UUIDs, and the columns created_at and updated_at are left out where no
-- query reads them. The database's order of texts is a field of the tables. `now()`
-- is one time for a run. No other request writes between the statements of a handler's run; what the
-- statements of different requests do in any order is in Flags/Configs/Versions and in
-- Experiments/Histories. Of the cache, a handler's run keeps only which environments were loaded again.
--
-- Not modelled: serialisation, timestamps, tracing and metrics; requests over HTTP, whose outcome is
-- given; the handlers that read flags, the results of an experiment with the counts they need, and the
-- handlers of evaluation, projects, keys, audit and sign-in; the creation and deletion of
-- projects and environments, accounts, API keys and the pool of the storage; tokens and passwords,
-- which are calls of cryptographic libraries; the dashboard (crates/web).
pub mod Prelude
pub mod Text
pub mod TextMap
pub mod Extern
pub mod Core
pub mod Sdk
pub mod Storage
pub mod Api
pub mod Tests
