-- ===== src/Api.antt =====
-- crates/api/src: the server's caches and throttles.
pub mod Error
pub mod Auth
pub mod Flags
pub mod Segments
pub mod Experiments
pub mod Events
pub mod Usage
pub mod Cache
pub mod RateLimit
