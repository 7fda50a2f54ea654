-- ===== src/Sdk.antt =====
-- crates/sdk: the client that a service embeds. It evaluates a snapshot that it fetched, and counts
-- exposures and conversions until they are shipped.
pub mod Events
pub mod Error
pub mod Flush
pub mod Refresher
pub mod Client
