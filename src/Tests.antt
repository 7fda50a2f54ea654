-- ===== src/Tests.antt =====
-- The development at concrete inputs: runs that are followed in the source, and each result at an
-- input that meets its hypotheses.
mod Toy
mod Database
mod Storage
mod Service
mod Audience
mod Engine
mod Matching
mod Validation
mod Client
mod Sending
mod Server
mod Limits
