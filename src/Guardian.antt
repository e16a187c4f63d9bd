-- ===== src/Guardian.antt =====
-- The agent guardian of the OSS build, src/usecases/behavior_guard.rs: it takes the tool calls out of
-- a request body, counts them for a session, and blocks tool storms and runaway loops. Json has the
-- parsed body, Extract the tool calls, Hash the hash of a call's arguments, Limits the counters.
mod Examples
pub mod Json
pub mod Extract
pub mod Hash
pub mod Limits
