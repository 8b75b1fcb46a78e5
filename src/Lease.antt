-- ===== src/Lease.antt =====
-- services/queue/job_lease.py: durable ownership of stream jobs.
-- `Codec` is the text of a lease record, `Fields` the cleaning of identifiers, `Scripts` the four
-- Lua scripts.
pub mod Codec
pub mod Scripts
pub mod Twin
pub mod Fields
pub mod JobKey
pub mod World
pub mod Client
pub mod Heartbeat
mod Examples
mod KeyExamples
