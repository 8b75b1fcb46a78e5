-- ===== src/Stream.antt =====
-- services/queue/streams.py: what a consumer does with one message of its stream.
-- `Failure` is `_handle_failure`, `Process` is `_handle_message` and `_process_message`, `Claim` is
-- the reclaiming of stale messages, `Read` the recovery of a failed read.
pub mod Config
pub mod Failure
pub mod Process
mod Examples
