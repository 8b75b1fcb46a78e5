-- ===== src/Windowing.antt =====
-- services/conversation/windowing.py: the transcript chunks of a conversation are cut into windows.
-- `Chunk` is the chunk, `Prefix` the part that can be reached without a gap, `Tail` the overlap that
-- a window hands to the next, `Flush` the closing of a window, `Build` the loop of
-- `build_ready_windows`.
pub mod Chunk
pub mod Prefix
pub mod Tail
pub mod Flush
pub mod Build
pub mod Examples
