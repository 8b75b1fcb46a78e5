-- ===== src/Lib.antt =====
-- Verification of the backend's background work: who may run a job, how a worker takes messages
-- from a stream and settles them, how late writes are kept out of the database, and how a
-- transcript is cut into the windows that the jobs work on, and when a conversation is handed over
-- to its processing.
--
-- A worker reads a message of a Redis stream (Dispatch), claims its logical job by a Lua script
-- that hands out a growing fence token (Lease), runs the handler with a heartbeat beside it, and
-- then acknowledges the message, hands it back, or writes a retry or a dead letter (Stream). Writes
-- of the handler to MongoDB carry the token (Fence). Conversation jobs cut the transcript chunks
-- into windows (Windowing), and texts are cut for the vector index (Chunking). Events of the queue API enter the
-- streams by a script that publishes each once (Publish); the jobs of the older lists are moved onto
-- the streams (Migration). The meeting pipeline cuts its transcript into extraction windows
-- (Extraction), keeps the candidates that it finds in a ledger, and stores the artifacts that a gate
-- lets pass (Evidence). Calls of model providers go along a route of candidates (Fallback), each
-- behind a guard of its quota (Quota).
-- A chunk of audio becomes a chunk of transcript, or its failure is recorded and told final or not (Stt);
-- when the recording has stopped, finalize waits for the chunks and windows and then requests the
-- processing of the conversation, whose status many workers move (Conversation).
--
-- Files and code, with paths from the repository's root:
--   Base: shared names, lists over native numbers, Boolean tests, text as code points, Python's
--     strip and decimal numbers.
--   Redis, Redis/Memory: the commands of the server as a record with the documented laws, and an
--     instance in memory. Mongo, Mongo/Memory: the same for a MongoDB collection.
--   Lease: services/queue/job_lease.py. Codec is the record text of `_encode` and `_parse` and the
--     scripts' split loop; Scripts the four Lua scripts; Twin the function apply_job_lease_eval, with `_encode`'s own clock;
--     Fields `_clean` and `_field`; JobKey logical_job_key; World the Redis commands as they succeed,
--     fail, or lose their answer; Client acquire_lease to preserve_pending_delivery; Heartbeat
--     heartbeat_loop.
--   Stream: services/queue/streams.py for one message. Config is the consumer, Failure
--     `_handle_failure`, Process `_process_message` and `_still_owned`.
--   Dispatch: services/queue/streams.py for many messages. The root holds the turns of
--     dispatch_messages, claim_stale and `_handle_message`; Reader holds `_read_or_recover`.
--   Fence: services/queue/mongo_fence.py. Both fenced calls share fenced_write, since they differ in
--     the command and in how it reports a match.
--   Windowing: services/conversation/windowing.py. Chunk is the chunk and the text of a window,
--     Prefix `_reachable_semantic_prefix`, Tail `_tail_chunks` and `_ordered_unique`, Flush
--     the inner function flush of build_ready_windows, Build the rest of that function.
--   Chunking: services/vector/chunking.py.
--   Broker, Broker/Memory: a Redis server whose keys have a kind, as a record with laws, and an
--     instance in memory.
--   Publish: services/queue/atomic_publish.py. Script is _PUBLISH_LUA, the root atomic_publish,
--     Refusal and Effects what a run of the script can do, Board the abstract specification, Promise
--     what one call does by it, Accepted when it is not turned away, Once many calls.
--   Migration: migrate_list of services/queue/legacy_list_migration.py, and _PUBLISH_GUARD_LUA of
--     services/queue/redis_queue.py. Server is the Redis server as the migration uses it, Weights
--     counts the copies of a job, Moves follows one round, Whole and Drained the loop.
--   Extraction: services/conversation/meeting_pipeline/windows.py. Transcript holds the turns and their
--     tokens, Ink what is known of text that is not blank, Numbers what is known of lists of sequence
--     numbers; Steps, AtRest, Cover and Whole follow the loop, Oversize the split of a long turn.
--   Evidence: ledger.py and invariants.py of services/conversation/meeting_pipeline. Windows is about a
--     window that is written again, Gate about what may be stored.
--   Quota: services/llm/quota.py. Trim is about the cut of the last minute, Caps about one window,
--     Runs about sequences of calls.
--   Fallback: services/llm/fallback.py. Limits joins it with the quota guard.
--   Stt: classify_stt_failure of services/conversation/stt_failure.py. Messages holds the markers, with
--     those of services/speech/errors.py; Chunk the document of a chunk and the writes of
--     services/conversation/repository.py to it, Bookkeeping those of the windows, the publication and
--     the archive; Record what
--     apps/api_gateway/workers/conversation_workers.py does on a failure; Types and Recorded what a
--     recorded failure tells, Writes the writes in any order, Life what they leave of a chunk.
--   Conversation: the statuses of services/conversation/models.py and `transition` of repository.py;
--     Transitions follows many workers, with mark_conversation_failed.
--     services/conversation/finalization.py is in Sequences (`_missing_sequences_are_terminal`, with detect_missing_sequences of transcript.py), Readiness
--     (`_session_readiness`), Requeue (`_requeue_lost_stt`), SafeTransition and Finalize. What finalize
--     reads is an argument, what it writes and publishes a list; Outcome, Ready, Tests, Resolved and
--     HandOver say when it requests the processing.
-- Examples and KeyExamples files apply the theorems to concrete inputs.
--
-- Loops: the split loop of the scripts runs on fuel `length value + 1`, the loop over sequence
-- numbers on `end - start + 1`, the loop of chunk_text on `len(text)`. This is enough, since each
-- round takes a character or passes a number at least. The loop of migrate_list takes `max(1, limit)`
-- rounds at most, as its condition says. All other loops are structural. The fence
-- counter is bounded by 10^14 where a token is compared as text, since Lua's tostring prints 14
-- digits.
--
-- Not modelled: log output, delays (floats with random parts), the context variables, which are
-- arguments, and the event loop itself, whose interleavings are explicit steps. Numbers that the
-- program keeps nonnegative are natural numbers, times are microseconds. Records of published
-- events do not expire. What an operator's script (scripts/requeue_failed_meeting_chunks.py) writes to a
-- chunk is left out. Lower-casing is that of ASCII. Tokenizer and
-- overlap trimming (services/conversation/transcript.py) are arguments of the windows, and so is the
-- name of an object in the audio bucket (services/storage/s3_audio_storage.py) for a chunk that is sent
-- again. A lost
-- connection is among the answers of Redis and not among those of MongoDB. The other services, the
-- gateway and the scripts are prompts, clients of outside services and glue, or await a later model.
pub mod Base
pub mod Redis
pub mod Lease
pub mod Stt
pub mod Conversation
pub mod Stream
pub mod Windowing
pub mod Mongo
pub mod Fence
pub mod Dispatch
pub mod Chunking
pub mod Broker
pub mod Publish
pub mod Quota
pub mod Migration
pub mod Extraction
pub mod Evidence
pub mod Fallback
