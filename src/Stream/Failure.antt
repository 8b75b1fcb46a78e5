-- ===== src/Stream/Failure.antt =====
-- `_handle_failure`: a message that failed is retried or dead-lettered, and then acknowledged.
pub mod Delivery
use ai_buddy_app_agent_baken.Base.{
  ℕ, suc, Bool, true, false, ◌||◌, Option, none, some, List, ◌∷◌, Text, leb, if◌then◌else◌,
}
use ai_buddy_app_agent_baken.Redis.{Redis}
use ai_buddy_app_agent_baken.Lease.World.{World, added, send, emit}
use ai_buddy_app_agent_baken.Stream.Config.{
  Envelope, Failure, cancelled, stale_ownership, leave_pending, non_retryable, other, Entry,
  retry_later, requeued, dead_letter, dead_raw, retry_of, Consumer, ack_and_cleanup,
}

abbrev pub is_non_retryable : Failure → Bool
is_non_retryable non_retryable = true
is_non_retryable _ = false

-- `isinstance(error, NonRetryableQueueError) or event.attempt >= self.max_retries`
abbrev pub gives_up : ℕ → Envelope → Failure → Bool
gives_up max_retries e error = is_non_retryable error || leb max_retries e.attempt

module _ {R : Redis} (k : Consumer R) where
  abbrev pub retry_entry : Envelope → Entry
  retry_entry e = if k.uses_default_redis then retry_later (retry_of e) else requeued (retry_of e)

  -- The acknowledgement comes only after the write has succeeded.
  abbrev pub ack_after :
      (message_id : Text) → Option (Unit {0}) × World R Entry → Option (Unit {0}) × World R Entry
  ack_after message_id (none, w) = (none, w)
  ack_after message_id (some done, w) = ack_and_cleanup k message_id w

  abbrev pub notify :
      Envelope → Option (Unit {0}) × World R Entry → Option (Unit {0}) × World R Entry
  notify e (none, w) = (none, w)
  notify e (some done, w) = (some tt, k.on_dead_letter e w)

  abbrev pub fail_envelope :
      (message_id : Text) → Failure → Envelope → World R Entry → Option (Unit {0}) × World R Entry
  fail_envelope message_id error e w =
      if gives_up k.max_retries e error
      then notify e (ack_after message_id (send (emit (added (dead_letter e))) w))
      else ack_after message_id (send (emit (added (retry_entry e))) w)

  abbrev pub fail_decoded :
      (message_id raw : Text)
      → Failure
      → Option Envelope
      → World R Entry
      → Option (Unit {0}) × World R Entry
  fail_decoded message_id raw error none w =
      ack_after message_id (send (emit (added (dead_raw raw))) w)
  fail_decoded message_id raw error (some e) w = fail_envelope message_id error e w

  -- `none`: an exception leaves the handler.
  unfoldable pub handle_failure :
      (message_id raw : Text) → Failure → World R Entry → Option (Unit {0}) × World R Entry
  unfolding ack_and_cleanup
  handle_failure message_id raw error w = fail_decoded message_id raw error (k.decode raw) w
