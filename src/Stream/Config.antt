-- ===== src/Stream/Config.antt =====
-- The envelope, the exceptions that matter to a consumer, its settings, and the acknowledgement.
use ai_buddy_app_agent_baken.Base.{ℕ, suc, Bool, true, false, Option, none, some, Text}
use ai_buddy_app_agent_baken.Redis.{Redis}
use ai_buddy_app_agent_baken.Lease.JobKey.{Event}
use ai_buddy_app_agent_baken.Lease.World.{World, acked, deleted, send, emit}
use ai_buddy_app_agent_baken.Lease.Client.{Settings}

-- The fields of an EventEnvelope that the consumer reads.
pub record Envelope : Type 0 where
  pub event : Event
  pub attempt : ℕ

-- The classes of exceptions that the consumer tells apart; `other` is any other Exception, a
-- RedisError too.
pub data Failure : Type 0 where
  cancelled stale_ownership leave_pending non_retryable other : Failure

-- What the consumer writes: to the retry stream, to its own stream, to the dead-letter stream, and
-- there for a text that is no envelope.
pub data Entry : Type 0 where
  retry_later : Envelope → Entry
  requeued : Envelope → Entry
  dead_letter : Envelope → Entry
  dead_raw : Text → Entry

-- `model_copy(update={"attempt": attempt + 1})`
abbrev pub retry_of : Envelope → Envelope
retry_of e = record e { attempt = suc e.attempt }

module _ (R : Redis) where
  -- `decode` is pydantic's `model_validate_json` of the field "event", and `on_dead_letter` what the
  -- callback does: its exceptions are swallowed, and where there is no callback it does nothing.
  pub record Consumer : Type 0 where
    pub consumer_name : Text
    pub max_retries : ℕ
    pub delete_after_ack : Bool
    pub uses_default_redis : Bool
    pub settings : Settings
    pub decode : Text → Option Envelope
    pub on_dead_letter : Envelope → World R Entry → World R Entry

module _ {R : Redis} where
  abbrev pub cleaned :
      Bool → Text → Option (Unit {0}) × World R Entry → Option (Unit {0}) × World R Entry
  cleaned delete_after_ack message_id (none, w) = (none, w)
  cleaned false message_id (some done, w) = (some tt, w)
  cleaned true message_id (some done, w) = (some tt, (send (emit (deleted message_id)) w).1)

  -- `_ack_and_cleanup`: XACK may raise (`none`), and what XDEL raises is swallowed.
  unfoldable pub ack_and_cleanup :
      Consumer R → (message_id : Text) → World R Entry → Option (Unit {0}) × World R Entry
  unfolding send
  ack_and_cleanup k message_id w =
      cleaned k.delete_after_ack message_id (send (emit (acked message_id)) w)
