-- ===== src/Stream/Process.antt =====
-- `_process_message`: claims the logical job of a message, runs the handler, and settles the message.
pub mod Settlement
use ai_buddy_app_agent_baken.Base.{
  ℕ, Bool, true, false, ◌||◌, ◌&&◌, not, Option, none, some, List, ◌∷◌, Text, codes, if◌then◌else◌,
}
use ai_buddy_app_agent_baken.Redis.{Redis}
use ai_buddy_app_agent_baken.Lease.World.{World}
use ai_buddy_app_agent_baken.Lease.Client.{
  Lease, Decision, Result, ok, err, gone, lose, uncertain, acquire_lease, renew_lease,
  release_lease, remember_completion, preserve_pending_delivery,
}
use ai_buddy_app_agent_baken.Stream.Config.{
  Envelope, Failure, cancelled, stale_ownership, leave_pending, non_retryable, other, Entry,
  Consumer, ack_and_cleanup,
}
use ai_buddy_app_agent_baken.Stream.Failure.{handle_failure}

-- How the handler ends.
pub data Handled : Type 0 where
  returned : Handled
  raised : Failure → Handled

-- How `_process_message` ends: it returns, or an exception leaves it.
pub data Ended : Type 0 where
  finished : Ended
  propagated : Failure → Ended

module _ {R : Redis} (k : Consumer R) where
  abbrev W : Type 0
  W = World R Entry

  abbrev pub ended : {A W : Type 0} → Option A × W → Ended × W
  ended (none, w) = (propagated other, w)
  ended (some done, w) = (finished, w)

  abbrev pub attach : Lease → Ended × W → Ended × Lease × W
  attach lease (end, w) = (end, lease, w)

  -- `except Exception`: a lost lease ends quietly, any other failure is handled.
  abbrev pub on_exception : (message_id raw : Text) → Failure → Lease → W → Ended × Lease × W
  on_exception message_id raw error lease w =
      if lease.lost
      then (finished, lease, w)
      else attach lease (ended (handle_failure k message_id raw error w))

  abbrev pub on_failure : (message_id raw : Text) → Failure → Lease → W → Ended × Lease × W
  on_failure message_id raw cancelled lease w =
      (propagated cancelled, lose (codes "cancelled") lease, w)
  on_failure message_id raw leave_pending lease w =
      (finished, lease, preserve_pending_delivery message_id w)
  on_failure message_id raw stale_ownership lease w = (finished, record lease { lost = true }, w)
  on_failure message_id raw error lease w = on_exception message_id raw error lease w

  abbrev pub acknowledged :
      (message_id raw : Text) → Lease → Option (Unit {0}) × W → Ended × Lease × W
  acknowledged message_id raw lease (none, w) = on_exception message_id raw other lease w
  acknowledged message_id raw lease (some done, w) = (finished, lease, w)

  abbrev pub if_remembered : (message_id raw : Text) → Bool × Lease × W → Ended × Lease × W
  if_remembered message_id raw (false, lease, w) = (finished, lease, w)
  if_remembered message_id raw (true, lease, w) =
      acknowledged message_id raw lease (ack_and_cleanup k message_id w)

  -- The answer of `_still_owned`: a failed renewal loses the lease.
  abbrev pub if_owned : (message_id raw : Text) → Result Bool × Lease × W → Ended × Lease × W
  if_owned message_id raw (err e, lease, w) = (finished, lose uncertain lease, w)
  if_owned message_id raw (ok false, lease, w) = (finished, lease, w)
  if_owned message_id raw (ok true, lease, w) =
      if lease.settled
      then if_remembered message_id raw (remember_completion k.settings lease w)
      else acknowledged message_id raw lease (ack_and_cleanup k message_id w)

  -- What follows the handler, inside the `try`.
  unfoldable pub after_handler :
      (message_id raw : Text) → (now : ℕ) → Handled × Lease × W → Ended × Lease × W
  unfolding renew_lease remember_completion ack_and_cleanup handle_failure preserve_pending_delivery
  after_handler message_id raw now (returned, lease, w) =
      if lease.lost
      then (finished, lease, w)
      else if_owned message_id raw (renew_lease k.settings lease now w)
  after_handler message_id raw now (raised error, lease, w) =
      on_failure message_id raw error lease w

  -- The `finally` block: the lease is released unless it is lost.
  unfoldable pub finally_release : Ended × Lease × W → Ended × W
  unfolding release_lease
  finally_release (end, lease, w) =
      if gone lease then (end, w) else (end, (release_lease k.settings lease w).1)

  module _ (handler : Envelope → Lease → W → Handled × Lease × W) where
    abbrev pub on_decision :
        (message_id raw : Text) → (later : ℕ) → Envelope → Result Decision × W → Ended × W
    on_decision message_id raw later e (err error, w) = (finished, w)
    on_decision message_id raw later e (ok (Decision.busy owner token), w) =
        (finished, preserve_pending_delivery message_id w)
    on_decision message_id raw later e (ok (Decision.duplicate owner token), w) =
        (finished, preserve_pending_delivery message_id w)
    on_decision message_id raw later e (ok Decision.completed, w) =
        ended (ack_and_cleanup k message_id w)
    on_decision message_id raw later e (ok (Decision.run lease), w) =
        finally_release (after_handler message_id raw later (handler e lease w))

    abbrev pub process_decoded :
        (message_id raw : Text) → (now later : ℕ) → Option Envelope → W → Ended × W
    process_decoded message_id raw now later none w =
        ended (handle_failure k message_id raw other w)
    process_decoded message_id raw now later (some e) w =
        on_decision message_id raw later e
          (acquire_lease k.settings e.event k.consumer_name message_id e.attempt now w)

    -- `handler` is the worker's callback with all that the heartbeat does beside it; `now` and
    -- `later` are the clock at the claim and at the check of ownership.
    unfoldable pub process_message : (message_id raw : Text) → (now later : ℕ) → W → Ended × W
    process_message message_id raw now later w =
        process_decoded message_id raw now later (k.decode raw) w
