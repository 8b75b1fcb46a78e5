-- ===== src/Stream/Failure/Delivery.antt =====
-- A failed message is never lost: it is acknowledged only behind the write that carries it on.
use ai_buddy_app_agent_baken.Base.{
  ◌≡◌, refl, ap, ◌∙◌, ◌⊎◌, inl, inr, Bool, Bool-cases, true, false, Option, none, some, List, [],
  ◌∷◌, ◌++◌, Text, All, if◌then◌else◌,
}
use ai_buddy_app_agent_baken.Redis.{Redis}
use ai_buddy_app_agent_baken.Lease.World.{
  World, Wire, answered, refused, unanswered, Effect, acked, deleted, added, send, send_by, emit,
}
use ai_buddy_app_agent_baken.Stream.Config.{
  Envelope, Failure, Entry, dead_letter, dead_raw, Consumer, cleaned, ack_and_cleanup,
}
use ai_buddy_app_agent_baken.Stream.Failure.{
  gives_up, retry_entry, ack_after, notify, fail_envelope, fail_decoded, handle_failure,
}

-- What the message becomes: a raw dead letter if it is no envelope, a dead letter if the error is
-- not retryable or the attempts are used up, and else a retry.
abbrev pub carried_as : {R : Redis} → Consumer R → Text → Failure → Option Envelope → Entry
carried_as k raw error none = dead_raw raw
carried_as k raw error (some e) =
    if gives_up k.max_retries e error then dead_letter e else retry_entry k e

-- An effect that settles the message itself.
abbrev pub IsSettling : Text → Effect Entry → Type 0
IsSettling message_id (acked m) = m ≡ message_id
IsSettling message_id (deleted m) = m ≡ message_id
IsSettling message_id _ = ⊥

module _ {R : Redis} where
  abbrev pub Settled : Text → World R Entry → World R Entry → Type 0
  Settled message_id w w' =
      (acks : List (Effect Entry)) × All (IsSettling message_id) acks × (w'.log ≡ acks ++ w.log)

  -- Nothing is written and the caller sees an exception, or `x` is.
  abbrev pub Written :
      {A : Type 0} → Effect Entry → World R Entry → Option A × World R Entry → Type 0
  Written x w r = ((r.0 ≡ none) × (r.1.log ≡ w.log)) ⊎ (r.1.log ≡ x ∷ w.log)

  send_by-Written :
      (x : Effect Entry) (wires : List Wire) (w : World R Entry)
      → Written x w (send_by wires (emit x) w)
  send_by-Written x [] w = inr refl
  send_by-Written x (answered ∷ wires) w = inr refl
  send_by-Written x (refused ∷ wires) w = inl (refl, refl)
  send_by-Written x (unanswered ∷ wires) w = inr refl

  send-Written : (x : Effect Entry) (w : World R Entry) → Written x w (send (emit x) w)
  unfolding send
  send-Written x w = send_by-Written x w.wires w

  module _ (k : Consumer R) (m : Text) where
    deleted-Settled :
        (w w' : World R Entry) (r : Option (Unit {0}) × World R Entry)
        → w'.log ≡ acked m ∷ w.log
        → Written (deleted m) w' r
        → Settled m w r.1
    deleted-Settled w w' r e (inl (_, same_log)) = (acked m ∷ [], (refl, tt), same_log ∙ e)
    deleted-Settled w w' r e (inr longer) =
        (deleted m ∷ acked m ∷ [], (refl, (refl, tt)), longer ∙ ap (λ l. deleted m ∷ l) e)

    cleaned-Settled :
        (delete : Bool) (w : World R Entry) (r : Option (Unit {0}) × World R Entry)
        → Written (acked m) w r
        → Settled m w (cleaned delete m r).1
    cleaned-Settled delete w (none, w') (inl (_, same_log)) = ([], tt, same_log)
    cleaned-Settled delete w (none, w') (inr longer) = (acked m ∷ [], (refl, tt), longer)
    cleaned-Settled false w (some done, w') (inl (failed, _)) = cc
    cleaned-Settled true w (some done, w') (inl (failed, _)) = cc
    cleaned-Settled false w (some done, w') (inr longer) = (acked m ∷ [], (refl, tt), longer)
    cleaned-Settled true w (some done, w') (inr longer) =
        deleted-Settled w w' (send (emit (deleted m)) w') longer (send-Written (deleted m) w')

    pub ack_and_cleanup-Settled : (w : World R Entry) → Settled m w (ack_and_cleanup k m w).1
    unfolding ack_and_cleanup
    ack_and_cleanup-Settled w =
        cleaned-Settled k.delete_after_ack w (send (emit (acked m)) w) (send-Written (acked m) w)

    -- The write fails with nothing on the streams, or it stands and only settling effects follow.
    abbrev pub Carried : Entry → World R Entry → Option (Unit {0}) × World R Entry → Type 0
    Carried entry w r =
        ((r.0 ≡ none) × (r.1.log ≡ w.log))
        ⊎ ((acks : List (Effect Entry)) × All (IsSettling m) acks
            × (r.1.log ≡ acks ++ added entry ∷ w.log))

    settle-Carried :
        (entry : Entry) (w w' : World R Entry) (r : Option (Unit {0}) × World R Entry)
        → w'.log ≡ added entry ∷ w.log
        → Settled m w' r.1
        → Carried entry w r
    settle-Carried entry w w' r e (acks, own, log) = inr (acks, own, log ∙ ap (λ l. acks ++ l) e)

    ack_after-Carried :
        (entry : Entry) (w : World R Entry) (r : Option (Unit {0}) × World R Entry)
        → Written (added entry) w r
        → Carried entry w (ack_after k m r)
    ack_after-Carried entry w (none, w') (inl (_, same_log)) = inl (refl, same_log)
    ack_after-Carried entry w (none, w') (inr longer) = inr ([], tt, longer)
    ack_after-Carried entry w (some done, w') (inl (failed, _)) = cc
    ack_after-Carried entry w (some done, w') (inr longer) =
        settle-Carried entry w w' (ack_and_cleanup k m w') longer (ack_and_cleanup-Settled w')

    module _
        (silent : (e : Envelope) (w : World R Entry) → (k.on_dead_letter e w).log ≡ w.log) where
      notify-Carried :
          (e : Envelope) (entry : Entry) (w : World R Entry) (r : Option (Unit {0}) × World R Entry)
          → Carried entry w r
          → Carried entry w (notify k e r)
      notify-Carried e entry w (none, w') c = c
      notify-Carried e entry w (some done, w') (inl (failed, _)) = cc
      notify-Carried e entry w (some done, w') (inr (acks, own, log)) =
          inr (acks, own, silent e w' ∙ log)

      fail_envelope-Carried :
          (raw : Text) (error : Failure) (e : Envelope) (w : World R Entry)
          → Carried (carried_as k raw error (some e)) w (fail_envelope k m error e w)
      fail_envelope-Carried raw error e w = elim (Bool-cases (gives_up k.max_retries e error)) [
        | inl last ↦ rw last (
            notify-Carried e (dead_letter e) w _ (
              ack_after-Carried (dead_letter e) w (send (emit (added (dead_letter e))) w)
                (send-Written (added (dead_letter e)) w)))
        | inr more ↦ rw more (
            ack_after-Carried (retry_entry k e) w (send (emit (added (retry_entry k e))) w)
              (send-Written (added (retry_entry k e)) w))
      ]

      fail_decoded-Carried :
          (raw : Text) (error : Failure) (decoded : Option Envelope) (w : World R Entry)
          → Carried (carried_as k raw error decoded) w (fail_decoded k m raw error decoded w)
      fail_decoded-Carried raw error none w =
          ack_after-Carried (dead_raw raw) w (send (emit (added (dead_raw raw))) w)
            (send-Written (added (dead_raw raw)) w)
      fail_decoded-Carried raw error (some e) w = fail_envelope-Carried raw error e w

      -- However the Redis commands go, a failed message is carried on by one entry, or an exception
      -- leaves it unacknowledged with nothing written; acknowledgement and deletion come only behind
      -- that entry, and only for this message. The dead-letter callback is taken to write nothing.
      pub handle_failure-Carried :
          (raw : Text) (error : Failure) (w : World R Entry)
          → Carried (carried_as k raw error (k.decode raw)) w (handle_failure k m raw error w)
      unfolding handle_failure
      handle_failure-Carried raw error w = fail_decoded-Carried raw error (k.decode raw) w
