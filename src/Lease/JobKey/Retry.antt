-- ===== src/Lease/JobKey/Retry.antt =====
-- The key of a retry: the relay publishes the same work under a new event id.
use ai_buddy_app_agent_baken.Base.{
  ◌≡◌, ◌≢◌, refl, Bool, true, false, ◌&&◌, ◌||◌, not, [], ◌∷◌, Text, codes, starts_with, arith,
}
use ai_buddy_app_agent_baken.Lease.Fields.{Value, field, clean}
use ai_buddy_app_agent_baken.Lease.JobKey.{
  Event, or_text, filled, kind_of, conversation_of, sequence_of, stamp, with_generation,
  conversation_key, briefing_key, chunk_key, logical_job_key,
}

abbrev pub with_event_id : Event → Value → Event
with_event_id e x = record e { event_id = x }

or_text-filled : (a b c : Text) → a ≢ [] → or_text a b ≡ or_text a c
or_text-filled [] b c h = absurd (h refl)
or_text-filled (x ∷ a) b c h = refl

module _ (e : Event) (x : Value) (dated : field e.created_at ≢ []) where
  stamp-eq : stamp (with_event_id e x) ≡ stamp e
  unfolding stamp
  stamp-eq = or_text-filled (field e.created_at) (field x) (field e.event_id) dated

  with_generation-eq :
      (kind base : Text)
      → with_generation kind base (with_event_id e x) ≡ with_generation kind base e
  unfolding with_generation
  with_generation-eq kind base =
      rw (or_text-filled (field e.created_at) (field x) (field e.event_id) dated) refl

  briefing_key-eq : (kind : Text) → briefing_key kind (with_event_id e x) ≡ briefing_key kind e
  unfolding briefing_key
  briefing_key-eq kind =
      rw (or_text-filled (field e.created_at) (field x) (field e.event_id) dated) refl

  kind_of-eq : kind_of (with_event_id e x) ≡ kind_of e
  unfolding kind_of
  kind_of-eq = refl

  conversation_of-eq : conversation_of (with_event_id e x) ≡ conversation_of e
  unfolding conversation_of
  conversation_of-eq = refl

  sequence_of-eq : sequence_of (with_event_id e x) ≡ sequence_of e
  unfolding sequence_of
  sequence_of-eq = refl

  chunk_key-eq : (kind : Text) → chunk_key kind (with_event_id e x) ≡ chunk_key kind e
  unfolding chunk_key
  chunk_key-eq kind = refl

  conversation_key-eq :
      (kind : Text)
      → filled (conversation_of e) ≡ true
      → starts_with kind (codes "conversation.") ≡ true
      → conversation_key kind (with_event_id e x) ≡ conversation_key kind e
  unfolding conversation_key
  conversation_key-eq kind has serial =
      rw (conversation_of-eq, sequence_of-eq, chunk_key-eq kind, with_generation-eq, has, serial)
        (ground arith)

-- What gives a job an identity of its own: a job id outside the conversation types, a window, a
-- mindmap, a document, or the conversation of a conversation type.
abbrev pub identified : Event → Bool
identified e =
    let conversational = starts_with (kind_of e) (codes "conversation.") in
    (filled (clean (e.payload "jobId")) && not conversational)
    || filled (clean (e.payload "windowId"))
    || filled (clean (e.payload "mindmapId"))
    || filled (clean (e.payload "documentId"))
    || (filled (conversation_of e) && conversational)

not-goal_of_conversation :
    (kind : Text)
    → starts_with kind (codes "conversation.") ≡ true
    → starts_with kind (codes "goal.") ≡ false
unfolding starts_with
not-goal_of_conversation [] h = cc
not-goal_of_conversation (c ∷ cs) h = ground arith

-- A dated event with an identity keeps its logical key under any new event id.
pub retry_keeps_key :
    (e : Event) (x : Value)
    → field e.created_at ≢ []
    → identified e ≡ true
    → logical_job_key (with_event_id e x) ≡ logical_job_key e
unfolding logical_job_key
retry_keeps_key e x dated known =
    rw (kind_of-eq e x dated, with_generation-eq e x dated, briefing_key-eq e x dated)
      (ground
        (arith, conversation_key-eq e x dated (kind_of e), not-goal_of_conversation (kind_of e)))
