-- ===== src/Lease/JobKey.antt =====
-- `logical_job_key` and `_with_generation`: the stable identity of a job.
pub mod Kinds
pub mod Retry
use ai_buddy_app_agent_baken.Base.{
  strip, ℕ, ◌≡◌, refl, Bool, true, false, ◌&&◌, ◌||◌, not, List, [], ◌∷◌, ◌++◌, Text, String, codes,
  is_empty, is_one_of, starts_with, contains, text_eq, if◌then◌else◌,
}
use ai_buddy_app_agent_baken.Lease.Fields.{
  Value, null, text, str, is_truthy, lower, clean, field, field_to, truthy,
}

-- The envelope as the key reads it. `payload key` is `payload.get(key)`: null for a missing key and
-- for a payload that is no dict. `created_at` is the ISO text in UTC of a datetime, and else the
-- attribute itself.
pub record Event : Type 0 where
  pub event_id : Value
  pub event_type : Value
  pub user_id : Value
  pub conversation_id : Value
  pub created_at : Value
  pub payload : String → Value

-- `a or b`
abbrev pub or_text : Text → Text → Text
or_text [] b = b
or_text (c ∷ cs) b = c ∷ cs

abbrev pub or_value : Value → Value → Value
or_value a b = if is_truthy a then a else b

abbrev pub filled : Text → Bool
filled t = not (is_empty t)

abbrev pub serial_types : List Text
serial_types =
    codes "conversation.processing.requested"
    ∷ codes "conversation.finalization.requested"
    ∷ codes "conversation.transcript.ready"
    ∷ codes "conversation.schedule_extraction.requested"
    ∷ codes "meeting.video.merge.requested"
    ∷ []

-- `_iso_stamp(event) or _field(event.eventId)`
pub stamp : Event → Text
stamp e = or_text (field e.created_at) (field e.event_id)

pub with_version : Event → Text → Text
with_version e base =
    let version = clean (e.payload "processingVersion") in
    if filled version then base ++ codes "|v:" ++ field (text version) else base

pub with_redo : Event → Text → Text
unfolding stamp
with_redo e base =
    if truthy (e.payload "reprocess")
      || contains (lower (clean (e.payload "source"))) (codes "reprocess")
    then base ++ codes "|redo:" ++ stamp e
    else base

pub with_source : Text → Event → Text → Text
with_source kind e base =
    let source_event = clean (e.payload "sourceEventId") in
    if text_eq kind (codes "conversation.schedule_extraction.requested") && filled source_event
    then base ++ codes "|src:" ++ field (text source_event)
    else base

pub with_generation : Text → Text → Event → Text
unfolding with_version with_redo with_source
with_generation kind base e = with_source kind e (with_redo e (with_version e base))

pub kind_of : Event → Text
kind_of e = or_text (field_to 80 (or_value e.event_type (text (codes "event")))) (codes "event")

pub conversation_of : Event → Text
conversation_of e = clean (or_value (e.payload "conversationId") e.conversation_id)

abbrev pub is_null : Value → Bool
is_null null = true
is_null _ = false

pub sequence_of : Event → Value
sequence_of e =
    if is_null (e.payload "sequenceNumber")
    then e.payload "sequence"
    else e.payload "sequenceNumber"

pub briefing_key : Text → Event → Text
unfolding stamp
briefing_key kind e =
    let base =
      kind
      ++ codes "|user:"
      ++ field (text (clean e.user_id))
      ++ codes "|date:"
      ++ field (text (clean (e.payload "dateKey"))) in
    if truthy (e.payload "forced") then base ++ codes "|force:" ++ stamp e else base

pub goal_key : Text → Event → Text
unfolding conversation_of
goal_key kind e =
    kind
    ++ codes "|goal:"
    ++ field (text (or_text (clean (e.payload "goalId")) (conversation_of e)))
    ++ codes "|job:"
    ++ field (text (or_text (clean (e.payload "jobId")) (clean e.event_id)))

pub chunk_key : Text → Event → Text
unfolding conversation_of sequence_of
chunk_key kind e =
    let chunk = clean (e.payload "chunkId") in
    kind
    ++ codes "|conversation:"
    ++ field (text (conversation_of e))
    ++ codes "|seq:"
    ++ field (sequence_of e)
    ++ (if filled chunk then codes "|chunk:" ++ field (text chunk) else [])

-- The chain of tests from the serial types on.
pub conversation_key : Text → Event → Text
conversation_key kind e =
    let conversation = conversation_of e in
    if is_one_of kind serial_types && filled conversation
    then with_generation kind (kind ++ codes "|conversation:" ++ field (text conversation)) e
    else if not (is_null (sequence_of e))
        && filled conversation
        && filled (strip (str (sequence_of e)))
    then chunk_key kind e
    else if filled conversation && starts_with kind (codes "conversation.")
    then kind ++ codes "|conversation:" ++ field (text conversation)
    else kind ++ codes "|event:" ++ field (or_value e.event_id (text (codes "unknown")))

pub logical_job_key : Event → Text
logical_job_key e =
    let kind = kind_of e in
    let job_id = clean (e.payload "jobId") in
    let window_id = clean (e.payload "windowId") in
    let mindmap_id = clean (e.payload "mindmapId") in
    let document_id = clean (e.payload "documentId") in
    if filled job_id && not (starts_with kind (codes "conversation."))
    then kind ++ codes "|job:" ++ field (text job_id)
    else if filled window_id
    then with_generation kind (kind ++ codes "|window:" ++ field (text window_id)) e
    else if filled mindmap_id
    then kind ++ codes "|mindmap:" ++ field (text mindmap_id)
    else if filled document_id
    then kind ++ codes "|document:" ++ field (text document_id)
    else if filled (clean (e.payload "dateKey"))
        && filled (clean e.user_id)
        && contains kind (codes "briefing")
    then briefing_key kind e
    else if starts_with kind (codes "goal.")
    then goal_key kind e
    else conversation_key kind e
