-- ===== src/Lease/KeyExamples.antt =====
-- The theorems on keys, record texts, the twin and the heartbeat at small inputs.
use ai_buddy_app_agent_baken.Base.{
  ◌≡◌, ◌≢◌, ◌≤◌, refl, true, [], codes, text_eq, if◌then◌else◌, All, length,
}
use ai_buddy_app_agent_baken.Lease.Codec.{split, lua_split, lua_split-eq-split}
use ai_buddy_app_agent_baken.Lease.Fields.{
  null, text, IsPlain, field, field_to, field_to_lem, clean,
}
use ai_buddy_app_agent_baken.Lease.JobKey.{Event, kind_of, logical_job_key}
use ai_buddy_app_agent_baken.Lease.JobKey.Kinds.{same_key_same_kind}
use ai_buddy_app_agent_baken.Lease.JobKey.Retry.{with_event_id, identified, retry_keeps_key}

field_to_lem_example :
    All IsPlain (field_to 3 (text (codes " a|b\nc ")))
    × (length (field_to 3 (text (codes " a|b\nc "))) ≤ 3)
field_to_lem_example = field_to_lem 3 (text (codes " a|b\nc "))

-- A window of a conversation; the retry carries the event id "e2".
abbrev window : Event
window = record {
  event_id = text (codes "e1");
  event_type = text (codes "conversation.window.requested");
  user_id = text (codes "u");
  conversation_id = text (codes "c");
  created_at = text (codes "2026-01-01T00:00:00+00:00");
  payload = λ key. if text_eq (codes key) (codes "windowId") then text (codes "w1") else null;
}

window_stamp : field window.created_at ≡ codes "2026-01-01T00:00:00+00:00"
unfolding field clean text_eq
window_stamp = refl

window_dated : field window.created_at ≢ []
window_dated e = cc window_stamp

window-identified : identified window ≡ true
unfolding clean text_eq
window-identified = refl

retry_keeps_key_example :
    logical_job_key (with_event_id window (text (codes "e2"))) ≡ logical_job_key window
retry_keeps_key_example = retry_keeps_key window (text (codes "e2")) window_dated window-identified

same_key_same_kind_example : kind_of (with_event_id window (text (codes "e2"))) ≡ kind_of window
same_key_same_kind_example =
    same_key_same_kind (with_event_id window (text (codes "e2"))) window retry_keeps_key_example

lua_split-eq-split_example : lua_split (codes "v1|w||7") ≡ split (codes "v1|w||7")
lua_split-eq-split_example = lua_split-eq-split (codes "v1|w||7")
