-- ===== src/Publish/Examples.antt =====
-- The theorems on an event that is published twice.
use ai_buddy_app_agent_baken.Base.{
  ◌≡◌, inr, arith, ◌≤◌, ◌+◌, refl, false, none, List, [], ◌∷◌, Text, codes, starts_with, text_eq,
}
use ai_buddy_app_agent_baken.Base.Decimal.{decimal, read_decimal}
use ai_buddy_app_agent_baken.Broker.Memory.{blank, broker}
use ai_buddy_app_agent_baken.Publish.{
  Submission, Line, answered, unsent, unanswered, atomic_publish,
}
use ai_buddy_app_agent_baken.Publish.Script.{Decoded, scalar}
use ai_buddy_app_agent_baken.Publish.Board.{known_in, announce, board_of}
use ai_buddy_app_agent_baken.Publish.Once.{weight, announcements, publish_all, publish_all-once}
use ai_buddy_app_agent_baken.Publish.Accepted.{IsAcceptable, accepted_announce}
use ai_buddy_app_agent_baken.Publish.Promise.{Apart, told, Promised, atomic_publish-announce}

abbrev decode : Text → Decoded
decode json = scalar

abbrev submission : Submission
submission = record {
  event_id = codes "e1";
  queue = codes "stream:goals";
  mode = codes "stream";
  payload = codes "plan";
  fingerprint = codes "f1";
  correlation_id = codes "c1";
  check_export_lock = false;
  speech_job_key = [];
  speech_fields = none;
  speech_job_ttl = 0;
}

submission-Apart : Apart submission
unfolding starts_with
submission-Apart = (refl, refl)

-- The reply of the script is lost.
atomic_publish-announce_example :
    Promised decode broker unanswered submission blank
      (atomic_publish decode broker 86400 unanswered submission blank)
atomic_publish-announce_example =
    atomic_publish-announce decode broker 86400 unanswered submission blank submission-Apart

-- An empty server, on which nothing is locked.
submission-IsAcceptable : IsAcceptable submission blank
unfolding text_eq
submission-IsAcceptable = record {
  no_speech = refl;
  full = refl;
  known_mode = inr (refl, refl);
  record_fits = refl;
  unlocked = refl;
}

accepted_announce_example :
    let r = atomic_publish decode broker 86400 answered submission blank in
    (told r.0, board_of r.1) ≡ announce submission (board_of blank)
accepted_announce_example =
    accepted_announce decode broker 86400 submission blank submission-Apart (omega arith)
      submission-IsAcceptable

-- The first command is not sent, the reply to the second is lost, and the third is a duplicate.
abbrev calls : List (Line × Submission)
calls = (unsent, submission) ∷ (unanswered, submission) ∷ (answered, submission) ∷ []

publish_all-once_example :
    announcements (codes "e1") (publish_all decode broker 86400 calls blank)
      + weight (known_in blank (codes "e1"))
    ≤ 1
publish_all-once_example =
    publish_all-once decode broker 86400 calls blank (codes "e1")
      (submission-Apart, (submission-Apart, (submission-Apart, tt)))

announced_by_the_lost_reply :
    announcements (codes "e1") (publish_all decode broker 86400 calls blank) ≡ 1
unfolding publish_all text_eq starts_with decimal read_decimal
announced_by_the_lost_reply = refl
