-- ===== src/Publish/Promise.antt =====
-- What a call of `atomic_publish` promises, whatever becomes of its command.
use ai_buddy_app_agent_baken.Base.{
  ℕ, ◌≡◌, ◌⊎◌, inl, inr, refl, true, false, Option, none, some, ap, Text, codes, text_eq, contains,
  starts_with, if-either, if◌then◌else◌, arith,
}
use ai_buddy_app_agent_baken.Broker.{Broker, Kind}
use ai_buddy_app_agent_baken.Publish.{
  Submission, call_of, Outcome, done, payload_conflict, cutover_locked, redis_error,
  connection_error, outcome_of, Line, answered, unsent, unanswered, received, atomic_publish,
  dedupe_prefix,
}
use ai_buddy_app_agent_baken.Publish.Script.{
  Decoded, Reply, publish, published, duplicate, conflict, refused, is_hash,
}
use ai_buddy_app_agent_baken.Publish.Effects.{Ran, rejected, clashed, repeated, fresh, publish-Ran}
use ai_buddy_app_agent_baken.Publish.Board.{
  Board, Verdict, first_time, seen_before, clash, turned_away, unheard, verdict_of, fingerprint_of,
  board_of, announce, apart-dedupe_key, Filled-board, Fresh-board,
}

-- Neither the queue nor the speech record lies where the dedupe records lie.
abbrev pub Apart : Submission → Type 0
Apart s =
    (starts_with s.queue dedupe_prefix ≡ false)
    × (starts_with s.speech_job_key dedupe_prefix ≡ false)

speech_key-apart :
    (ttl : ℕ) (s : Submission)
    → Apart s
    → starts_with (call_of ttl s).speech_key dedupe_prefix ≡ false
unfolding call_of starts_with
speech_key-apart ttl s apart =
    if-either (λ (k : Text). starts_with k dedupe_prefix ≡ false) _ s.speech_job_key
      (codes "queue_api:speech-meta:unused") (λ _. apart.1) (λ _. refl)

fingerprint_hash : (k : Kind) (f : Option Text) → is_hash k ≡ true → fingerprint_of k f ≡ some f
fingerprint_hash k f h = ground arith

fingerprint_other : (k : Kind) (f : Option Text) → is_hash k ≡ false → fingerprint_of k f ≡ none
fingerprint_other k f h = ground arith

-- The verdict that the outcome tells.
abbrev pub told : Outcome → Verdict
told (done outcome id queue) =
    if text_eq outcome (codes "published") then first_time else seen_before
told payload_conflict = clash
told cutover_locked = turned_away
told redis_error = turned_away
told connection_error = unheard

pub told-outcome_of : (r : Reply) → told (outcome_of r) ≡ verdict_of r
unfolding text_eq
told-outcome_of (published id queue) = refl
told-outcome_of (duplicate id queue) = refl
told-outcome_of (conflict id queue) = refl
told-outcome_of (refused error) =
    if-either (λ (o : Outcome). told o ≡ turned_away)
      (contains error (codes "speech-vector-export-locked")) cutover_locked redis_error (λ _. refl)
      (λ _. refl)

module _ (decode : Text → Decoded) (B : Broker) where
  open B use {Db, view}

  abbrev pub seen : Reply × Db → Verdict × Board
  seen r = (verdict_of r.0, board_of (view r.1))

  Ran-Follows :
      (ttl : ℕ) (s : Submission) (db : Db) (r : Reply × Db)
      → Apart s
      → Ran decode B (call_of ttl s) db r
      → ((verdict_of r.0 ≡ turned_away) × (r.1 ≡ db)) ⊎ (seen r ≡ announce s (board_of (view db)))
  unfolding call_of
  Ran-Follows ttl s db r apart (rejected error e) = inl (rw e refl, rw e refl)
  Ran-Follows ttl s db r apart (clashed id queue known other e) =
      inr (rw (e, fingerprint_hash _ _ known, other) refl)
  Ran-Follows ttl s db r apart (repeated id queue known same e filled) = inr (
      rw
        (
          e,
          fingerprint_hash _ _ known,
          same,
          Filled-board decode B (call_of ttl s) db r.1 (speech_key-apart ttl s apart) filled,
        )
        refl)
  Ran-Follows ttl s db r apart (fresh new f) = inr (
      rw
        (
          f.answer,
          fingerprint_other _ _ new,
          Fresh-board decode B ttl s db r apart.0 (speech_key-apart ttl s apart) f,
        )
        refl)

  -- Redis answers with an error other than a conflict, and the database is as before.
  abbrev pub TurnedAway : Db → Outcome × Db → Type 0
  TurnedAway db r = (told r.0 ≡ turned_away) × (r.1 ≡ db)

  -- What a call promises.
  abbrev pub Promised : Line → Submission → Db → Outcome × Db → Type 0
  Promised answered s db r =
      TurnedAway db r ⊎ ((told r.0, board_of (view r.1)) ≡ announce s (board_of (view db)))
  Promised unsent s db r = (told r.0 ≡ unheard) × (r.1 ≡ db)
  Promised unanswered s db r =
      (told r.0 ≡ unheard)
      × ((r.1 ≡ db) ⊎ (board_of (view r.1) ≡ (announce s (board_of (view db))).1))

  received-Promised :
      (line : Line) (ttl : ℕ) (s : Submission) (db : Db) (r : Reply × Db)
      → ((verdict_of r.0 ≡ turned_away) × (r.1 ≡ db)) ⊎ (seen r ≡ announce s (board_of (view db)))
      → Promised line s db (received decode B line r db)
  received-Promised answered ttl s db r ran = rw (told-outcome_of r.0) ran
  received-Promised unsent ttl s db r ran = (refl, refl)
  received-Promised unanswered ttl s db r (inl (verdict, same)) = (refl, inl same)
  received-Promised unanswered ttl s db r (inr follows) =
      (refl, inr (ap (λ (p : Verdict × Board). p.1) follows))

  -- With the queue and the speech record apart from the dedupe records. Where Redis answers, the call
  -- raises an error other than a conflict and leaves the database as it is, or tells what the
  -- specification tells and changes the board as it does. Where the command is not sent, the call
  -- raises and changes nothing. Where the answer is lost, it raises, and the database is as before or
  -- the board has changed as the specification says.
  pub atomic_publish-announce :
      (ttl : ℕ) (line : Line) (s : Submission) (db : Db)
      → Apart s
      → Promised line s db (atomic_publish decode B ttl line s db)
  unfolding atomic_publish call_of
  atomic_publish-announce ttl line s db apart =
      let r = publish decode B (call_of ttl s) db in
      received-Promised line ttl s db r (
        Ran-Follows ttl s db r apart
          (publish-Ran decode B (call_of ttl s) db (apart-dedupe_key s.queue s.event_id apart.0)))
