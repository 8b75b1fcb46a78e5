-- ===== src/Publish/Once.antt =====
-- Of all calls for an event one announces it at most.
use ai_buddy_app_agent_baken.Base.{
  ℕ, ◌+◌, ◌≤◌, ◌≡◌, inl, inr, refl, sym, subst, Bool, Bool-cases, true, false, Option, none, some,
  List, [], ◌∷◌, ◌&&◌, ◌||◌, ltb, length, ap, Text, text_eq, text_eq_iff, text_eq_refl, All,
  if◌then◌else◌, arith,
}
use ai_buddy_app_agent_baken.Broker.{Broker}
use ai_buddy_app_agent_baken.Publish.{
  Submission, Outcome, Line, answered, unsent, unanswered, atomic_publish,
}
use ai_buddy_app_agent_baken.Publish.Script.{Decoded, differs}
use ai_buddy_app_agent_baken.Publish.Promise.{Apart, told, Promised, atomic_publish-announce}
use ai_buddy_app_agent_baken.Publish.Board.{
  Board, Verdict, first_time, turned_away, unheard, known_in, board_of, announced, announce_known,
  announce,
}

abbrev pub is_first : Verdict → Bool
is_first first_time = true
is_first _ = false

-- Whether a queue has grown.
abbrev pub grew : Text → Board → Board → Bool
grew queue before after = ltb (length (before.contents queue)) (length (after.contents queue))

abbrev pub hits : Text → Text → Bool → ℕ
hits event_id other is_announced = if text_eq event_id other && is_announced then 1 else 0

-- One call: what it returned or raised, and whether the queue of the event grew by it.
pub record Publication : Type 0 where
  pub event_id : Text
  pub outcome : Outcome
  pub has_grown : Bool

-- How often an event is announced: by a call that says so, or that makes the queue grow.
abbrev pub announcements : Text → List Publication → ℕ
announcements event_id [] = 0
announcements event_id (p ∷ rest) =
    hits event_id p.event_id (is_first (told p.outcome) || p.has_grown)
    + announcements event_id rest

abbrev pub weight : Option (Option Text) → ℕ
weight none = 0
weight (some f) = 1

weight-le : (o : Option (Option Text)) → weight o ≤ 1
weight-le none = omega arith
weight-le (some f) = omega arith

announced-weight :
    (s : Submission) (b : Board) (event_id : Text) (is_announced : Bool)
    → b.known s.event_id ≡ none
    → hits event_id s.event_id is_announced + weight (b.known event_id)
      ≤ weight ((announced s b).known event_id)
announced-weight s b event_id is_announced new = elim (Bool-cases (text_eq event_id s.event_id)) [
  | inl same ↦
      rw ((text_eq_iff event_id s.event_id).0 same, new, text_eq_refl s.event_id) (ground arith)
  | inr distinct ↦ rw distinct (omega arith)
]

unmoved :
    (event_id other : Text) (is_announced : Bool) (n : ℕ)
    → is_announced ≡ false
    → hits event_id other is_announced + n ≤ n
unmoved event_id other is_announced n h = ground arith

quiet : (u : Bool) (queue : Text) (b : Board) → u ≡ false → (u || grew queue b b) ≡ false
quiet u queue b h = ground arith

not-seen : (u v : Bool) → (u ≡ true → v ≡ true) → v ≡ false → u ≡ false
not-seen true v h e = cc (h refl)
not-seen false v h e = refl

-- `u` is what the caller is told, which is the first announcement only where it is one.
announce_known-weight :
    (s : Submission) (b : Board) (known : Option (Option Text)) (event_id : Text) (u : Bool)
    → b.known s.event_id ≡ known
    → (u ≡ true → is_first (announce_known known s b).0 ≡ true)
    → let b' = (announce_known known s b).1 in
      hits event_id s.event_id (u || grew s.queue b b') + weight (b.known event_id)
      ≤ weight (b'.known event_id)
announce_known-weight s b none event_id u e h = announced-weight s b event_id _ e
announce_known-weight s b (some old) event_id u e h =
    elim (Bool-cases (differs old s.fingerprint)) [
      | inl other ↦
          let silent : u ≡ false = not-seen u _ h (rw other refl) in
          rw other (unmoved event_id s.event_id _ _ (quiet u s.queue b silent))
      | inr same ↦
          let silent : u ≡ false = not-seen u _ h (rw same refl) in
          rw same (unmoved event_id s.event_id _ _ (quiet u s.queue b silent))
    ]

module _ (decode : Text → Decoded) (B : Broker) where
  open B use {Db, view}

  -- A sequence of calls, each with what becomes of its command.
  unfoldable pub publish_all : (ttl : ℕ) → List (Line × Submission) → Db → List Publication
  unfolding atomic_publish
  publish_all ttl [] db = []
  publish_all ttl ((line, s) ∷ calls) db =
      let (outcome, db') = atomic_publish decode B ttl line s db in
      record {
        event_id = s.event_id;
        outcome = outcome;
        has_grown = grew s.queue (board_of (view db)) (board_of (view db'));
      }
      ∷ publish_all ttl calls db'

  -- What one call adds to the count, and what it makes known.
  abbrev Counted : Text → Submission → Db → Verdict × Db → Type 0
  Counted event_id s db (v, db') =
      hits event_id s.event_id
          (is_first v || grew s.queue (board_of (view db)) (board_of (view db')))
        + weight (known_in (view db) event_id)
      ≤ weight (known_in (view db') event_id)

  same-Counted :
      (event_id : Text) (s : Submission) (db : Db) (v : Verdict)
      → is_first v ≡ false
      → Counted event_id s db (v, db)
  same-Counted event_id s db v h =
      unmoved event_id s.event_id _ _ (quiet (is_first v) s.queue (board_of (view db)) h)

  board-Counted :
      (event_id : Text) (s : Submission) (db db' : Db) (v : Verdict)
      → (is_first v ≡ true → is_first (announce s (board_of (view db))).0 ≡ true)
      → board_of (view db') ≡ (announce s (board_of (view db))).1
      → Counted event_id s db (v, db')
  board-Counted event_id s db db' v h follows =
      subst
        (λ (b : Board).
          hits event_id s.event_id (is_first v || grew s.queue (board_of (view db)) b)
            + weight (known_in (view db) event_id)
          ≤ weight (b.known event_id))
        (sym follows) (announce_known-weight s (board_of (view db)) _ event_id (is_first v) refl h)

  Promised-Counted :
      (line : Line) (event_id : Text) (s : Submission) (db : Db) (r : Outcome × Db)
      → Promised decode B line s db r
      → Counted event_id s db (told r.0, r.1)
  Promised-Counted answered event_id s db r (inl (verdict, same)) =
      rw (verdict, same) (same-Counted event_id s db turned_away refl)
  Promised-Counted answered event_id s db r (inr follows) =
      board-Counted event_id s db r.1 (told r.0)
        (λ h. rw (sym (ap (λ (p : Verdict × Board). p.0) follows)) h)
        (ap (λ (p : Verdict × Board). p.1) follows)
  Promised-Counted unsent event_id s db r (verdict, same) =
      rw (verdict, same) (same-Counted event_id s db unheard refl)
  Promised-Counted unanswered event_id s db r (verdict, inl same) =
      rw (verdict, same) (same-Counted event_id s db unheard refl)
  Promised-Counted unanswered event_id s db r (verdict, inr follows) =
      rw verdict (board-Counted event_id s db r.1 unheard (λ h. cc) follows)

  -- Over a server on which records do not expire, and with queues and speech records apart from the
  -- dedupe records: of all calls for one event, with commands that are not sent and answers that are
  -- lost among them, and whatever calls for other events lie between, at most one announces it, by
  -- saying so or by making its queue grow, and none does if it is known before.
  pub publish_all-once :
      (ttl : ℕ) (calls : List (Line × Submission)) (db : Db) (event_id : Text)
      → All (λ (c : Line × Submission). Apart c.1) calls
      → announcements event_id (publish_all ttl calls db) + weight (known_in (view db) event_id) ≤ 1
  unfolding publish_all
  publish_all-once ttl [] db event_id apart = omega (arith, weight-le (known_in (view db) event_id))
  publish_all-once ttl ((line, s) ∷ calls) db event_id apart =
      let r = atomic_publish decode B ttl line s db in
      omega (
        arith,
        publish_all-once ttl calls r.1 event_id apart.1,
        Promised-Counted line event_id s db r
            (atomic_publish-announce decode B ttl line s db apart.0),
      )
