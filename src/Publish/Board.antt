-- ===== src/Publish/Board.antt =====
-- What publishing promises: a board on which each event is announced once.
use mathlib.Core.Path.{fun_ext}
use ai_buddy_app_agent_baken.Base.{
  ℕ, ◌≡◌, ◌≢◌, inl, inr, refl, ap, subst, ◌∙◌, Bool-cases, true, false, Option, none, some, List,
  [], ◌∷◌, ◌++◌, Text, codes, text_eq, text_eq_iff, starts_with, if◌then◌else◌, arith,
}
use ai_buddy_app_agent_baken.Broker.{
  Broker, View, Kind, hash, list, stream, hset_view, lpush_view, xadd_view, with_kind, with_items,
}
use ai_buddy_app_agent_baken.Publish.{Submission, call_of, dedupe_prefix, dedupe_key}
use ai_buddy_app_agent_baken.Publish.Script.{
  Decoded, Call, Reply, published, duplicate, conflict, refused, differs, state_field, record_of,
}
use ai_buddy_app_agent_baken.Publish.Effects.{Filled, Pushed, Fresh}

-- `known` gives the fingerprint under which an event was announced.
pub record Board : Type 0 where
  pub known : Text → Option (Option Text)
  pub contents : Text → List Text

-- `turned_away`: Redis answers with an error; `unheard`: no answer comes.
pub data Verdict : Type 0 where
  first_time seen_before clash turned_away unheard : Verdict

abbrev pub verdict_of : Reply → Verdict
verdict_of (published id queue) = first_time
verdict_of (duplicate id queue) = seen_before
verdict_of (conflict id queue) = clash
verdict_of (refused error) = turned_away

abbrev pub fingerprint_of : Kind → Option Text → Option (Option Text)
fingerprint_of hash f = some f
fingerprint_of _ f = none

abbrev pub known_in : View → Text → Option (Option Text)
known_in v event_id =
    fingerprint_of (v.kind (dedupe_key event_id))
      (v.field (dedupe_key event_id) (codes "payloadHash"))

abbrev pub board_of : View → Board
board_of v = record { known = known_in v; contents = v.items }

-- A list takes the payload at its left end, a stream at its end.
abbrev pub grown : Text → Text → List Text → List Text
grown mode payload items =
    if text_eq mode (codes "list") then payload ∷ items else items ++ payload ∷ []

abbrev pub announced : Submission → Board → Board
announced s b = record {
  known = λ event_id.
      if text_eq event_id s.event_id then some (some s.fingerprint) else b.known event_id;
  contents = with_items s.queue (grown s.mode s.payload (b.contents s.queue)) b.contents;
}

-- The specification.
abbrev pub announce_known : Option (Option Text) → Submission → Board → Verdict × Board
announce_known none s b = (first_time, announced s b)
announce_known (some old) s b = if differs old s.fingerprint then (clash, b) else (seen_before, b)

abbrev pub announce : Submission → Board → Verdict × Board
announce s b = announce_known (b.known s.event_id) s b

not_prefixed : (a b : Text) → starts_with (b ++ a) b ≡ true
unfolding starts_with
not_prefixed a [] = refl
not_prefixed a (c ∷ b) = ground (arith, not_prefixed a b)

pub apart-dedupe_key : (k j : Text) → starts_with k dedupe_prefix ≡ false → dedupe_key j ≢ k
apart-dedupe_key k j h same =
    let found : starts_with k dedupe_prefix ≡ true =
      subst (λ t. starts_with t dedupe_prefix ≡ true) same (not_prefixed j dedupe_prefix) in
    cc

text_eq-append : (p a b : Text) → text_eq (p ++ a) (p ++ b) ≡ text_eq a b
unfolding text_eq
text_eq-append [] a b = refl
text_eq-append (c ∷ p) a b = ground (arith, text_eq-append p a b)

with_kind_ne :
    (k : Text) (t : Kind) (kinds : Text → Kind) (j : Text) → j ≢ k → with_kind k t kinds j ≡ kinds j
with_kind_ne k t kinds j h = ground (arith, text_eq_iff j k)

known_in-other :
    (v v' : View) (j : Text)
    → v'.kind (dedupe_key j) ≡ v.kind (dedupe_key j)
    → v'.field (dedupe_key j) (codes "payloadHash") ≡ v.field (dedupe_key j) (codes "payloadHash")
    → known_in v' j ≡ known_in v j
known_in-other v v' j kinds fields = rw (kinds, fields) refl

hset_view-other :
    (k : Text) (fs : List (Text × Text)) (v : View) (j : Text)
    → dedupe_key j ≢ k
    → known_in (hset_view k fs v) j ≡ known_in v j
hset_view-other k fs v j apart = elim (Bool-cases (text_eq (dedupe_key j) k)) [
  | inl same ↦ absurd (apart ((text_eq_iff (dedupe_key j) k).0 same))
  | inr distinct ↦ rw distinct refl
]

Board-ext :
    (b b' : Board) → ((j : Text) → b.known j ≡ b'.known j) → b.contents ≡ b'.contents → b ≡ b'
Board-ext b b' known contents = λ i. record { known = fun_ext known i; contents = contents i }

module _ (decode : Text → Decoded) (B : Broker) where
  open B use {Db, view}

  pub Filled-board :
      (c : Call) (db db' : Db)
      → starts_with c.speech_key dedupe_prefix ≡ false
      → Filled decode B c db db'
      → board_of (view db') ≡ board_of (view db)
  Filled-board c db db' apart (inl seen) = rw seen refl
  Filled-board c db db' apart (inr (fs, seen)) = rw seen (
      Board-ext _ _
        (λ j. hset_view-other c.speech_key fs (view db) j (apart-dedupe_key c.speech_key j apart))
        refl)

  Pushed-known :
      (c : Call) (db db' : Db) (j : Text)
      → starts_with c.queue dedupe_prefix ≡ false
      → Pushed decode B c db db'
      → known_in (view db') j ≡ known_in (view db) j
  Pushed-known c db db' j apart (inl (mode, seen)) = rw seen (
      known_in-other (view db) (lpush_view c.queue c.payload (view db)) j
        (with_kind_ne c.queue list (view db).kind (dedupe_key j) (apart-dedupe_key c.queue j apart))
        refl)
  Pushed-known c db db' j apart (inr (mode, seen)) = rw seen (
      known_in-other (view db) (xadd_view c.queue c.payload (view db)) j
        (with_kind_ne c.queue stream (view db).kind (dedupe_key j)
          (apart-dedupe_key c.queue j apart))
        refl)

  Pushed-items :
      (c : Call) (db db' : Db)
      → Pushed decode B c db db'
      → (view db').items
        ≡ with_items c.queue (grown c.mode c.payload ((view db).items c.queue)) (view db).items
  Pushed-items c db db' (inl (mode, seen)) = rw (seen, mode) refl
  Pushed-items c db db' (inr (mode, seen)) = rw (seen, mode) refl

  marked-known :
      (c : Call) (id event_id j : Text) (v : View)
      → c.dedupe ≡ dedupe_key event_id
      → known_in (hset_view c.dedupe (state_field decode B ∷ record_of decode B c id) v) j
        ≡ (if text_eq j event_id then some (some c.payload_hash) else known_in v j)
  unfolding text_eq
  marked-known c id event_id j v e = elim (Bool-cases (text_eq j event_id)) [
    | inl same ↦ rw (e, text_eq-append dedupe_prefix j event_id, same) refl
    | inr distinct ↦ rw (e, text_eq-append dedupe_prefix j event_id, distinct) refl
  ]

  pub Fresh-board :
      (ttl : ℕ) (s : Submission) (db : Db) (r : Reply × Db)
      → starts_with s.queue dedupe_prefix ≡ false
      → starts_with (call_of ttl s).speech_key dedupe_prefix ≡ false
      → Fresh decode B (call_of ttl s) db r
      → board_of (view r.1) ≡ announced s (board_of (view db))
  unfolding call_of
  Fresh-board ttl s db r apart_queue apart_speech f =
      let c = call_of ttl s in
      Filled-board c f.marked r.1 apart_speech f.fill_seen
      ∙ Board-ext _ _
          (λ j. rw f.mark_seen (
            marked-known c f.id s.event_id j (view f.pushed) refl
            ∙ ap (λ o. if text_eq j s.event_id then some (some s.fingerprint) else o)
                (Pushed-known c db f.pushed j apart_queue f.push_seen)))
          (rw f.mark_seen (Pushed-items c db f.pushed f.push_seen))
