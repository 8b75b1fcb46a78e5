-- ===== src/Publish/Effects.antt =====
-- What a call of the script does, case by case: no command fails after the first write.
use ai_buddy_app_agent_baken.Base.{
  ℕ, ◌≤◌, ◌≡◌, ◌≢◌, refl, sym, subst, ◌∙◌, Bool-cases, inl, inr, and-eq-true, true, false, not,
  ◌&&◌, Option, none, some, List, [], ◌∷◌, Text, codes, text_eq, text_eq_iff, if-either, ◌⊎◌, arith,
}
use ai_buddy_app_agent_baken.Base.Decimal.{read_decimal}
use ai_buddy_app_agent_baken.Broker.{
  Broker, Kind, hash, list, stream, takes, hset_view, with_kind, lpush_view, xadd_view,
}
use ai_buddy_app_agent_baken.Publish.Script.{
  Decoded, Call, Reply, published, duplicate, conflict, refused, one, seconds, is_hash, is_absent,
  refusal, write_hash, fill_speech, again, first, recorded, record_of, state_field, push, proceed,
  publish, differs, answer_id, answer_queue,
}
use ai_buddy_app_agent_baken.Publish.Refusal.{Allowed, refusal-Allowed}

module _ (decode : Text → Decoded) where
  module _ (B : Broker) where
    open B use {Db, view, hset, lpush, xadd, expire, hset_lem, lpush_lem, xadd_lem, view-expire}

    -- What filling the speech record does to the database.
    abbrev pub Filled : Call → Db → Db → Type 0
    Filled c db db' =
        (view db' ≡ view db)
        ⊎ ((fs : List (Text × Text)) × (view db' ≡ hset_view c.speech_key fs (view db)))

    absent-takes : (k : Kind) → is_absent k ≡ true → takes hash k ≡ true
    absent-takes k h = ground arith

    write_hash-Filled :
        (c : Call) (fs : List (Text × Text)) (ttl : ℕ) (db : Db)
        → 1 ≤ ttl
        → takes hash ((view db).kind c.speech_key) ≡ true
        → (db' : Db) × (write_hash decode B c.speech_key fs ttl db ≡ some db') × Filled c db db'
    write_hash-Filled c [] ttl db lives fits = (db, refl, inl refl)
    write_hash-Filled c (f ∷ fs) ttl db lives fits =
        let (db', ran, seen) = hset_lem c.speech_key f fs db fits in
        (
          expire c.speech_key ttl db',
          rw ran refl,
          inr (f ∷ fs, view-expire c.speech_key ttl db' lives ∙ seen),
        )

    pub fill_speech-Filled :
        (c : Call) (db : Db)
        → (text_eq c.write_speech one ≡ true → 1 ≤ seconds (read_decimal c.speech_ttl))
        → (db' : Db) × (fill_speech decode B c db ≡ some db') × Filled c db db'
    unfolding fill_speech
    fill_speech-Filled c db lives =
        if-either (λ (o : Option Db). (db' : Db) × (o ≡ some db') × Filled c db db')
          (text_eq c.write_speech one && is_absent ((view db).kind c.speech_key)) _ (some db)
          (λ wanted.
            write_hash-Filled c _ _ db (lives (and-eq-true (text_eq c.write_speech one) _ wanted).0)
              (absent-takes _ (and-eq-true (text_eq c.write_speech one) _ wanted).1))
          (λ _. (db, refl, inl refl))

    expire-Filled :
        (c : Call) (db filled : Db)
        → 1 ≤ seconds (read_decimal c.ttl)
        → Filled c db filled
        → Filled c db (expire c.dedupe (seconds (read_decimal c.ttl)) filled)
    expire-Filled c db filled lives (inl same) = inl (view-expire _ _ filled lives ∙ same)
    expire-Filled c db filled lives (inr (fs, seen)) = inr (fs, view-expire _ _ filled lives ∙ seen)

    -- The push of an allowed call.
    abbrev pub Pushed : Call → Db → Db → Type 0
    Pushed c db db' =
        ((text_eq c.mode (codes "list") ≡ true)
          × (view db' ≡ lpush_view c.queue c.payload (view db)))
        ⊎ ((text_eq c.mode (codes "list") ≡ false)
            × (view db' ≡ xadd_view c.queue c.payload (view db)))

    pub push-Pushed :
        (c : Call) (db : Db)
        → Allowed c (view db)
        → (id : Text) × (db' : Db) × (push decode B c db ≡ some (id, db')) × Pushed c db db'
    push-Pushed c db allowed = elim (Bool-cases (text_eq c.mode (codes "list"))) [
      | inl lists ↦
          let (db', ran, seen) = lpush_lem c.queue c.payload db (allowed.list_fits lists) in
          (codes "list", db', rw (lists, ran) refl, inl (lists, seen))
      | inr streams ↦
          let (id, db', ran, seen) = xadd_lem c.queue c.payload db (allowed.stream_fits streams) in
          (id, db', rw (streams, ran) refl, inr (streams, seen))
    ]

    with_kind_ne :
        (k : Text) (t : Kind) (kinds : Text → Kind) (j : Text)
        → j ≢ k
        → with_kind k t kinds j ≡ kinds j
    with_kind_ne k t kinds j h = ground (arith, text_eq_iff j k)

    Pushed-kind :
        (c : Call) (db db' : Db) (j : Text)
        → j ≢ c.queue
        → Pushed c db db'
        → (view db').kind j ≡ (view db).kind j
    Pushed-kind c db db' j h (inl (mode, seen)) =
        rw seen (with_kind_ne c.queue list (view db).kind j h)
    Pushed-kind c db db' j h (inr (mode, seen)) =
        rw seen (with_kind_ne c.queue stream (view db).kind j h)

    -- A new event that no lock holds back is pushed, recorded, and its speech record filled.
    pub record Fresh (c : Call) (db : Db) (result : Reply × Db) : Type 0 where
      pub id : Text
      pub pushed : Db
      pub marked : Db
      pub push_seen : Pushed c db pushed
      pub mark_seen :
          view marked
          ≡ hset_view c.dedupe (state_field decode B ∷ record_of decode B c id) (view pushed)
      pub fill_seen : Filled c marked result.1
      pub answer : result.0 ≡ published id c.queue

    Pushed-Fresh :
        (c : Call) (db : Db) (id : Text) (pushed : Db)
        → Allowed c (view db)
        → takes hash ((view pushed).kind c.dedupe) ≡ true
        → Pushed c db pushed
        → Fresh c db (recorded decode B c db (some (id, pushed)))
    Pushed-Fresh c db id pushed allowed fits push_seen =
        let (hashed, ran_hash, hash_seen) =
          hset_lem c.dedupe (state_field decode B) (record_of decode B c id) pushed fits in
        let marked = expire c.dedupe (seconds (read_decimal c.ttl)) hashed in
        let (filled, ran_fill, fill_seen) = fill_speech-Filled c marked allowed.speech_ttl_fits in
        rw (ran_hash, ran_fill)
          (record {
            id = id;
            pushed = pushed;
            marked = marked;
            push_seen = push_seen;
            mark_seen = view-expire c.dedupe _ hashed allowed.ttl_fits ∙ hash_seen;
            fill_seen = fill_seen;
            answer = refl;
          })

    pub recorded-Fresh :
        (c : Call) (db : Db)
        → c.dedupe ≢ c.queue
        → Allowed c (view db)
        → Fresh c db (recorded decode B c db (push decode B c db))
    recorded-Fresh c db apart allowed =
        let (id, pushed, ran, push_seen) = push-Pushed c db allowed in
        subst (λ o. Fresh c db (recorded decode B c db o)) (sym ran)
          (Pushed-Fresh c db id pushed allowed
            (rw (Pushed-kind c db pushed c.dedupe apart push_seen) allowed.dedupe_fits) push_seen)

    -- The cases of a call.
    pub data Ran (c : Call) (db : Db) (result : Reply × Db) : Type 0 where
      rejected : (error : Text) → result ≡ (refused error, db) → Ran c db result
      clashed :
          (id queue : Text)
          → is_hash ((view db).kind c.dedupe) ≡ true
          → differs ((view db).field c.dedupe (codes "payloadHash")) c.payload_hash ≡ true
          → result ≡ (conflict id queue, db)
          → Ran c db result
      repeated :
          (id queue : Text)
          → is_hash ((view db).kind c.dedupe) ≡ true
          → differs ((view db).field c.dedupe (codes "payloadHash")) c.payload_hash ≡ false
          → result.0 ≡ duplicate id queue
          → Filled c db result.1
          → Ran c db result
      fresh : is_hash ((view db).kind c.dedupe) ≡ false → Fresh c db result → Ran c db result

    again-Ran :
        (c : Call) (db : Db)
        → Allowed c (view db)
        → is_hash ((view db).kind c.dedupe) ≡ true
        → Ran c db (again decode B c db)
    again-Ran c db allowed known =
        if-either (Ran c db)
          (differs ((view db).field c.dedupe (codes "payloadHash")) c.payload_hash) _ _
          (λ other. clashed (answer_id decode B c db) (answer_queue decode B c db) known other refl)
          (λ same.
            let (filled, ran, seen) = fill_speech-Filled c db allowed.speech_ttl_fits in
            rw ran (
              repeated (answer_id decode B c db) (answer_queue decode B c db) known same refl
                (expire-Filled c db filled allowed.ttl_fits seen)))

    first-Ran :
        (c : Call) (db : Db)
        → c.dedupe ≢ c.queue
        → is_hash ((view db).kind c.dedupe) ≡ false
        → Allowed c (view db)
        → Ran c db (first decode B c db)
    first-Ran c db apart new allowed =
        if-either (Ran c db) (text_eq c.check_lock one && not (is_absent ((view db).kind c.lock))) _
          _ (λ _. rejected (codes "speech-vector-export-locked") refl)
          (λ _. fresh new (recorded-Fresh c db apart allowed))

    proceed-Ran :
        (c : Call) (db : Db) (refusing : Option Text)
        → c.dedupe ≢ c.queue
        → refusal decode c (view db) ≡ refusing
        → Ran c db (proceed decode B refusing c db)
    proceed-Ran c db (some error) apart e = rejected error refl
    proceed-Ran c db none apart e =
        let allowed = refusal-Allowed decode c (view db) e in
        if-either (Ran c db) (is_hash ((view db).kind c.dedupe)) (again decode B c db)
          (first decode B c db) (again-Ran c db allowed) (λ new. first-Ran c db apart new allowed)

    pub publish-Ran : (c : Call) (db : Db) → c.dedupe ≢ c.queue → Ran c db (publish decode B c db)
    unfolding publish
    publish-Ran c db apart = proceed-Ran c db (refusal decode c (view db)) apart refl
