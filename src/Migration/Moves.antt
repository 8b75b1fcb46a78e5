-- ===== src/Migration/Moves.antt =====
-- What a round of the migration does to the copies of a job.
use ai_buddy_app_agent_baken.Base.{
  ℕ, ◌+◌, ◌≤◌, ◌≡◌, refl, ap, subst, Bool-cases, Option-cases, true, Option, none, some, inl, inr,
  List, [], ◌∷◌, Text, text_eq_refl, is_one_of, arith,
}
use ai_buddy_app_agent_baken.Lease.World.{Wire, answered, refused, unanswered}
use ai_buddy_app_agent_baken.Migration.{
  Route, Next, stopped, LegacyItem, poison, invalid, envelope, as_stream, Session, send, send_by,
  guarded_queue_write, retired, written, pushed, removed, settle_item, on_fetched, on_held,
  read_held, migrate_one,
}
use ai_buddy_app_agent_baken.Migration.Server.{ListServer, last_item}
use ai_buddy_app_agent_baken.Migration.Weights.{
  Apart, last-is_one_of, is_event, parsed_to, copies, weight_of, copies-moved, copies-erased,
  copies-parked, copies-told,
}

-- An interrupted round can leave the job twice.
abbrev pub doubt : Next → ℕ
doubt stopped = 1
doubt _ = 0

parsed_to-le : (event : Text) (p : LegacyItem) → parsed_to event p ≤ 1
parsed_to-le event poison = omega arith
parsed_to-le event invalid = omega arith
parsed_to-le event (envelope e) = ground arith

module _ (S : ListServer) where
  open S use {
    Db, items, lmove, lrem, lpush, xadd, exists_key, lmove_lem, lrem_lem, lpush_lem, xadd_lem,
  }

  send_by-either {ℓ} :
      {A : Type 0} (P : Option A × Session S → Type ℓ) (run : Db → A × Db) (db : Db)
      → ((ws : List Wire) → P (some (run db).0, record { db = (run db).1; wires = ws }))
      → ((ws : List Wire) → P (none, record { db = db; wires = ws }))
      → ((ws : List Wire) → P (none, record { db = (run db).1; wires = ws }))
      → (ws : List Wire) → P (send_by S ws run db)
  send_by-either P run db served lost dropped [] = served []
  send_by-either P run db served lost dropped (answered ∷ ws) = served ws
  send_by-either P run db served lost dropped (refused ∷ ws) = lost ws
  send_by-either P run db served lost dropped (unanswered ∷ ws) = dropped ws

  pub send-either {ℓ} :
      {A : Type 0} (P : Option A × Session S → Type ℓ) (run : Db → A × Db) (w : Session S)
      → ((ws : List Wire) → P (some (run w.db).0, record { db = (run w.db).1; wires = ws }))
      → ((ws : List Wire) → P (none, record { db = w.db; wires = ws }))
      → ((ws : List Wire) → P (none, record { db = (run w.db).1; wires = ws }))
      → P (send S run w)
  unfolding send
  send-either P run w served lost dropped = send_by-either P run w.db served lost dropped w.wires

  module _ (r : Route) (parse : Text → LegacyItem) (apart : Apart r) (event : Text) where
    abbrev pub copies_in : Db → ℕ
    copies_in db = copies r parse event (items db)

    abbrev pub Kept : ℕ → Next × Session S → Type 0
    Kept before (n, w) = (before ≤ copies_in w.db) × (copies_in w.db ≤ before + doubt n)

    abbrev pub Held : Text → Db → Type 0
    Held held db = is_one_of held (items db r.processing) ≡ true

    erased :
        (held : Text) (db : Db)
        → Held held db
        → copies_in (lrem r.processing held db).1 + weight_of r parse event held ≡ copies_in db
    erased held db h =
        rw ((lrem_lem r.processing held db).1) (copies-erased r parse event apart held (items db) h)

    retired-Kept :
        (held : Text) (before : ℕ) (w : Session S)
        → Held held w.db
        → copies_in w.db ≡ before + weight_of r parse event held
        → Kept before (retired S r parse (send S (lrem r.processing held) w))
    retired-Kept held before w h e =
        let gone = erased held w.db h in
        let small = parsed_to-le event (parse held) in
        send-either (λ o. Kept before (retired S r parse o)) (lrem r.processing held) w
          (λ ws.
            rw ((lrem_lem r.processing held w.db).0, h)
              (omega (arith, gone, e), omega (arith, gone, e)))
          (λ ws. (omega (arith, e), omega (arith, e, small)))
          (λ ws. (omega (arith, gone, e), omega (arith, gone, e)))

    pushed-Kept :
        (held : Text) (before : ℕ) (w : Session S)
        → parse held ≡ poison
        → copies_in w.db ≡ before
        → Kept before (pushed S r parse (send S (lpush r.failed held) w))
    pushed-Kept held before w p e =
        let after : copies_in (lpush r.failed held w.db).1 ≡ before =
          rw (lpush_lem r.failed held w.db) (
            omega (
              arith,
              copies-parked r parse event apart held (items w.db),
              ap (parsed_to event) p,
              e,
            )) in
        send-either (λ o. Kept before (pushed S r parse o)) (lpush r.failed held) w
          (λ ws. (omega (arith, after), omega (arith, after)))
          (λ ws. (omega (arith, e), omega (arith, e)))
          (λ ws. (omega (arith, after), omega (arith, after)))

    poison-Kept :
        (held : Text) (w : Session S)
        → Held held w.db
        → parse held ≡ poison
        → Kept (copies_in w.db) (removed S r parse held (send S (lrem r.processing held) w))
    poison-Kept held w h p =
        let after : copies_in (lrem r.processing held w.db).1 ≡ copies_in w.db =
          omega (arith, erased held w.db h, ap (parsed_to event) p) in
        send-either (λ o. Kept (copies_in w.db) (removed S r parse held o)) (lrem r.processing held)
          w (λ ws. pushed-Kept held (copies_in w.db) _ p after) (λ ws. (omega arith, omega arith))
          (λ ws. (omega (arith, after), omega (arith, after)))

    told : (e : Text) (db : Db) → copies_in (xadd r.stream e db).1 ≡ copies_in db + is_event event e
    told e db = rw (xadd_lem r.stream e db) (copies-told r parse event apart e (items db))

    xadd-Held : (held e : Text) (db : Db) → Held held db → Held held (xadd r.stream e db).1
    xadd-Held held e db h = rw (xadd_lem r.stream e db, apart.processing_stream) h

    written-Kept :
        (held e : Text) (w : Session S)
        → Held held w.db
        → parse held ≡ envelope e
        → Kept
            (copies_in w.db)
            (written S r parse held (send S (guarded_queue_write S r.lock r.stream as_stream e) w))
    unfolding guarded_queue_write
    written-Kept held e w h p =
        let weighs : weight_of r parse event held ≡ is_event event e = ap (parsed_to event) p in
        let small = parsed_to-le event (envelope e) in
        elim (Bool-cases (exists_key w.db r.lock)) [
          | inl locked ↦
              send-either (λ o. Kept (copies_in w.db) (written S r parse held o))
                (guarded_queue_write S r.lock r.stream as_stream e) w
                (λ ws. rw locked (omega arith, omega arith)) (λ ws. (omega arith, omega arith))
                (λ ws. rw locked (omega arith, omega arith))
          | inr open_ ↦
              send-either (λ o. Kept (copies_in w.db) (written S r parse held o))
                (guarded_queue_write S r.lock r.stream as_stream e) w
                (λ ws. rw open_ (
                  retired-Kept held (copies_in w.db) _ (xadd-Held held e w.db h)
                    (omega (arith, told e w.db, weighs))))
                (λ ws. (omega arith, omega arith))
                (λ ws. rw open_ (omega (arith, told e w.db), omega (arith, told e w.db, small)))
        ]

    settle-Kept :
        (held : Text) (p : LegacyItem) (w : Session S)
        → Held held w.db
        → parse held ≡ p
        → Kept (copies_in w.db) (settle_item S r parse held p w)
    settle-Kept held poison w h p = poison-Kept held w h p
    settle-Kept held invalid w h p = (omega arith, omega arith)
    settle-Kept held (envelope e) w h p = written-Kept held e w h p

    fetched : (db : Db) → copies_in (lmove r.source r.processing db).1 ≡ copies_in db
    fetched db =
        rw ((lmove_lem r.source r.processing db).1) (copies-moved r parse event apart (items db))

    lmove-Held :
        (x : Text) (db : Db)
        → last_item (items db r.source) ≡ some x
        → Held x (lmove r.source r.processing db).1
    unfolding is_one_of
    lmove-Held x db e =
        rw ((lmove_lem r.source r.processing db).1, e, text_eq_refl r.processing, text_eq_refl x)
          refl

    lmove-Kept :
        (w : Session S)
        → Kept (copies_in w.db) (on_fetched S r parse (send S (lmove r.source r.processing) w))
    lmove-Kept w =
        let same = fetched w.db in
        send-either (λ o. Kept (copies_in w.db) (on_fetched S r parse o))
          (lmove r.source r.processing) w
          (λ ws. elim (Option-cases (last_item (items w.db r.source))) [
            | inl e ↦
                rw ((lmove_lem r.source r.processing w.db).0, e)
                  (omega (arith, same), omega (arith, same))
            | inr (x, e) ↦
                let after : Session S = record {
                  db = (lmove r.source r.processing w.db).1;
                  wires = ws;
                } in
                rw ((lmove_lem r.source r.processing w.db).0, e)
                  (subst (λ n. Kept n (settle_item S r parse x (parse x) after)) same
                    (settle-Kept x (parse x) after (lmove-Held x w.db e) refl))
          ])
          (λ ws. (omega arith, omega arith)) (λ ws. (omega (arith, same), omega (arith, same)))

    pub migrate_one-Kept : (w : Session S) → Kept (copies_in w.db) (migrate_one S r parse w)
    unfolding migrate_one
    migrate_one-Kept w =
        send-either (λ o. Kept (copies_in w.db) (on_held S r parse o)) (read_held S r parse) w
          (λ ws. elim (Option-cases (last_item (items w.db r.processing))) [
            | inl e ↦ rw e (lmove-Kept (record { db = w.db; wires = ws }))
            | inr (x, e) ↦
                rw e (settle-Kept x (parse x) _ (last-is_one_of (items w.db r.processing) x e) refl)
          ])
          (λ ws. (omega arith, omega arith)) (λ ws. (omega arith, omega arith))
