-- ===== src/Migration/Drained.antt =====
-- How far migrate_list comes when it completes.
use ai_buddy_app_agent_baken.Base.{
  ℕ, zero, suc, ◌+◌, ◌≡◌, ◌⊎◌, refl, subst, Option-cases, Bool, true, false, Option, none, some,
  inl, inr, List, [], ◌∷◌, Text, max, arith,
}
use ai_buddy_app_agent_baken.Migration.{
  Route, Next, moved, parked, drained, stopped, Ended, completed, raised, LegacyItem, poison,
  invalid, envelope, as_stream, Session, send, guarded_queue_write, retired, written, pushed,
  removed, settle_item, on_fetched, on_held, read_held, migrate_one, go_on, loop, migrate_list,
}
use ai_buddy_app_agent_baken.Migration.Server.{ListServer, last_item}
use ai_buddy_app_agent_baken.Migration.Moves.{send-either}

none-last : (xs : List Text) → last_item xs ≡ none → xs ≡ []
none-last [] h = refl
none-last (x ∷ []) h = ground arith
none-last (x ∷ y ∷ ys) h = let rest = none-last (y ∷ ys) h in ground arith

module _ (S : ListServer) (r : Route) (parse : Text → LegacyItem) where
  open S use {Db, items, lmove, lrem, lpush, lmove_lem}

  abbrev pub Empty : Db → Type 0
  Empty db = (items db r.source ≡ []) × (items db r.processing ≡ [])

  abbrev pub Emptied : Next × Session S → Type 0
  Emptied (drained, w) = Empty w.db
  Emptied (moved, w) = Unit
  Emptied (parked, w) = Unit
  Emptied (stopped, w) = Unit

  retired-Emptied : (o : Option ℕ × Session S) → Emptied (retired S r parse o)
  retired-Emptied (none, w) = tt
  retired-Emptied (some zero, w) = tt
  retired-Emptied (some (suc n), w) = tt

  written-Emptied : (held : Text) (o : Option Bool × Session S) → Emptied (written S r parse held o)
  written-Emptied held (none, w) = tt
  written-Emptied held (some false, w) = tt
  written-Emptied held (some true, w) = retired-Emptied (send S (lrem r.processing held) w)

  pushed-Emptied : (o : Option (Unit {0}) × Session S) → Emptied (pushed S r parse o)
  pushed-Emptied (none, w) = tt
  pushed-Emptied (some done, w) = tt

  removed-Emptied : (held : Text) (o : Option ℕ × Session S) → Emptied (removed S r parse held o)
  removed-Emptied held (none, w) = tt
  removed-Emptied held (some n, w) = pushed-Emptied (send S (lpush r.failed held) w)

  settle-Emptied :
      (held : Text) (p : LegacyItem) (w : Session S) → Emptied (settle_item S r parse held p w)
  settle-Emptied held poison w = removed-Emptied held (send S (lrem r.processing held) w)
  settle-Emptied held invalid w = tt
  settle-Emptied held (envelope e) w =
      written-Emptied held (send S (guarded_queue_write S r.lock r.stream as_stream e) w)

  fetched-Emptied :
      (w : Session S)
      → items w.db r.processing ≡ []
      → Emptied (on_fetched S r parse (send S (lmove r.source r.processing) w))
  fetched-Emptied w none_held =
      send-either S (λ o. Emptied (on_fetched S r parse o)) (lmove r.source r.processing) w
        (λ ws. elim (Option-cases (last_item (items w.db r.source))) [
          | inl e ↦
              let left = lmove_lem r.source r.processing w.db in
              rw (left.0, e) (rw (left.1, e) (none-last (items w.db r.source) e, none_held))
          | inr (x, e) ↦
              rw ((lmove_lem r.source r.processing w.db).0, e) (settle-Emptied x (parse x) _)
        ])
        (λ ws. tt) (λ ws. tt)

  round-Emptied : (w : Session S) → Emptied (migrate_one S r parse w)
  unfolding migrate_one
  round-Emptied w =
      send-either S (λ o. Emptied (on_held S r parse o)) (read_held S r parse) w
        (λ ws. elim (Option-cases (last_item (items w.db r.processing))) [
          | inl e ↦ rw e (
              fetched-Emptied (record { db = w.db; wires = ws })
                (none-last (items w.db r.processing) e))
          | inr (x, e) ↦ rw e (settle-Emptied x (parse x) (record { db = w.db; wires = ws }))
        ])
        (λ ws. tt) (λ ws. tt)

  -- All `total` rounds have moved or parked an item, or no item is left.
  abbrev pub Done : ℕ → Ended × Session S → Type 0
  Done total (completed migrated failed, w) = (migrated + failed ≡ total) ⊎ Empty w.db
  Done total (raised, w) = Unit

  go_on-Done :
      (rest : ℕ → ℕ → Session S → Ended × Session S) (rounds migrated failed : ℕ) (n : Next)
      (w : Session S)
      → ((migrated failed : ℕ) (w : Session S)
          → Done (migrated + failed + rounds) (rest migrated failed w))
      → Emptied (n, w)
      → Done (migrated + failed + suc rounds) (go_on S r parse rest migrated failed (n, w))
  go_on-Done rest rounds migrated failed moved w ih h =
      subst (λ k. Done k (rest (suc migrated) failed w)) (omega arith) (ih (suc migrated) failed w)
  go_on-Done rest rounds migrated failed parked w ih h =
      subst (λ k. Done k (rest migrated (suc failed) w)) (omega arith) (ih migrated (suc failed) w)
  go_on-Done rest rounds migrated failed drained w ih h = inr h
  go_on-Done rest rounds migrated failed stopped w ih h = tt

  loop-Done :
      (rounds migrated failed : ℕ) (w : Session S)
      → Done (migrated + failed + rounds) (loop S r parse rounds migrated failed w)
  unfolding loop
  loop-Done zero migrated failed w = inl (omega arith)
  loop-Done (suc rounds) migrated failed w =
      go_on-Done (loop S r parse rounds) rounds migrated failed _ _ (loop-Done rounds)
        (round-Emptied w)

  -- When migrate_list executes and completes, it has moved or parked `max(1, limit)` items, or both
  -- the list and its processing list are empty.
  pub migrate_list-Done :
      (limit : ℕ) (w : Session S) → Done (max 1 limit) (migrate_list S r parse true limit w)
  unfolding migrate_list
  migrate_list-Done limit w =
      subst (λ k. Done k (loop S r parse (max 1 limit) 0 0 w)) (omega arith)
        (loop-Done (max 1 limit) 0 0 w)
