-- ===== src/Migration.antt =====
-- services/queue/legacy_list_migration.py: the jobs of a Redis list are moved onto a stream.
-- Log output and the reading of list lengths are left out.
pub mod Server
pub mod Weights
pub mod Moves
pub mod Whole
pub mod Drained
mod Examples
use ai_buddy_app_agent_baken.Base.{
  ℕ, zero, suc, ◌+◌, ◌-◌, Bool, true, false, Option, none, some, List, [], ◌∷◌, Text, codes, max,
  ltb, if◌then◌else◌,
}
use ai_buddy_app_agent_baken.Lease.World.{Wire, answered, refused, unanswered}
use ai_buddy_app_agent_baken.Migration.Server.{ListServer, last_item}

-- The keys of one list, and the stream that its jobs go to.
pub record Route : Type 0 where
  pub source : Text
  pub processing : Text
  pub failed : Text
  pub stream : Text
  pub lock : Text

-- What an item is parsed to: MigrationPoison, an envelope that fails its validation, or its JSON.
pub data LegacyItem : Type 0 where
  poison invalid : LegacyItem
  envelope : (event : Text) → LegacyItem

pub data Mode : Type 0 where
  as_list as_stream : Mode

-- How a round of the loop ends: with a job moved or parked, with no job left, or by an exception.
pub data Next : Type 0 where
  moved parked drained stopped : Next

pub data Ended : Type 0 where
  completed : (migrated failed : ℕ) → Ended
  raised : Ended

module _ (S : ListServer) where
  open S use {Db, items, lmove, lrem, lpush, xadd, exists_key}

  -- `wires` says how the commands to come go; where it ends all are answered.
  pub record Session : Type 0 where
    pub db : Db
    pub wires : List Wire

  abbrev pub send_by : {A : Type 0} → List Wire → (Db → A × Db) → Db → Option A × Session
  send_by [] run db = (some (run db).0, record { db = (run db).1; wires = [] })
  send_by (answered ∷ wires) run db = (some (run db).0, record { db = (run db).1; wires = wires })
  send_by (refused ∷ wires) run db = (none, record { db = db; wires = wires })
  send_by (unanswered ∷ wires) run db = (none, record { db = (run db).1; wires = wires })

  -- One awaited command; `none` is an exception.
  unfoldable pub send : {A : Type 0} → (Db → A × Db) → Session → Option A × Session
  send run w = send_by w.wires run w.db

  -- The script _PUBLISH_GUARD_LUA; `false` is its error.
  unfoldable pub guarded_queue_write :
      (lock key : Text) (mode : Mode) (payload : Text) → Db → Bool × Db
  guarded_queue_write lock key as_list payload db =
      if exists_key db lock then (false, db) else (true, (lpush key payload db).1)
  guarded_queue_write lock key as_stream payload db =
      if exists_key db lock then (false, db) else (true, (xadd key payload db).1)

  module _ (r : Route) (parse : Text → LegacyItem) where
    abbrev pub read_held : Db → Option Text × Db
    read_held db = (last_item (items db r.processing), db)

    abbrev pub retired : Option ℕ × Session → Next × Session
    retired (none, w) = (stopped, w)
    retired (some zero, w) = (stopped, w)
    retired (some (suc n), w) = (moved, w)

    -- Behind `guarded_queue_write`; a set lock is an exception too.
    abbrev pub written : Text → Option Bool × Session → Next × Session
    written held (none, w) = (stopped, w)
    written held (some false, w) = (stopped, w)
    written held (some true, w) = retired (send (lrem r.processing held) w)

    abbrev pub pushed : Option (Unit {0}) × Session → Next × Session
    pushed (none, w) = (stopped, w)
    pushed (some done, w) = (parked, w)

    abbrev pub removed : Text → Option ℕ × Session → Next × Session
    removed held (none, w) = (stopped, w)
    removed held (some n, w) = pushed (send (lpush r.failed held) w)

    -- `publish` and what follows it, by what the item is parsed to.
    abbrev pub settle_item : Text → LegacyItem → Session → Next × Session
    settle_item held poison w = removed held (send (lrem r.processing held) w)
    settle_item held invalid w = (stopped, w)
    settle_item held (envelope event) w =
        written held (send (guarded_queue_write r.lock r.stream as_stream event) w)

    abbrev pub on_fetched : Option (Option Text) × Session → Next × Session
    on_fetched (none, w) = (stopped, w)
    on_fetched (some none, w) = (drained, w)
    on_fetched (some (some held), w) = settle_item held (parse held) w

    abbrev pub on_held : Option (Option Text) × Session → Next × Session
    on_held (none, w) = (stopped, w)
    on_held (some none, w) = on_fetched (send (lmove r.source r.processing) w)
    on_held (some (some held), w) = settle_item held (parse held) w

    -- The body of the loop.
    unfoldable pub migrate_one : Session → Next × Session
    unfolding send guarded_queue_write
    migrate_one w = on_held (send read_held w)

    abbrev pub go_on :
        (ℕ → ℕ → Session → Ended × Session)
        → (migrated failed : ℕ) → Next × Session
        → Ended × Session
    go_on rest migrated failed (moved, w) = rest (suc migrated) failed w
    go_on rest migrated failed (parked, w) = rest migrated (suc failed) w
    go_on rest migrated failed (drained, w) = (completed migrated failed, w)
    go_on rest migrated failed (stopped, w) = (raised, w)

    -- `rounds` is what is left of `max(1, limit)`.
    unfoldable pub loop : (rounds : ℕ) → (migrated failed : ℕ) → Session → Ended × Session
    unfolding migrate_one
    loop zero migrated failed w = (completed migrated failed, w)
    loop (suc rounds) migrated failed w = go_on (loop rounds) migrated failed (migrate_one w)

    unfoldable pub migrate_list : (execute : Bool) (limit : ℕ) → Session → Ended × Session
    unfolding loop migrate_one
    migrate_list execute limit w = if execute then loop (max 1 limit) 0 0 w else (completed 0 0, w)
