-- ===== src/Migration/Examples.antt =====
-- The theorem on the migration at a list with one job, over a server in memory.
use ai_buddy_app_agent_baken.Base.{
  ◌≡◌, ◌≤◌, ◌+◌, refl, Bool, true, false, List, [], ◌∷◌, ◌++◌, Text, codes, text_eq, is_one_of,
  if◌then◌else◌,
}
use ai_buddy_app_agent_baken.Lease.World.{answered, unanswered}
use ai_buddy_app_agent_baken.Migration.{
  Route, LegacyItem, envelope, completed, raised, Session, migrate_list,
}
use ai_buddy_app_agent_baken.Migration.Server.{
  Items, ListServer, last_item, erase_first, with_items, push_left, move_item,
}
use ai_buddy_app_agent_baken.Migration.Weights.{Apart}
use ai_buddy_app_agent_baken.Migration.Drained.{Done, migrate_list-Done}
use ai_buddy_app_agent_baken.Migration.Moves.{copies_in}
use ai_buddy_app_agent_baken.Migration.Whole.{migrate_list-Safe, doubted}

abbrev holds_items : List Text → Bool
holds_items [] = false
holds_items (x ∷ xs) = true

abbrev server : ListServer
server = record {
  Db = Items;
  items = λ db. db;
  exists_key = λ db k. holds_items (db k);
  lmove = λ s d db. (last_item (db s), move_item (last_item (db s)) s d db);
  lrem = λ k x db. (if is_one_of x (db k) then 1 else 0, with_items k (erase_first x (db k)) db);
  lpush = λ k x db. (tt, push_left k x db);
  xadd = λ k x db. (tt, with_items k (db k ++ x ∷ []) db);
  lmove_lem = λ s d db. (refl, refl);
  lrem_lem = λ k x db. (refl, refl);
  lpush_lem = λ k x db. refl;
  xadd_lem = λ k x db. refl;
}

abbrev route : Route
route = record {
  source = codes "speech";
  processing = codes "speech:migrating";
  failed = codes "speech:migration_failed";
  stream = codes "stream:speech";
  lock = codes "export-lock";
}

route-Apart : Apart route
unfolding text_eq
route-Apart = record {
  source_processing = refl;
  source_failed = refl;
  source_stream = refl;
  processing_failed = refl;
  processing_stream = refl;
  failed_stream = refl;
}

-- The answer of the fourth command, which retires the second job, is lost.
abbrev session : Session server
session = record {
  db = with_items (codes "speech") (codes "j1" ∷ codes "j2" ∷ []) (λ k. []);
  wires = answered ∷ answered ∷ answered ∷ unanswered ∷ [];
}

abbrev parse : Text → LegacyItem
parse raw = envelope raw

stops : (migrate_list server route parse true 100 session).0 ≡ raised
unfolding migrate_list text_eq
stops = refl

migrate_list-Safe_example :
    let (o, w) = migrate_list server route parse true 100 session in
    (copies_in server route parse route-Apart (codes "j2") session.db
      ≤ copies_in server route parse route-Apart (codes "j2") w.db)
    × (copies_in server route parse route-Apart (codes "j2") w.db
        ≤ copies_in server route parse route-Apart (codes "j2") session.db
          + doubted server route parse route-Apart (codes "j2") o)
migrate_list-Safe_example =
    migrate_list-Safe server route parse route-Apart (codes "j2") true 100 session

-- All commands are answered.
abbrev quiet_session : Session server
quiet_session = record { db = session.db; wires = [] }

completes : (migrate_list server route parse true 100 quiet_session).0 ≡ completed 2 0
unfolding migrate_list text_eq is_one_of
completes = refl

migrate_list-Done_example :
    Done server route parse 100 (migrate_list server route parse true 100 quiet_session)
migrate_list-Done_example = migrate_list-Done server route parse 100 quiet_session
