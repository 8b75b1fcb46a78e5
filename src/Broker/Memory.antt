-- ===== src/Broker/Memory.antt =====
-- A database in memory that meets the laws: the instance that the examples run on.
use ai_buddy_app_agent_baken.Base.{
  ℕ, zero, suc, ◌≡◌, ◌≤◌, Text, text_eq, arith, refl, none, some, [], ◌∷◌, codes, if◌then◌else◌,
}
use ai_buddy_app_agent_baken.Broker.{
  View, absent, hash, list, stream, takes, hset_view, lpush_view, xadd_view, with_kind, with_items,
  Broker,
}

abbrev pub blank : View
blank = record { kind = λ k. absent; field = λ k f. none; items = λ k. [] }

-- The time to live is not kept.
abbrev pub expire_view : Text → ℕ → View → View
expire_view k zero db = record {
  kind = with_kind k absent db.kind;
  field = λ j f. if text_eq j k then none else db.field j f;
  items = with_items k [] db.items;
}
expire_view k (suc n) db = db

pub expire_view_kept :
    (k : Text) (seconds : ℕ) (db : View) → 1 ≤ seconds → expire_view k seconds db ≡ db
expire_view_kept k zero db h = absurd (omega arith)
expire_view_kept k (suc n) db h = refl

abbrev pub broker : Broker
broker = record {
  Db = View;
  view = λ db. db;
  hset = λ k fs db. if takes hash (db.kind k) then some (hset_view k fs db) else none;
  lpush = λ k x db. if takes list (db.kind k) then some (lpush_view k x db) else none;
  xadd = λ k x db. if takes stream (db.kind k) then some (codes "1-0", xadd_view k x db) else none;
  expire = expire_view;
  hset_lem = λ k f fs db fits. (hset_view k (f ∷ fs) db, rw fits refl, refl);
  lpush_lem = λ k x db fits. (lpush_view k x db, rw fits refl, refl);
  xadd_lem = λ k x db fits. (codes "1-0", xadd_view k x db, rw fits refl, refl);
  view-expire = expire_view_kept;
}
