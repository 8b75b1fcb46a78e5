-- ===== src/Broker.antt =====
-- The Redis server as services/queue/atomic_publish.py, services/queue/redis_queue.py and
-- services/queue/legacy_list_migration.py use it: keys with a type, and commands that fail on a key
-- of another type. The server is not part of the repository. What its documentation says of a
-- command is a law: the command as a function on what a client can read of the database.
pub mod Memory
use ai_buddy_app_agent_baken.Base.{
  ℕ, ◌≡◌, ◌≤◌, Bool, true, false, Option, none, some, List, [], ◌∷◌, ◌++◌, Text, text_eq,
  if◌then◌else◌,
}

pub data Kind : Type 0 where
  absent hash list stream set text : Kind

-- What can be read: the type of a key, the fields of a hash, and the items of a list from the left,
-- of a stream from the oldest, or of a set.
pub record View : Type 0 where
  pub kind : Text → Kind
  pub field : Text → Text → Option Text
  pub items : Text → List Text

-- A command for keys of one type takes a key of that type, or one that is absent.
abbrev pub takes : Kind → Kind → Bool
takes want absent = true
takes hash hash = true
takes list list = true
takes stream stream = true
takes set set = true
takes text text = true
takes _ _ = false

-- The last of the values that are given for a field.
abbrev pub last_value : Text → List (Text × Text) → Option Text → Option Text
last_value f [] old = old
last_value f ((g, v) ∷ rest) old = last_value f rest (if text_eq f g then some v else old)

abbrev pub with_kind : Text → Kind → (Text → Kind) → Text → Kind
with_kind k t kinds j = if text_eq j k then t else kinds j

abbrev pub with_items : Text → List Text → (Text → List Text) → Text → List Text
with_items k xs items j = if text_eq j k then xs else items j

abbrev pub with_fields :
    Text → List (Text × Text) → (Text → Text → Option Text) → Text → Text → Option Text
with_fields k fs fields j f =
    let new = last_value f fs (fields j f) in if text_eq j k then new else fields j f

-- HSET with a field at least.
abbrev pub hset_view : Text → List (Text × Text) → View → View
hset_view k fs v = record v { kind = with_kind k hash v.kind; field = with_fields k fs v.field }

abbrev pub lpush_view : Text → Text → View → View
lpush_view k x v = record v {
  kind = with_kind k list v.kind;
  items = with_items k (x ∷ v.items k) v.items;
}

abbrev pub xadd_view : Text → Text → View → View
xadd_view k x v = record v {
  kind = with_kind k stream v.kind;
  items = with_items k (v.items k ++ x ∷ []) v.items;
}

pub record Broker : Type 1 where
  pub Db : Type 0
  pub view : Db → View
  -- `none` is the error WRONGTYPE.
  pub hset : Text → List (Text × Text) → Db → Option Db
  pub lpush : Text → Text → Db → Option Db
  -- XADD of a field `event` returns the id of the entry.
  pub xadd : Text → Text → Db → Option (Text × Db)
  pub expire : Text → ℕ → Db → Db
  pub hset_lem :
      (k : Text) (f : Text × Text) (fs : List (Text × Text)) (db : Db)
      → takes hash ((view db).kind k) ≡ true
      → (db' : Db) × (hset k (f ∷ fs) db ≡ some db') × (view db' ≡ hset_view k (f ∷ fs) (view db))
  pub lpush_lem :
      (k x : Text) (db : Db)
      → takes list ((view db).kind k) ≡ true
      → (db' : Db) × (lpush k x db ≡ some db') × (view db' ≡ lpush_view k x (view db))
  pub xadd_lem :
      (k x : Text) (db : Db)
      → takes stream ((view db).kind k) ≡ true
      → (id : Text) × (db' : Db) × (xadd k x db ≡ some (id, db'))
        × (view db' ≡ xadd_view k x (view db))
  -- EXPIRE with a time to live. With 0 seconds it deletes the key, and no law speaks of it.
  pub view-expire :
      (k : Text) (seconds : ℕ) (db : Db) → 1 ≤ seconds → view (expire k seconds db) ≡ view db
