-- ===== src/Migration/Server.antt =====
-- The lists, streams and sets of a Redis server as the migration uses them, with what the Redis
-- documentation says of each command as a law on the items that a key holds.
use ai_buddy_app_agent_baken.Base.{
  ℕ, ◌≡◌, Bool, Option, none, some, List, [], ◌∷◌, ◌++◌, Text, text_eq, is_one_of, if◌then◌else◌,
}

abbrev pub Items : Type 0
Items = Text → List Text

abbrev pub with_items : Text → List Text → Items → Items
with_items k xs items j = if text_eq j k then xs else items j

-- The right end of a list.
abbrev pub last_item : List Text → Option Text
last_item [] = none
last_item (x ∷ []) = some x
last_item (x ∷ y ∷ ys) = last_item (y ∷ ys)

abbrev pub front_items : List Text → List Text
front_items [] = []
front_items (x ∷ []) = []
front_items (x ∷ y ∷ ys) = x ∷ front_items (y ∷ ys)

abbrev pub erase_first : Text → List Text → List Text
erase_first x [] = []
erase_first x (y ∷ ys) = let rest = erase_first x ys in if text_eq x y then ys else y ∷ rest

abbrev pub push_left : Text → Text → Items → Items
push_left k x items = with_items k (x ∷ items k) items

-- LMOVE source destination RIGHT LEFT
abbrev pub move_item : Option Text → Text → Text → Items → Items
move_item none source destination items = items
move_item (some x) source destination items =
    push_left destination x (with_items source (front_items (items source)) items)

pub record ListServer : Type 1 where
  pub Db : Type 0
  pub items : Db → Items
  pub exists_key : Db → Text → Bool
  pub lmove : Text → Text → Db → Option Text × Db
  -- LREM key 1 value returns how many it removed.
  pub lrem : Text → Text → Db → ℕ × Db
  pub lpush : Text → Text → Db → Unit {0} × Db
  -- XADD key * event value
  pub xadd : Text → Text → Db → Unit {0} × Db
  pub lmove_lem :
      (s d : Text) (db : Db)
      → ((lmove s d db).0 ≡ last_item (items db s))
        × (items (lmove s d db).1 ≡ move_item (last_item (items db s)) s d (items db))
  pub lrem_lem :
      (k x : Text) (db : Db)
      → ((lrem k x db).0 ≡ (if is_one_of x (items db k) then 1 else 0))
        × (items (lrem k x db).1 ≡ with_items k (erase_first x (items db k)) (items db))
  pub lpush_lem : (k x : Text) (db : Db) → items (lpush k x db).1 ≡ push_left k x (items db)
  pub xadd_lem :
      (k x : Text) (db : Db)
      → items (xadd k x db).1 ≡ with_items k (items db k ++ x ∷ []) (items db)
