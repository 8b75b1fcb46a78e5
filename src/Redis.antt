-- ===== src/Redis.antt =====
-- The Redis server as the lease scripts of services/queue/job_lease.py use it: an interface of
-- commands with the laws that the Redis documentation gives them. The server is not part of the
-- repository, so every module that talks to it takes a value of this record.
pub mod Memory
use ai_buddy_app_agent_baken.Base.{ℕ, suc, ◌^◌, ◌<◌, ◌≡◌, ◌≢◌, Option, none, some, Text}
use ai_buddy_app_agent_baken.Base.Decimal.{decimal}

pub record Redis : Type 1 where
  pub Db : Type 0
  -- GET: what a live key holds.
  pub get : Text → Db → Option Text
  -- SET key value PX ttl
  pub set_px : Text → Text → ℕ → Db → Db
  pub del : Text → Db → Db
  pub pexpire : Text → ℕ → Db → Db
  -- INCR returns the new value.
  pub incr : Text → Db → ℕ × Db
  -- The number that INCR of a key counts on from: 0 for a missing key.
  pub counter : Text → Db → ℕ
  -- Lua's `tostring` of a number, which prints with 14 significant digits.
  pub tostring : ℕ → Text
  pub get-set_px_self :
      (k v : Text) (ttl : ℕ) (db : Db) → 0 < ttl → get k (set_px k v ttl db) ≡ some v
  pub get-set_px_ne :
      (j k v : Text) (ttl : ℕ) (db : Db) → j ≢ k → get j (set_px k v ttl db) ≡ get j db
  pub get-del_self : (k : Text) (db : Db) → get k (del k db) ≡ none
  pub get-del_ne : (j k : Text) (db : Db) → j ≢ k → get j (del k db) ≡ get j db
  pub get-pexpire : (j k : Text) (ttl : ℕ) (db : Db) → 0 < ttl → get j (pexpire k ttl db) ≡ get j db
  pub get-incr_ne : (j k : Text) (db : Db) → j ≢ k → get j (incr k db).1 ≡ get j db
  pub incr_lem : (k : Text) (db : Db) → (incr k db).0 ≡ suc (counter k db)
  pub counter-incr : (k : Text) (db : Db) → counter k (incr k db).1 ≡ suc (counter k db)
  pub counter-set_px_ne :
      (j k v : Text) (ttl : ℕ) (db : Db) → j ≢ k → counter j (set_px k v ttl db) ≡ counter j db
  pub counter-del_ne : (j k : Text) (db : Db) → j ≢ k → counter j (del k db) ≡ counter j db
  pub counter-pexpire_ne :
      (j k : Text) (ttl : ℕ) (db : Db) → j ≢ k → counter j (pexpire k ttl db) ≡ counter j db
  pub tostring_small : (n : ℕ) → n < 10 ^ 14 → tostring n ≡ decimal n
