-- ===== src/Redis/Memory.antt =====
-- A store in memory that meets the laws of the interface: the instance that the examples run on.
use ai_buddy_app_agent_baken.Base.{
  ℕ, suc, ◌≡◌, ◌≢◌, refl, Option, none, some, Text, text_eq, text_eq_iff, arith, if◌then◌else◌,
}
use ai_buddy_app_agent_baken.Base.Decimal.{decimal}
use ai_buddy_app_agent_baken.Redis.{Redis}

pub record Cells : Type 0 where
  pub cell : Text → Option Text
  pub count : Text → ℕ

abbrev pub empty : Cells
empty = record { cell = λ k. none; count = λ k. 0 }

abbrev pub put : Text → Option Text → Cells → Cells
put k v db = record db { cell = λ j. if text_eq j k then v else db.cell j }

abbrev pub bump : Text → Cells → ℕ × Cells
bump k db = (
  suc (db.count k),
  record db { count = λ j. if text_eq j k then suc (db.count j) else db.count j },
)

pub put_self : (k : Text) (v : Option Text) (db : Cells) → (put k v db).cell k ≡ v
put_self k v db = ground (arith, text_eq_iff k k)

pub put_ne : (j k : Text) (v : Option Text) (db : Cells) → j ≢ k → (put k v db).cell j ≡ db.cell j
put_ne j k v db h = ground (arith, text_eq_iff j k)

pub bump_self : (k : Text) (db : Cells) → (bump k db).1.count k ≡ suc (db.count k)
bump_self k db = ground (arith, text_eq_iff k k)

abbrev pub memory : Redis
memory = record {
  Db = Cells;
  get = λ k db. db.cell k;
  set_px = λ k v ttl db. put k (some v) db;
  del = λ k db. put k none db;
  pexpire = λ k ttl db. db;
  incr = bump;
  counter = λ k db. db.count k;
  tostring = decimal;
  get-set_px_self = λ k v ttl db h. put_self k (some v) db;
  get-set_px_ne = λ j k v ttl db h. put_ne j k (some v) db h;
  get-del_self = λ k db. put_self k none db;
  get-del_ne = λ j k db h. put_ne j k none db h;
  get-pexpire = λ j k ttl db h. refl;
  get-incr_ne = λ j k db h. refl;
  incr_lem = λ k db. refl;
  counter-incr = bump_self;
  counter-set_px_ne = λ j k v ttl db h. refl;
  counter-del_ne = λ j k db h. refl;
  counter-pexpire_ne = λ j k ttl db h. refl;
  tostring_small = λ n h. refl;
}
