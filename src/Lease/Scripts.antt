-- ===== src/Lease/Scripts.antt =====
-- The four Lua scripts of services/queue/job_lease.py, over any Redis. A script runs as one step:
-- Redis lets no other command in between. The numeric argument ttl is handed over as a number.
pub mod Payload
pub mod Steps
pub mod Fencing
pub mod Ownership
use ai_buddy_app_agent_baken.Base.{
  ℕ, zero, suc, ◌++◌, Bool, true, false, ◌&&◌, Option, none, some, List, [], ◌∷◌, Text, codes,
  length, leb, text_eq, if◌then◌else◌,
}
use ai_buddy_app_agent_baken.Redis.{Redis}
use ai_buddy_app_agent_baken.Lease.Codec.{join, lua_split}

-- `_lease_key`, `_done_key` and `_fence_key`.
unfoldable pub lease_key : Text → Text
lease_key logical_key = codes "buddy:job-lease:" ++ logical_key

unfoldable pub done_key : Text → Text
done_key logical_key = codes "buddy:job-done:" ++ logical_key

unfoldable pub fence_key : Text
fence_key = codes "buddy:job-fence:global"

-- The arguments of one attempt: ARGV of the acquire script, without the keys.
pub record Claim : Type 0 where
  pub owner : Text
  pub message_id : Text
  pub event_id : Text
  pub event_type : Text
  pub attempt : Text
  pub ttl_ms : ℕ
  pub now_ms : Text

pub data Reply : Type 0 where
  completed : Reply
  duplicate : (token owner : Text) → Reply
  busy : (token owner : Text) → Reply
  run : (token owner : Text) → Reply

-- `parts[i + 1]`; Lua reads nil behind the end of a table.
abbrev pub part : ℕ → List Text → Option Text
part i [] = none
part zero (p ∷ ps) = some p
part (suc i) (p ∷ ps) = part i ps

abbrev pub same : Option Text → Text → Bool
same none text = false
same (some p) text = text_eq p text

abbrev pub or_empty : Option Text → Text
or_empty none = []
or_empty (some text) = text

-- `current and current ~= ""`
abbrev pub present : Option Text → Option Text
present none = none
present (some []) = none
present (some (c ∷ cs)) = some (c ∷ cs)

abbrev pub v1 : Text
v1 = codes "v1"

unfoldable pub lease_payload : Claim → Text → Text
unfolding join
lease_payload c token =
    join
      (v1 ∷ c.owner ∷ token ∷ c.message_id ∷ c.event_id ∷ c.event_type ∷ c.attempt ∷ c.now_ms ∷ [])

-- The test of the renew, release and complete scripts.
abbrev pub owns : Text → Text → Option Text → Bool
owns owner token none = false
owns owner token (some current) =
    let parts = lua_split current in
    same (part 0 parts) v1 && same (part 1 parts) owner && same (part 2 parts) token

module _ (R : Redis) where
  open R use {Db, get, set_px, del, pexpire, incr, tostring}

  abbrev pub fresh_lease : Text → Claim → Db → Reply × Db
  fresh_lease job c db =
      let (n, counted) = incr fence_key db in
      let token = tostring n in
      (run token c.owner, set_px (lease_key job) (lease_payload c token) c.ttl_ms counted)

  -- `live`: the record has the format of this version; `mine`: its owner and its message are ARGV's.
  abbrev pub settle : Text → Claim → List Text → (live mine : Bool) → Db → Reply × Db
  settle job c parts false mine db = fresh_lease job c db
  settle job c parts true true db = (
    duplicate (or_empty (part 2 parts)) (or_empty (part 1 parts)),
    pexpire (lease_key job) c.ttl_ms db,
  )
  settle job c parts true false db = (busy (or_empty (part 2 parts)) (or_empty (part 1 parts)), db)

  abbrev pub contest : Text → Claim → Option Text → Db → Reply × Db
  contest job c none db = fresh_lease job c db
  contest job c (some current) db =
      let parts = lua_split current in
      settle job c parts (same (part 0 parts) v1 && leb 7 (length parts))
        (same (part 1 parts) c.owner && same (part 3 parts) c.message_id) db

  abbrev pub unless_done : Text → Claim → Option Text → Db → Reply × Db
  unless_done job c (some done) db = (completed, db)
  unless_done job c none db = contest job c (present (get (lease_key job) db)) db

  unfoldable pub acquire : Text → Claim → Db → Reply × Db
  acquire job c db = unless_done job c (present (get (done_key job) db)) db

  unfoldable pub renew : Text → Claim → Text → Db → Bool × Db
  renew job c token db =
      if owns c.owner token (present (get (lease_key job) db))
      then (true, set_px (lease_key job) (lease_payload c token) c.ttl_ms db)
      else (false, db)

  unfoldable pub release : Text → (owner token : Text) → Db → Bool × Db
  release job owner token db =
      if owns owner token (present (get (lease_key job) db))
      then (true, del (lease_key job) db)
      else (false, db)

  unfoldable pub complete : Text → (owner token : Text) → ℕ → Db → Bool × Db
  complete job owner token ttl_ms db =
      if owns owner token (present (get (lease_key job) db))
      then (true, set_px (done_key job) token ttl_ms db)
      else (false, db)
