-- ===== src/Lease/Scripts/Steps.antt =====
-- What the workers of all jobs, time and the other clients of the server can do to the lease keys,
-- one script at a time.
use ai_buddy_app_agent_baken.Base.{ℕ, suc, ◌^◌, ◌<◌, ◌≡◌, ◌⊎◌, none, Text}
use ai_buddy_app_agent_baken.Redis.{Redis}
use ai_buddy_app_agent_baken.Lease.Codec.{NoBar}
use ai_buddy_app_agent_baken.Lease.Scripts.{
  Claim, lease_key, fence_key, acquire, renew, release, complete,
}
use ai_buddy_app_agent_baken.Lease.Scripts.Payload.{IsClean}

module _ (R : Redis) where
  open R use {Db, get, counter}

  -- Leases may expire, and no other client writes to a lease key or to the fence counter, which has
  -- no TTL.
  pub record Elapses (db db' : Db) : Type 0 where
    pub leases :
        (job : Text)
        → (get (lease_key job) db' ≡ get (lease_key job) db) ⊎ (get (lease_key job) db' ≡ none)
    pub fence : counter fence_key db' ≡ counter fence_key db

  pub data Step (db db' : Db) : Type 0 where
    acquires :
        (job : Text) (c : Claim)
        → IsClean c
        → 0 < c.ttl_ms
        → suc (counter fence_key db) < 10 ^ 14
        → db' ≡ (acquire R job c db).1
        → Step db db'
    renews :
        (job : Text) (c : Claim) (token : Text)
        → IsClean c
        → NoBar token
        → 0 < c.ttl_ms
        → db' ≡ (renew R job c token db).1
        → Step db db'
    releases : (job owner token : Text) → db' ≡ (release R job owner token db).1 → Step db db'
    completes :
        (job owner token : Text) (ttl_ms : ℕ)
        → db' ≡ (complete R job owner token ttl_ms db).1
        → Step db db'
    elapses : Elapses db db' → Step db db'

  pub data Steps (db : Db) : Db → Type 0 where
    here : Steps db db
    next : {mid db' : Db} → Steps db mid → Step mid db' → Steps db db'
