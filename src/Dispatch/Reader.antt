-- ===== src/Dispatch/Reader.antt =====
-- services/queue/streams.py: `_read_or_recover`, `_backoff_capacity` and `maybe_claim_stale`, and
-- `reclaim_min_idle_ms` of services/queue/job_lease.py. What a read does is a value; the sleeps and the
-- recovery calls are a list of what is called. `is_redis_capacity_error` is a field of the error.
use ai_buddy_app_agent_baken.Base.{
  ℕ, suc, ◌-◌, ◌*◌, ◌≤◌, ◌<◌, ◌≡◌, ◌↔◌, Bool, Bool-cases, inl, inr, true, false, Option, none, some,
  List, [], ◌∷◌, ltb, leb, max, if◌then◌else◌, arith,
}

-- What `read_batch` returns or raises. `B` is the type of a batch.
pub data ReadResult (B : Type 0) : Type 0 where
  batch : B → ReadResult B
  response_error : (no_group capacity : Bool) → ReadResult B
  pool_exhausted : ReadResult B
  connection_failed : (capacity : Bool) → ReadResult B

pub data Recovery : Type 0 where
  ensure_group mark_pressure recover_capacity recycle_pool : Recovery
  -- The delay after this many failures.
  sleep_capacity sleep_timeout : (failures : ℕ) → Recovery

pub data Reading (B : Type 0) : Type 0 where
  messages : B → Reading B
  no_messages : Reading B
  reraised : Reading B

pub record Failures : Type 0 where
  pub capacity_failures : ℕ
  pub timeout_failures : ℕ

pub record ReadStep (B : Type 0) : Type 0 where
  pub reading : Reading B
  pub failures : Failures
  pub calls : List Recovery

abbrev pub recycles : List Recovery → Bool
recycles [] = false
recycles (ensure_group ∷ rest) = recycles rest
recycles (mark_pressure ∷ rest) = recycles rest
recycles (recover_capacity ∷ rest) = recycles rest
recycles (recycle_pool ∷ rest) = true
recycles (sleep_capacity n ∷ rest) = recycles rest
recycles (sleep_timeout n ∷ rest) = recycles rest

module _ {B : Type 0} where
  abbrev pub backoff_capacity : Failures → ReadStep B
  backoff_capacity f =
      let n = suc f.capacity_failures in
      record {
        reading = no_messages;
        failures = record f { capacity_failures = n };
        calls = mark_pressure ∷ recover_capacity ∷ sleep_capacity n ∷ [];
      }

  -- A lost connection: the pool is renewed at the third in a row.
  abbrev pub lost_connection : Failures → ReadStep B
  lost_connection f =
      let n = suc f.timeout_failures in
      if leb 3 n
      then record {
        reading = no_messages;
        failures = record f { timeout_failures = 0 };
        calls = recycle_pool ∷ sleep_timeout 1 ∷ [];
      }
      else record {
        reading = no_messages;
        failures = record f { timeout_failures = n };
        calls = sleep_timeout n ∷ [];
      }

  unfoldable pub read_or_recover : ReadResult B → Failures → ReadStep B
  read_or_recover (batch b) f = record {
    reading = messages b;
    failures = record { capacity_failures = 0; timeout_failures = 0 };
    calls = [];
  }
  read_or_recover (response_error true capacity) f = record {
    reading = no_messages;
    failures = f;
    calls = ensure_group ∷ [];
  }
  read_or_recover (response_error false true) f = backoff_capacity f
  read_or_recover (response_error false false) f = record {
    reading = reraised;
    failures = f;
    calls = [];
  }
  read_or_recover pool_exhausted f = backoff_capacity f
  read_or_recover (connection_failed true) f = backoff_capacity f
  read_or_recover (connection_failed false) f = lost_connection f

  abbrev pub is_lost : ReadResult B → Bool
  is_lost (batch b) = false
  is_lost (response_error no_group capacity) = false
  is_lost pool_exhausted = false
  is_lost (connection_failed capacity) = if capacity then false else true

  -- From fewer than three lost connections on record, fewer than three are left, and the pool is
  -- renewed exactly when the read loses the connection with two on record.
  pub read_or_recover-recycles :
      (r : ReadResult B) (f : Failures)
      → f.timeout_failures < 3
      → ((read_or_recover r f).failures.timeout_failures < 3)
        × ((recycles (read_or_recover r f).calls ≡ true)
            ↔ ((is_lost r ≡ true) × (f.timeout_failures ≡ 2)))
  unfolding read_or_recover
  read_or_recover-recycles (batch b) f h = ground arith
  read_or_recover-recycles (response_error true capacity) f h = ground arith
  read_or_recover-recycles (response_error false true) f h = ground arith
  read_or_recover-recycles (response_error false false) f h = ground arith
  read_or_recover-recycles pool_exhausted f h = ground arith
  read_or_recover-recycles (connection_failed true) f h = ground arith
  read_or_recover-recycles (connection_failed false) f h =
      elim (Bool-cases (leb 3 (suc f.timeout_failures))) [
        | inl third ↦ rw third (ground arith)
        | inr early ↦ rw early (ground arith)
      ]

-- `maybe_claim_stale`, with the clock in whole units: whether to claim, and the time to keep.
unfoldable pub maybe_claim_stale : (interval now last : ℕ) (pressure : Bool) → Bool × ℕ
maybe_claim_stale interval now last pressure =
    if ltb (now - last) interval then (false, last) else (if pressure then false else true, now)

-- `xreadgroup_block`
unfoldable pub xreadgroup_block : Option ℕ → Option ℕ
xreadgroup_block none = none
xreadgroup_block (some block_ms) = if ltb 0 block_ms then some block_ms else none

unfoldable pub reclaim_min_idle_ms : (lease_ttl_seconds claim_idle_ms : ℕ) → ℕ
reclaim_min_idle_ms lease_ttl_seconds claim_idle_ms =
    let lease_ms = lease_ttl_seconds * 1000 in
    let configured = if ltb claim_idle_ms 1000 then 1000 else claim_idle_ms in
    max configured lease_ms

-- The idle time before a reclaim is at least a second, the configured time, and the time that a lease
-- lives without renewal.
pub reclaim_min_idle_ms_lem :
    (ttl idle : ℕ)
    → (1000 ≤ reclaim_min_idle_ms ttl idle)
      × (idle ≤ reclaim_min_idle_ms ttl idle)
      × (ttl * 1000 ≤ reclaim_min_idle_ms ttl idle)
unfolding reclaim_min_idle_ms
reclaim_min_idle_ms_lem ttl idle = ground arith
