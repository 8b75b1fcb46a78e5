-- ===== src/Lease/Twin.antt =====
-- `apply_job_lease_eval`, the in-process twin of the lease scripts, and `_parse`.
pub mod Agreement
pub mod Reading
use ai_buddy_app_agent_baken.Base.{
  ℕ, zero, suc, ◌+◌, ◌≤◌, ◌<◌, ◌^◌, ◌≡◌, refl, sym, ap, ◌∙◌, Bool, Bool-cases, inl, inr, true,
  false, not, ◌&&◌, ◌||◌, Option, none, some, List, [], ◌∷◌, Text, text_eq, text_eq_iff, length,
  ltb, leb, is_empty, if◌then◌else◌, arith,
}
use ai_buddy_app_agent_baken.Base.Decimal.{
  decimal, read_decimal, read_decimal-decimal, decimal-ne-nil,
}
use ai_buddy_app_agent_baken.Redis.{Redis}
use ai_buddy_app_agent_baken.Lease.Codec.{join, split, lua_split, lua_split-eq-split}
use ai_buddy_app_agent_baken.Lease.Scripts.{
  Claim, Reply, run, busy, duplicate, completed, lease_key, done_key, fence_key, part, same,
  present, or_empty, lease_payload, v1, owns, fresh_lease, settle, contest, unless_done, acquire,
  renew, release, complete,
}

-- What the twin returns or raises. It says `del pexpire` first, so a later call of `pexpire` raises
-- UnboundLocalError.
pub data TwinError : Type 0 where
  unbound_local value_error : TwinError

pub data Outcome (A : Type 0) : Type 0 where
  gives : A → Outcome A
  raises : TwinError → Outcome A

pub record Parsed : Type 0 where
  pub owner : Text
  pub token : Text
  pub message_id : Text
  pub event_id : Text
  pub event_type : Text
  pub attempt : Text

-- Of a list of at least seven parts every part read here is there.
abbrev entry : List Text → Parsed
entry parts = record {
  owner = or_empty (part 1 parts);
  token = or_empty (part 2 parts);
  message_id = or_empty (part 3 parts);
  event_id = or_empty (part 4 parts);
  event_type = or_empty (part 5 parts);
  attempt = or_empty (part 6 parts);
}

abbrev entry_of : List Text → Option Parsed
entry_of parts =
    if ltb (length parts) 7 || not (same (part 0 parts) v1) then none else some (entry parts)

-- `_parse` of `_text(raw)`, which is None for the empty text.
abbrev parse_text : Option Text → Option Parsed
parse_text none = none
parse_text (some text) = entry_of (split text)

unfoldable pub parse : Option Text → Option Parsed
parse raw = parse_text (present raw)

-- `str(int(text or 0))`: what `_encode` prints for the attempt. The callers hand over decimal
-- numerals; of these `int` is `read_decimal`.
abbrev print_number : Option ℕ → Outcome Text
print_number none = raises value_error
print_number (some n) = gives (decimal n)

abbrev attempt_text : Text → Outcome Text
attempt_text text = if is_empty text then gives (decimal 0) else print_number (read_decimal text)

-- `current is None or current["owner"] != argv[0] or current["token"] != argv[1]`, negated.
abbrev entry_owned : Option Parsed → (owner token : Text) → Bool
entry_owned none owner token = false
entry_owned (some current) owner token = text_eq current.owner owner && text_eq current.token token

-- `_encode`, which reads the clock itself: `heartbeat_ms` is what it prints for it. The time that the
-- caller hands to the script is not among its arguments.
abbrev pub encode : (heartbeat_ms : Text) → Claim → (token attempt : Text) → Text
encode heartbeat_ms c token attempt =
    join (
      v1 ∷ c.owner ∷ token ∷ c.message_id ∷ c.event_id ∷ c.event_type ∷ attempt ∷ heartbeat_ms ∷ [])

module _ (R : Redis) where
  open R use {Db, get, set_px, del, incr, counter, tostring_small, incr_lem}

  abbrev store :
      (heartbeat_ms job : Text) → Claim → Text → Reply → Outcome Text → Db → Outcome Reply × Db
  store heartbeat_ms job c token reply (raises e) db = (raises e, db)
  store heartbeat_ms job c token reply (gives attempt) db =
      (gives reply, set_px (lease_key job) (encode heartbeat_ms c token attempt) c.ttl_ms db)

  abbrev claim_entry : (heartbeat_ms job : Text) → Claim → Option Parsed → Db → Outcome Reply × Db
  claim_entry heartbeat_ms job c (some current) db =
      if text_eq current.owner c.owner && text_eq current.message_id c.message_id
      then (raises unbound_local, db)
      else (gives (busy current.token current.owner), db)
  claim_entry heartbeat_ms job c none db =
      let (n, counted) = incr fence_key db in
      store heartbeat_ms job c (decimal n) (run (decimal n) c.owner) (attempt_text c.attempt)
        counted

  abbrev claim_unless : (heartbeat_ms job : Text) → Claim → Option Text → Db → Outcome Reply × Db
  claim_unless heartbeat_ms job c (some done) db = (gives completed, db)
  claim_unless heartbeat_ms job c none db =
      claim_entry heartbeat_ms job c (parse (get (lease_key job) db)) db

  -- The branch of the acquire script.
  pub twin_acquire : (heartbeat_ms job : Text) → Claim → Db → Outcome Reply × Db
  unfolding parse
  twin_acquire heartbeat_ms job c db =
      claim_unless heartbeat_ms job c (present (get (done_key job) db)) db

  abbrev renew_store :
      (heartbeat_ms job : Text) → Claim → Text → Outcome Text → Db → Outcome Bool × Db
  renew_store heartbeat_ms job c token (raises e) db = (raises e, db)
  renew_store heartbeat_ms job c token (gives attempt) db =
      (gives true, set_px (lease_key job) (encode heartbeat_ms c token attempt) c.ttl_ms db)

  pub twin_renew : (heartbeat_ms job : Text) → Claim → Text → Db → Outcome Bool × Db
  unfolding parse
  twin_renew heartbeat_ms job c token db =
      if entry_owned (parse (get (lease_key job) db)) c.owner token
      then renew_store heartbeat_ms job c token (attempt_text c.attempt) db
      else (gives false, db)

  pub twin_release : Text → (owner token : Text) → Db → Outcome Bool × Db
  unfolding parse
  twin_release job owner token db =
      if entry_owned (parse (get (lease_key job) db)) owner token
      then (gives true, del (lease_key job) db)
      else (gives false, db)

  pub twin_complete : Text → (owner token : Text) → ℕ → Db → Outcome Bool × Db
  unfolding parse
  twin_complete job owner token ttl_ms db =
      if entry_owned (parse (get (lease_key job) db)) owner token
      then (gives true, set_px (done_key job) token ttl_ms db)
      else (gives false, db)
