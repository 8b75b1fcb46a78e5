-- ===== src/Lease/Twin/Agreement.antt =====
-- Where the twin of the lease scripts agrees with them. The twin stamps its own clock, the scripts the
-- time they are handed, so it is compared with the script that is handed the time of its clock.
use ai_buddy_app_agent_baken.Base.{
  ℕ, zero, suc, ◌≤◌, ◌<◌, ◌^◌, ◌≡◌, ◌≢◌, refl, sym, true, false, ◌&&◌, Option, none, some, List, [],
  ◌∷◌, Text, text_eq, length, leb, is_empty, arith,
}
use ai_buddy_app_agent_baken.Base.Decimal.{decimal, read_decimal-decimal, decimal-ne-nil}
use ai_buddy_app_agent_baken.Redis.{Redis}
use ai_buddy_app_agent_baken.Lease.Codec.{lua_split, lua_split-eq-split}
use ai_buddy_app_agent_baken.Lease.Scripts.{
  Claim, Reply, run, busy, duplicate, completed, lease_key, done_key, fence_key, part, same,
  present, or_empty, v1, owns, fresh_lease, lease_payload, settle, contest, unless_done, acquire,
  renew, release, complete,
}
use ai_buddy_app_agent_baken.Lease.Twin.{
  unbound_local, Outcome, gives, raises, entry_of, parse, attempt_text, claim_entry, claim_unless,
  twin_acquire, entry_owned, twin_renew, twin_release, twin_complete,
}

same-part :
    (i : ℕ) (parts : List Text) (x : Text)
    → i < length parts
    → same (part i parts) x ≡ text_eq (or_empty (part i parts)) x
same-part i [] x h = absurd (omega arith)
same-part zero (p ∷ ps) x h = refl
same-part (suc i) (p ∷ ps) x h = same-part i ps x (omega arith)

not-is_empty : (t : Text) → t ≢ [] → is_empty t ≡ false
not-is_empty [] h = absurd (h refl)
not-is_empty (c ∷ cs) h = refl

attempt_text-decimal : (k : ℕ) → attempt_text (decimal k) ≡ gives (decimal k)
attempt_text-decimal k = rw (not-is_empty (decimal k) (decimal-ne-nil k), read_decimal-decimal) refl

-- A record of this version, if it is one, has its seven fields.
abbrev pub IsWhole : Option Text → Type 0
IsWhole stored =
    (v : Text) → stored ≡ some v → same (part 0 (lua_split v)) v1 ≡ true → 7 ≤ length (lua_split v)

entry_owned-entry_of :
    (parts : List Text) (o t : Text)
    → (same (part 0 parts) v1 ≡ true → 7 ≤ length parts)
    → entry_owned (entry_of parts) o t
      ≡ (same (part 0 parts) v1 && same (part 1 parts) o && same (part 2 parts) t)
entry_owned-entry_of parts o t whole = ground (arith, same-part 1 parts o, same-part 2 parts t)

entry_owned-parse :
    (stored : Option Text) (o t : Text)
    → IsWhole stored
    → entry_owned (parse stored) o t ≡ owns o t (present stored)
unfolding parse
entry_owned-parse none o t whole = refl
entry_owned-parse (some []) o t whole = refl
entry_owned-parse (some (c ∷ cs)) o t whole =
    rw (sym (lua_split-eq-split (c ∷ cs)))
      (entry_owned-entry_of (lua_split (c ∷ cs)) o t (whole (c ∷ cs) refl))

-- What the twin gives where the acquire script gives a reply: the same, but on a duplicate delivery
-- it raises and changes nothing.
abbrev pub but_duplicate : {D : Type 0} → Reply × D → D → Outcome Reply × D
but_duplicate (duplicate token owner, after) before = (raises unbound_local, before)
but_duplicate (completed, after) before = (gives completed, after)
but_duplicate (busy token owner, after) before = (gives (busy token owner), after)
but_duplicate (run token owner, after) before = (gives (run token owner), after)

-- The claim, with the time of the twin's clock handed over.
abbrev pub at_time : (heartbeat_ms : Text) → Claim → Claim
at_time heartbeat_ms c = record c { now_ms = heartbeat_ms }

module _ (R : Redis) where
  open R use {Db, get, counter, incr, incr_lem, tostring_small}

  module _ (heartbeat_ms job : Text) (c : Claim) (k : ℕ) (db : Db)
      (attempts : c.attempt ≡ decimal k) (small : suc (counter fence_key db) < 10 ^ 14) where
    print_attempt : attempt_text c.attempt ≡ gives c.attempt
    print_attempt = rw attempts (attempt_text-decimal k)

    claim_entry-fresh :
        claim_entry R heartbeat_ms job c none db
        ≡ but_duplicate (fresh_lease R job (at_time heartbeat_ms c) db) db
    unfolding lease_payload
    claim_entry-fresh =
        rw (print_attempt, incr_lem, tostring_small (suc (counter fence_key db)) small) refl

    claim_entry-parts :
        (parts : List Text)
        → claim_entry R heartbeat_ms job c (entry_of parts) db
          ≡ but_duplicate
              (settle R job
                (at_time heartbeat_ms c)
                parts
                (same (part 0 parts) v1 && leb 7 (length parts))
                (same (part 1 parts) c.owner && same (part 3 parts) c.message_id)
                db)
              db
    claim_entry-parts parts =
        ground (arith, claim_entry-fresh, same-part 1 parts c.owner, same-part 3 parts c.message_id)

    claim_entry-contest :
        (stored : Option Text)
        → claim_entry R heartbeat_ms job c (parse stored) db
          ≡ but_duplicate (contest R job (at_time heartbeat_ms c) (present stored) db) db
    unfolding parse
    claim_entry-contest none = claim_entry-fresh
    claim_entry-contest (some []) = claim_entry-fresh
    claim_entry-contest (some (x ∷ xs)) =
        rw (sym (lua_split-eq-split (x ∷ xs))) (claim_entry-parts (lua_split (x ∷ xs)))

    claim_unless-unless_done :
        (done : Option Text)
        → claim_unless R heartbeat_ms job c done db
          ≡ but_duplicate (unless_done R job (at_time heartbeat_ms c) done db) db
    claim_unless-unless_done none = claim_entry-contest (get (lease_key job) db)
    claim_unless-unless_done (some done) = refl

    -- For a decimal attempt and a counter below 10 ^ 14: the twin claims as the script does that is
    -- handed the time of the twin's clock, and raises UnboundLocalError, with no change, where that
    -- script reports a duplicate delivery.
    pub twin_acquire-acquire :
        twin_acquire R heartbeat_ms job c db
        ≡ but_duplicate (acquire R job (at_time heartbeat_ms c) db) db
    unfolding twin_acquire acquire
    twin_acquire-acquire = claim_unless-unless_done (present (get (done_key job) db))

  -- On whole records and for a decimal attempt: the renew branch does what the script does that is
  -- handed the time of the twin's clock, and the release and complete branches do what their scripts
  -- do.
  pub twin_scripts_agree :
      (heartbeat_ms job : Text) (c : Claim) (k ttl_ms : ℕ) (token : Text) (db : Db)
      → c.attempt ≡ decimal k
      → IsWhole (get (lease_key job) db)
      → (twin_renew R heartbeat_ms job c token db ≡ (
        gives (renew R job (at_time heartbeat_ms c) token db).0,
        (renew R job (at_time heartbeat_ms c) token db).1,
      ))
        × (twin_release R job c.owner token db
            ≡ (gives (release R job c.owner token db).0, (release R job c.owner token db).1))
        × (twin_complete R job c.owner token ttl_ms db ≡ (
          gives (complete R job c.owner token ttl_ms db).0,
          (complete R job c.owner token ttl_ms db).1,
        ))
  unfolding lease_payload twin_renew twin_release twin_complete renew release complete
  twin_scripts_agree heartbeat_ms job c k ttl_ms token db attempts whole =
      let same_test = entry_owned-parse (get (lease_key job) db) c.owner token whole in
      let printed : attempt_text c.attempt ≡ gives c.attempt =
        rw attempts (attempt_text-decimal k) in
      (
        rw (same_test, printed) (ground arith),
        rw same_test (ground arith),
        rw same_test (ground arith),
      )
