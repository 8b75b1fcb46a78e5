-- ===== src/Lease/Scripts/Fencing.antt =====
-- A lease token that a newer attempt has superseded never passes a script again, whatever the
-- workers do in between.
use ai_buddy_app_agent_baken.Base.{
  if-either, ℕ, suc, ◌<◌, ◌^◌, ◌≡◌, refl, sym, subst, Bool, true, false, inl, inr, Option, none,
  some, List, Text, text-cases, arith, All, [], ◌∷◌,
}
use ai_buddy_app_agent_baken.Base.Decimal.{decimal, decimal-IsDigit, IsDigit}
use ai_buddy_app_agent_baken.Redis.{Redis}
use ai_buddy_app_agent_baken.Lease.Codec.{NoBar, lua_split}
use ai_buddy_app_agent_baken.Lease.Scripts.{
  Claim, lease_key, done_key, fence_key, part, present, lease_payload, owns, fresh_lease, settle,
  contest, unless_done, acquire, renew, release, complete,
}
use ai_buddy_app_agent_baken.Lease.Scripts.Payload.{
  IsClean, lua_split-lease_payload, owns-token, lease-ne-done, lease-ne-fence, done-ne-fence,
  lease_key-injective,
}
use ai_buddy_app_agent_baken.Lease.Scripts.Steps.{
  Step, acquires, renews, releases, completes, elapses, Steps, here, next,
}

IsDigit-NoBar : (t : Text) → All IsDigit t → NoBar t
IsDigit-NoBar [] h = tt
IsDigit-NoBar (c ∷ t) h = ((omega arith), IsDigit-NoBar t h.1)

pub decimal-NoBar : (n : ℕ) → NoBar (decimal n)
decimal-NoBar n = IsDigit-NoBar (decimal n) (decimal-IsDigit n)

-- A lease record with a token above `n`.
abbrev pub Newer : ℕ → Text → Type 0
Newer n v = (m : ℕ) × (n < m) × (part 2 (lua_split v) ≡ some (decimal m))

pub Newer-lease_payload :
    (n m : ℕ) (c : Claim) → IsClean c → n < m → Newer n (lease_payload c (decimal m))
Newer-lease_payload n m c h lt =
    (m, lt, rw (lua_split-lease_payload c (decimal m) h (decimal-NoBar m)) refl)

module _ (R : Redis) where
  open R use {
    Db, get, counter, set_px, del, pexpire, incr, tostring, get-set_px_self, get-set_px_ne,
    get-del_self, get-del_ne, get-pexpire, get-incr_ne, incr_lem, counter-incr, counter-set_px_ne,
    counter-del_ne, counter-pexpire_ne, tostring_small,
  }

  -- The counter has passed `n`, and a stored lease of the job has a token above `n`.
  pub record IsPast (job : Text) (n : ℕ) (db : Db) : Type 0 where
    pub counted : n < counter fence_key db
    pub stored : (v : Text) → get (lease_key job) db ≡ some v → Newer n v

module _ (R : Redis) (job : Text) (n : ℕ) where
  open R use {
    Db, get, counter, set_px, del, pexpire, incr, tostring, get-set_px_self, get-set_px_ne,
    get-del_self, get-del_ne, get-pexpire, get-incr_ne, incr_lem, counter-incr, counter-set_px_ne,
    counter-del_ne, counter-pexpire_ne, tostring_small,
  }

  write-IsPast :
      (j v : Text) (ttl : ℕ) (db : Db)
      → 0 < ttl
      → IsPast R job n db
      → (job ≡ j → Newer n v)
      → IsPast R job n (set_px (lease_key j) v ttl db)
  write-IsPast j v ttl db pos past new = record {
    counted =
        rw (counter-set_px_ne fence_key (lease_key j) v ttl db (λ e. lease-ne-fence j (sym e)))
          past.counted;
    stored = λ w e. elim (text-cases job j) [
      | inl at_job ↦
          let written : v ≡ w = cc (get-set_px_self (lease_key j) v ttl db pos) in
          subst (Newer n) written (new at_job)
      | inr other ↦ past.stored w (
          rw
            (get-set_px_ne (lease_key job) (lease_key j) v ttl db
              (λ k. other (lease_key-injective job j k)))
            at e)
    ];
  }

  incr-IsPast : (db : Db) → IsPast R job n db → IsPast R job n (incr fence_key db).1
  incr-IsPast db past = record {
    counted = rw counter-incr (omega (arith, past.counted));
    stored = λ w e.
        past.stored w (rw (get-incr_ne (lease_key job) fence_key db (lease-ne-fence job)) at e);
  }

  fresh_lease-IsPast :
      (j : Text) (c : Claim) (db : Db)
      → IsClean c
      → 0 < c.ttl_ms
      → suc (counter fence_key db) < 10 ^ 14
      → IsPast R job n db
      → IsPast R job n (fresh_lease R j c db).1
  fresh_lease-IsPast j c db clean pos small past =
      write-IsPast j (lease_payload c (tostring (incr fence_key db).0)) c.ttl_ms
        (incr fence_key db).1 pos (incr-IsPast db past)
        (λ _.
          rw (incr_lem, tostring_small (suc (counter fence_key db)) small)
            (Newer-lease_payload n (suc (counter fence_key db)) c clean
              (omega (arith, past.counted))))

  pexpire-IsPast :
      (j : Text) (ttl : ℕ) (db : Db)
      → 0 < ttl
      → IsPast R job n db
      → IsPast R job n (pexpire (lease_key j) ttl db)
  pexpire-IsPast j ttl db pos past = record {
    counted =
        rw (counter-pexpire_ne fence_key (lease_key j) ttl db (λ e. lease-ne-fence j (sym e)))
          past.counted;
    stored = λ w e. past.stored w (rw (get-pexpire (lease_key job) (lease_key j) ttl db pos) at e);
  }

  module _ (j : Text) (c : Claim) (db : Db) (clean : IsClean c) (pos : 0 < c.ttl_ms)
      (small : suc (counter fence_key db) < 10 ^ 14) (past : IsPast R job n db) where
    settle-IsPast :
        (parts : List Text) (live mine : Bool) → IsPast R job n (settle R j c parts live mine db).1
    settle-IsPast parts false mine = fresh_lease-IsPast j c db clean pos small past
    settle-IsPast parts true true = pexpire-IsPast j c.ttl_ms db pos past
    settle-IsPast parts true false = past

    contest-IsPast : (current : Option Text) → IsPast R job n (contest R j c current db).1
    contest-IsPast none = fresh_lease-IsPast j c db clean pos small past
    contest-IsPast (some current) = settle-IsPast (lua_split current) _ _

    unless_done-IsPast : (done : Option Text) → IsPast R job n (unless_done R j c done db).1
    unless_done-IsPast (some done) = past
    unless_done-IsPast none = contest-IsPast (present (get (lease_key j) db))

    acquire-IsPast : IsPast R job n (acquire R j c db).1
    unfolding acquire
    acquire-IsPast = unless_done-IsPast (present (get (done_key j) db))

  renew-IsPast :
      (j : Text) (c : Claim) (token : Text) (db : Db)
      → IsClean c
      → NoBar token
      → 0 < c.ttl_ms
      → IsPast R job n db
      → IsPast R job n (renew R j c token db).1
  unfolding renew
  renew-IsPast j c token db clean plain pos past =
      if-either (λ (r : Bool × Db). IsPast R job n r.1) _ _ _
        (λ owned.
          let (v, here_v, has) = owns-token c.owner token (get (lease_key j) db) owned in
          write-IsPast j (lease_payload c token) c.ttl_ms db pos past (λ at_job.
            let (m, lt, has_m) = past.stored v (rw at_job here_v) in
            let token_m : token ≡ decimal m = cc in
            rw token_m (Newer-lease_payload n m c clean lt)))
        (λ _. past)

  del-IsPast : (j : Text) (db : Db) → IsPast R job n db → IsPast R job n (del (lease_key j) db)
  del-IsPast j db past = record {
    counted =
        rw (counter-del_ne fence_key (lease_key j) db (λ e. lease-ne-fence j (sym e))) past.counted;
    stored = λ w e. elim (text-cases job j) [
      | inl at_job ↦ cc (get-del_self (lease_key j) db)
      | inr other ↦ past.stored w (
          rw
            (get-del_ne (lease_key job) (lease_key j) db (λ k. other (lease_key-injective job j k)))
            at e)
    ];
  }

  release-IsPast :
      (j owner token : Text) (db : Db)
      → IsPast R job n db
      → IsPast R job n (release R j owner token db).1
  unfolding release
  release-IsPast j owner token db past =
      if-either (λ (r : Bool × Db). IsPast R job n r.1) _ _ _ (λ _. del-IsPast j db past)
        (λ _. past)

  complete-IsPast :
      (j owner token : Text) (ttl : ℕ) (db : Db)
      → IsPast R job n db
      → IsPast R job n (complete R j owner token ttl db).1
  unfolding complete
  complete-IsPast j owner token ttl db past =
      if-either (λ (r : Bool × Db). IsPast R job n r.1)
        (owns owner token (present (get (lease_key j) db))) (true, set_px (done_key j) token ttl db)
        (false, db)
        (λ _. record {
          counted =
              rw
                (counter-set_px_ne fence_key (done_key j) token ttl db
                  (λ e. done-ne-fence j (sym e)))
                past.counted;
          stored = λ w e. past.stored w (
              rw (get-set_px_ne (lease_key job) (done_key j) token ttl db (lease-ne-done job j)) at
                e);
        })
        (λ _. past)

  Step-IsPast : {db db' : Db} → Step R db db' → IsPast R job n db → IsPast R job n db'
  Step-IsPast (acquires j c clean pos small e) past =
      rw e (acquire-IsPast j c _ clean pos small past)
  Step-IsPast (renews j c token clean plain pos e) past =
      rw e (renew-IsPast j c token _ clean plain pos past)
  Step-IsPast (releases j owner token e) past = rw e (release-IsPast j owner token _ past)
  Step-IsPast (completes j owner token ttl e) past = rw e (complete-IsPast j owner token ttl _ past)
  Step-IsPast (elapses time) past = record {
    counted = rw time.fence past.counted;
    stored =
        λ w e. elim (time.leases job) [ inl kept ↦ past.stored w (rw kept at e) | inr gone ↦ cc ];
  }

  pub Steps-IsPast : {db db' : Db} → Steps R db db' → IsPast R job n db → IsPast R job n db'
  Steps-IsPast here past = past
  Steps-IsPast (next steps step) past = Step-IsPast step (Steps-IsPast steps past)
