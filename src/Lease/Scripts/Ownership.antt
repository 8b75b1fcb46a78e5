-- ===== src/Lease/Scripts/Ownership.antt =====
-- Who owns a job: what a claim finds, and what a superseded owner can still do.
use ai_buddy_app_agent_baken.Base.{
  ℕ, suc, ◌≤◌, ◌<◌, ◌^◌, ◌≡◌, ◌≢◌, refl, sym, subst, Bool, Bool-cases, inl, inr, true, false,
  Option, none, some, List, Text, arith, ◌&&◌, text_eq, text_eq_iff, if◌then◌else◌, [], ◌∷◌,
}
use ai_buddy_app_agent_baken.Base.Decimal.{
  decimal, decimal-injective, read_decimal, read_decimal-decimal,
}
use ai_buddy_app_agent_baken.Redis.{Redis}
use ai_buddy_app_agent_baken.Lease.Codec.{NoBar, lua_split}
use ai_buddy_app_agent_baken.Lease.Scripts.{
  Claim, run, busy, duplicate, completed, lease_key, done_key, fence_key, present, lease_payload,
  v1, owns, fresh_lease, settle, contest, unless_done, acquire, renew, release, complete,
}
use ai_buddy_app_agent_baken.Lease.Scripts.Payload.{
  IsClean, lua_split-lease_payload, present-lease_payload, owns-token, lease-ne-fence,
}
use ai_buddy_app_agent_baken.Lease.Scripts.Steps.{Steps}
use ai_buddy_app_agent_baken.Lease.Scripts.Fencing.{
  IsPast, Newer, Steps-IsPast, Newer-lease_payload,
}

module _ (R : Redis) where
  open R use {
    Db, get, counter, set_px, pexpire, incr, tostring, get-set_px_self, get-set_px_ne, incr_lem,
    counter-incr, counter-set_px_ne, tostring_small,
  }

  module _ (job : Text) (c : Claim) (db : Db) {t o : Text} where
    settle-eq-run :
        (parts : List Text) (live mine : Bool)
        → (settle R job c parts live mine db).0 ≡ run t o
        → settle R job c parts live mine db ≡ fresh_lease R job c db
    settle-eq-run parts false mine h = refl
    settle-eq-run parts true true h = cc
    settle-eq-run parts true false h = cc

    contest-eq-run :
        (current : Option Text)
        → (contest R job c current db).0 ≡ run t o
        → contest R job c current db ≡ fresh_lease R job c db
    contest-eq-run none h = refl
    contest-eq-run (some current) h = settle-eq-run (lua_split current) _ _ h

    unless_done-eq-run :
        (done : Option Text)
        → (unless_done R job c done db).0 ≡ run t o
        → unless_done R job c done db ≡ fresh_lease R job c db
    unless_done-eq-run none h = contest-eq-run _ h
    unless_done-eq-run (some done) h = cc

    -- A claim that is told to run has taken a new token and written the lease.
    pub acquire-eq-run :
        (acquire R job c db).0 ≡ run t o → acquire R job c db ≡ fresh_lease R job c db
    unfolding acquire
    acquire-eq-run h = unless_done-eq-run _ h

    pub token-acquire :
        suc (counter fence_key db) < 10 ^ 14
        → (acquire R job c db).0 ≡ run t o
        → t ≡ decimal (suc (counter fence_key db))
    token-acquire small h =
        let fresh = acquire-eq-run h in
        let number = incr_lem fence_key db in
        let text = tostring_small (suc (counter fence_key db)) small in cc

  fresh_lease-IsPast :
      (job : Text) (n : ℕ) (c : Claim) (db : Db)
      → IsClean c
      → 0 < c.ttl_ms
      → suc (counter fence_key db) < 10 ^ 14
      → n ≤ counter fence_key db
      → IsPast R job n (fresh_lease R job c db).1
  fresh_lease-IsPast job n c db clean pos small le = record {
    counted =
        rw
          (
            counter-set_px_ne fence_key (lease_key job) _ c.ttl_ms _
                (λ e. lease-ne-fence job (sym e)),
            counter-incr,
          )
          (omega arith);
    stored = λ v e.
        let written : lease_payload c (tostring (incr fence_key db).0) ≡ v = cc (
          get-set_px_self (lease_key job) (lease_payload c (tostring (incr fence_key db).0))
            c.ttl_ms (incr fence_key db).1 pos) in
        subst (Newer n) written (
          rw (incr_lem, tostring_small (suc (counter fence_key db)) small)
            (Newer-lease_payload n (suc (counter fence_key db)) c clean (omega arith)));
  }

  -- A claim that starts a run: its fields are clean, and the counter is below the size at which
  -- Lua's `tostring` prints all digits.
  pub record Runs (job : Text) (c : Claim) (token : Text) (db : Db) : Type 0 where
    pub clean : IsClean c
    pub lasting : 0 < c.ttl_ms
    pub small : suc (counter fence_key db) < 10 ^ 14
    pub told : (acquire R job c db).0 ≡ run token c.owner

  Runs-IsPast :
      {job token : Text} {c : Claim} {db : Db} (n : ℕ)
      → Runs job c token db
      → n ≤ counter fence_key db
      → IsPast R job n (acquire R job c db).1
  Runs-IsPast {job} {token} {c} {db} n r le =
      rw (acquire-eq-run job c db r.told)
        (fresh_lease-IsPast job n c db r.clean r.lasting r.small le)

  pub IsPast-refuses :
      (job : Text) (n : ℕ) (db : Db) (owner : Text)
      → IsPast R job n db
      → owns owner (decimal n) (present (get (lease_key job) db)) ≡ false
  IsPast-refuses job n db owner past =
      elim (Bool-cases (owns owner (decimal n) (present (get (lease_key job) db)))) [
        | inr refused ↦ refused
        | inl passed ↦
            let (v, here_v, has) = owns-token owner (decimal n) (get (lease_key job) db) passed in
            let (m, lt, has_m) = past.stored v here_v in
            let same_number = decimal-injective m n (cc) in absurd (omega arith)
      ]

  -- The global fence: of two runs, for one job or for two, the later one has the larger token.
  pub tokens_increase :
      (job later_job : Text) (c d : Claim) (t u : Text) (db mid : Db)
      → Runs job c t db
      → Steps R (acquire R job c db).1 mid
      → Runs later_job d u mid
      → (m : ℕ) × (n : ℕ) × (read_decimal t ≡ some m) × (read_decimal u ≡ some n) × (m < n)
  tokens_increase job later_job c d t u db mid first steps second =
      let past =
        Steps-IsPast R job (counter fence_key db) steps (Runs-IsPast _ first (omega arith)) in
      (
        suc (counter fence_key db),
        suc (counter fence_key mid),
        rw (token-acquire job c db first.small first.told) (read_decimal-decimal _),
        rw (token-acquire later_job d mid second.small second.told) (read_decimal-decimal _),
        omega (arith, past.counted),
      )

  -- Once a later attempt runs the job, the earlier token can neither renew, nor release, nor complete.
  pub superseded_token_fails :
      (job : Text) (c d : Claim) (t u : Text) (db mid end : Db)
      → Runs job c t db
      → Steps R (acquire R job c db).1 mid
      → Runs job d u mid
      → Steps R (acquire R job d mid).1 end
      → (a : Claim) (owner : Text) (ttl_ms : ℕ)
      → (renew R job a t end ≡ (false, end))
        × (release R job owner t end ≡ (false, end))
        × (complete R job owner t ttl_ms end ≡ (false, end))
  unfolding renew release complete
  superseded_token_fails job c d t u db mid end first steps second more a owner ttl_ms =
      let before =
        Steps-IsPast R job (counter fence_key db) steps (Runs-IsPast _ first (omega arith)) in
      let past =
        Steps-IsPast R job (suc (counter fence_key db)) more
          (Runs-IsPast _ second (omega (arith, before.counted))) in
      let refuses = λ (o : Text). IsPast-refuses job (suc (counter fence_key db)) end o past in
      let token = token-acquire job c db first.small first.told in
      (
        rw (token, refuses a.owner) refl,
        rw (token, refuses owner) refl,
        rw (token, refuses owner) refl,
      )

module _ (R : Redis) (job : Text) where
  open R use {Db, get, set_px, pexpire, get-set_px_self}

  -- A claim of a job that is not done and whose lease `held` wrote: the same delivery to the same
  -- owner is a duplicate and extends the lease, every other claim is busy and changes nothing.
  pub acquire-held :
      (t : Text) (held c : Claim) (db : Db)
      → IsClean held
      → NoBar t
      → get (done_key job) db ≡ none
      → get (lease_key job) db ≡ some (lease_payload held t)
      → acquire R job c db ≡ (
          if text_eq held.owner c.owner && text_eq held.message_id c.message_id
          then (duplicate t held.owner, pexpire (lease_key job) c.ttl_ms db)
          else (busy t held.owner, db))
  unfolding acquire
  acquire-held t held c db clean plain undone stored =
      rw (undone, stored, present-lease_payload, lua_split-lease_payload held t clean plain)
        (ground (arith, text_eq_iff v1 v1))

  -- A completion that is stored with a nonempty token and a positive TTL: the next claim gets
  -- `completed` and changes nothing.
  pub acquire-complete :
      (owner t : Text) (ttl_ms : ℕ) (c : Claim) (db db' : Db)
      → t ≢ []
      → 0 < ttl_ms
      → complete R job owner t ttl_ms db ≡ (true, db')
      → acquire R job c db' ≡ (completed, db')
  unfolding acquire complete
  acquire-complete owner [] ttl_ms c db db' some_text pos done = absurd (some_text refl)
  acquire-complete owner (x ∷ xs) ttl_ms c db db' some_text pos done =
      ground (arith, get-set_px_self (done_key job) (x ∷ xs) ttl_ms db)
