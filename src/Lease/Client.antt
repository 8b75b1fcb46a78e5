-- ===== src/Lease/Client.antt =====
-- The worker's side of a lease: `acquire_lease`, `renew_lease`, `release_lease`,
-- `remember_completion`, `require_active_lease`, `refresh_pending_idle` and
-- `preserve_pending_delivery`.
use ai_buddy_app_agent_baken.Base.{
  ℕ, ◌*◌, Bool, true, false, ◌||◌, Option, none, some, [], ◌∷◌, Text, codes, if◌then◌else◌,
}
use ai_buddy_app_agent_baken.Base.Decimal.{decimal}
use ai_buddy_app_agent_baken.Redis.{Redis}
use ai_buddy_app_agent_baken.Lease.Fields.{text, field_to}
use ai_buddy_app_agent_baken.Lease.JobKey.{Event, or_text, logical_job_key}
use ai_buddy_app_agent_baken.Lease.Scripts.{Claim, Reply}
use ai_buddy_app_agent_baken.Lease.Scripts
use ai_buddy_app_agent_baken.Lease.World.{World, Row, reclaimed, send, script, emit}

-- `JOB_LEASE_TTL_SECONDS` and `JOB_COMPLETION_TTL_SECONDS`.
pub record Settings : Type 0 where
  pub lease_ttl_seconds : ℕ
  pub completion_ttl_seconds : ℕ

-- `claim` holds owner, message id, event id, event type and retry count.
pub record Lease : Type 0 where
  pub logical_key : Text
  pub claim : Claim
  pub token : Text
  pub lost : Bool
  pub released : Bool
  pub settled : Bool
  pub reason : Text

pub data Decision : Type 0 where
  completed : Decision
  duplicate : (owner token : Text) → Decision
  busy : (owner token : Text) → Decision
  run : Lease → Decision

-- The exceptions of the module; `unavailable` stands for LeaseUnavailable, RedisError and OSError,
-- which its callers treat alike.
pub data LeaseError : Type 0 where
  unavailable : LeaseError
  stale_ownership : (reason : Text) → LeaseError

pub data Result (A : Type 0) : Type 0 where
  ok : A → Result A
  err : LeaseError → Result A

-- The cleaned arguments of the acquire script. `attempt` is `event.attempt`, `now` the clock.
unfoldable pub claim_of : Settings → Event → (owner message_id : Text) → (attempt now : ℕ) → Claim
claim_of settings e owner message_id attempt now = record {
  owner = or_text (field_to 80 (text owner)) (codes "worker");
  message_id = field_to 80 (text message_id);
  event_id = field_to 80 e.event_id;
  event_type = or_text (field_to 80 e.event_type) (codes "event");
  attempt = decimal attempt;
  ttl_ms = settings.lease_ttl_seconds * 1000;
  now_ms = decimal now;
}

abbrev pub new_lease : Text → Claim → Text → Lease
new_lease key c token = record {
  logical_key = key;
  claim = c;
  token = token;
  lost = false;
  released = false;
  settled = false;
  reason = [];
}

abbrev pub decide : Text → Claim → Reply → Decision
decide key c Reply.completed = completed
decide key c (Reply.duplicate token owner) = duplicate c.owner token
decide key c (Reply.busy token owner) = busy owner token
decide key c (Reply.run token owner) = run (new_lease key c token)

abbrev pub gone : Lease → Bool
gone lease = lease.lost || lease.released

abbrev pub lose : Text → Lease → Lease
lose reason lease = record lease { lost = true; reason = reason }

abbrev pub uncertain : Text
uncertain = codes "ownership_uncertain"

abbrev pub mismatch : Text
mismatch = codes "token_mismatch"

abbrev pub decided : {W : Type 0} → Text → Claim → Option Reply × W → Result Decision × W
decided key c (none, w) = (err unavailable, w)
decided key c (some reply, w) = (ok (decide key c reply), w)

abbrev pub stamped : Settings → Lease → ℕ → Claim
stamped settings lease now = record lease.claim {
  ttl_ms = settings.lease_ttl_seconds * 1000;
  now_ms = decimal now;
}

abbrev pub renewed : {W : Type 0} → Lease → Option Bool × W → Result Bool × Lease × W
renewed lease (none, w) = (err unavailable, lease, w)
renewed lease (some true, w) = (ok true, lease, w)
renewed lease (some false, w) = (ok false, record lease { reason = mismatch }, w)

abbrev pub let_go : {W : Type 0} → Lease → Option Bool × W → Lease × W
let_go lease (none, w) = (lose uncertain lease, w)
let_go lease (some done, w) = (lease, w)

abbrev pub remembered : {W : Type 0} → Lease → Option Bool × W → Bool × Lease × W
remembered lease (none, w) = (false, lose uncertain lease, w)
remembered lease (some true, w) = (true, lease, w)
remembered lease (some false, w) = (false, lose mismatch lease, w)

abbrev pub required : {W : Type 0} → Result Bool × Lease × W → Result (Unit {0}) × Lease × W
required (err e, lease, w) = (err (stale_ownership uncertain), lose uncertain lease, w)
required (ok true, lease, w) = (ok tt, lease, w)
required (ok false, lease, w) =
    let reason = or_text lease.reason (codes "lease_lost") in
    (err (stale_ownership reason), lose reason lease, w)

module _ {R : Redis} {E : Type 0} (settings : Settings) where
  unfoldable pub acquire_lease :
      Event
      → (owner message_id : Text) → (attempt now : ℕ) → World R E
      → Result Decision × World R E
  unfolding send
  acquire_lease e owner message_id attempt now w =
      let key = logical_job_key e in
      let c = claim_of settings e owner message_id attempt now in
      decided key c (send (script (Scripts.acquire R key c)) w)

  unfoldable pub renew_lease : Lease → ℕ → World R E → Result Bool × Lease × World R E
  unfolding send
  renew_lease lease now w =
      if gone lease
      then (ok false, lease, w)
      else renewed lease (
          send (script (Scripts.renew R lease.logical_key (stamped settings lease now) lease.token))
            w)

  unfoldable pub release_lease : Lease → World R E → Lease × World R E
  unfolding send
  release_lease lease w =
      if lease.released
      then (lease, w)
      else if lease.lost
      then (record lease { released = true }, w)
      else let_go (record lease { released = true })
          (send (script (Scripts.release R lease.logical_key lease.claim.owner lease.token)) w)

  unfoldable pub remember_completion : Lease → World R E → Bool × Lease × World R E
  unfolding send
  remember_completion lease w =
      if gone lease
      then (false, lease, w)
      else remembered lease (
          send
            (script (
              Scripts.complete R lease.logical_key lease.claim.owner lease.token
                (settings.completion_ttl_seconds * 1000)))
            w)

  -- Inside a leased worker; outside of one the call does nothing.
  unfoldable pub require_active_lease :
      Lease → ℕ → World R E → Result (Unit {0}) × Lease × World R E
  unfolding renew_lease
  require_active_lease lease now w =
      if gone lease
      then (err (stale_ownership (or_text lease.reason (codes "lease_lost"))), lease, w)
      else required (renew_lease lease now w)

module _ {R : Redis} {E : Type 0} where
  abbrev pub reset_idle : Text → Text → Option Row → World R E → Option Bool × World R E
  reset_idle message_id consumer none w = (some false, w)
  reset_idle message_id consumer (some row) w = elim row.deliveries [
    | none ↦ (some false, w)
    | some count ↦ send (λ u. (true, (emit (reclaimed message_id consumer count) u).1)) w
  ]

  abbrev pub idle_of : Text → Text → Option (Option Row) × World R E → Option Bool × World R E
  idle_of message_id consumer (none, w) = (none, w)
  idle_of message_id consumer (some row, w) = reset_idle message_id consumer row w

  unfoldable pub refresh_pending_idle :
      (consumer message_id : Text) → World R E → Option Bool × World R E
  unfolding send
  refresh_pending_idle consumer message_id w =
      idle_of message_id consumer (send (λ u. (u.rows message_id, u)) w)

  abbrev pub keep_row : Text → Option Text → Option ℕ → World R E → World R E
  keep_row message_id (some (c ∷ cs)) (some count) w =
      (send (emit (reclaimed message_id (c ∷ cs) count)) w).1
  keep_row message_id _ _ w = w

  abbrev pub hand_back : Text → Option (Option Row) × World R E → World R E
  hand_back message_id (some (some row), w) = keep_row message_id row.consumer row.deliveries w
  hand_back message_id (_, w) = w

  -- Every exception is swallowed.
  unfoldable pub preserve_pending_delivery : (message_id : Text) → World R E → World R E
  unfolding send
  preserve_pending_delivery message_id w =
      hand_back message_id (send (λ u. (u.rows message_id, u)) w)
