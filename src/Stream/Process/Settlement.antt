-- ===== src/Stream/Process/Settlement.antt =====
-- How a message ends whose handler has run.
use ai_buddy_app_agent_baken.Base.{
  ℕ, ◌≡◌, ◌≢◌, refl, ◌∙◌, Bool, true, false, Text, if◌then◌else◌, arith,
}
use ai_buddy_app_agent_baken.Base.Decimal.{decimal}
use ai_buddy_app_agent_baken.Redis.{Redis}
use ai_buddy_app_agent_baken.Lease.Scripts.{renew, release}
use ai_buddy_app_agent_baken.Lease.Scripts.Fencing.{IsPast}
use ai_buddy_app_agent_baken.Lease.Scripts.Ownership.{IsPast-refuses}
use ai_buddy_app_agent_baken.Lease.World.{World}
use ai_buddy_app_agent_baken.Lease.Client.{
  Lease, Result, ok, err, lose, uncertain, renew_lease, release_lease,
}
use ai_buddy_app_agent_baken.Stream.Config.{Entry, Consumer}
use ai_buddy_app_agent_baken.Stream.Process.{
  returned, Ended, finished, if_owned, after_handler, finally_release,
}

module _ {R : Redis} (k : Consumer R) where
  -- The rest of the world: what the wires leave alone.
  abbrev pub Untouched : World R Entry → World R Entry → Type 0
  Untouched w w' = (w'.db ≡ w.db) × (w'.log ≡ w.log)

  -- The identity of a lease, which no operation changes.
  abbrev SameLease : Lease → Lease → Type 0
  SameLease lease lease' = (lease'.token ≡ lease.token) × (lease'.logical_key ≡ lease.logical_key)

  module _ (lease : Lease) (n : ℕ) (w : World R Entry) (token : lease.token ≡ decimal n)
      (past : IsPast R lease.logical_key n w.db) where
    renew_lease-refused :
        (now : ℕ)
        → Untouched w (renew_lease k.settings lease now w).2
          × SameLease lease (renew_lease k.settings lease now w).1
          × ((renew_lease k.settings lease now w).0 ≢ ok true)
    unfolding renew_lease renew
    renew_lease-refused now =
        ground (arith, IsPast-refuses R lease.logical_key n w.db lease.claim.owner past)

    release_lease-refused : Untouched w (release_lease k.settings lease w).1
    unfolding release_lease release
    release_lease-refused =
        ground (arith, IsPast-refuses R lease.logical_key n w.db lease.claim.owner past)

  finally_release-Untouched :
      (lease : Lease) (n : ℕ) (w : World R Entry) (end : Ended)
      → lease.token ≡ decimal n
      → IsPast R lease.logical_key n w.db
      → ((finally_release k (end, lease, w)).0 ≡ end)
        × Untouched w (finally_release k (end, lease, w)).1
  unfolding finally_release
  finally_release-Untouched lease n w end token past =
      ground (arith, release_lease-refused lease n w token past)

  module _ (lease : Lease) (n : ℕ) (w : World R Entry) (token : lease.token ≡ decimal n)
      (past : IsPast R lease.logical_key n w.db) where
    end-Untouched :
        (lease' : Lease) (w' : World R Entry)
        → Untouched w w'
        → SameLease lease lease'
        → ((finally_release k (finished, lease', w')).0 ≡ finished)
          × Untouched w (finally_release k (finished, lease', w')).1
    end-Untouched lease' w' (db, log) (t, key) =
        let (end, (db', log')) =
          finally_release-Untouched lease' n w' finished (t ∙ token) (rw (key, db) past) in
        (end, (db' ∙ db, log' ∙ log))

    if_owned-Untouched :
        (m raw : Text) (r : Result Bool × Lease × World R Entry)
        → Untouched w r.2
        → SameLease lease r.1
        → r.0 ≢ ok true
        → ((finally_release k (if_owned k m raw r)).0 ≡ finished)
          × Untouched w (finally_release k (if_owned k m raw r)).1
    if_owned-Untouched m raw (ok true, lease', w') kept named owned = absurd (owned refl)
    if_owned-Untouched m raw (ok false, lease', w') kept named owned =
        end-Untouched lease' w' kept named
    if_owned-Untouched m raw (err e, lease', w') kept named owned =
        end-Untouched (lose uncertain lease') w' kept named

  -- With its `finally` block the end `t` leaves Redis and the streams as they were in `w`.
  abbrev pub Quiet : World R Entry → Ended × Lease × World R Entry → Type 0
  Quiet w t = ((finally_release k t).0 ≡ finished) × Untouched w (finally_release k t).1

  either-Quiet :
      (w : World R Entry) (b : Bool) (x y : Ended × Lease × World R Entry)
      → Quiet w x
      → Quiet w y
      → Quiet w (if b then x else y)
  either-Quiet w true x y hx hy = hx
  either-Quiet w false x y hx hy = hy

  -- The handler of a superseded attempt returns: whatever happens to the Redis commands, the message
  -- is left pending, no stream is written, and the keys stay as they are.
  pub superseded_worker_is_silent :
      (m raw : Text) (now n : ℕ) (lease : Lease) (w : World R Entry)
      → lease.token ≡ decimal n
      → IsPast R lease.logical_key n w.db
      → Quiet w (after_handler k m raw now (returned, lease, w))
  unfolding after_handler
  superseded_worker_is_silent m raw now n lease w token past =
      let (kept, named, owned) = renew_lease-refused lease n w token past now in
      either-Quiet w lease.lost (finished, lease, w)
        (if_owned k m raw (renew_lease k.settings lease now w))
        (end-Untouched lease n w token past lease w (refl, refl) (refl, refl))
        (if_owned-Untouched lease n w token past m raw (renew_lease k.settings lease now w) kept
          named owned)
