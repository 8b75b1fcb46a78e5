-- ===== src/Lease/Heartbeat.antt =====
-- `heartbeat_loop`: extends the lease until it is released or lost.
pub mod Detection
use ai_buddy_app_agent_baken.Base.{
  ℕ, zero, suc, ◌+◌, Bool, true, false, Option, none, some, List, [], ◌∷◌, Text, leb, if◌then◌else◌,
}
use ai_buddy_app_agent_baken.Redis.{Redis}
use ai_buddy_app_agent_baken.Lease.World.{World}
use ai_buddy_app_agent_baken.Lease.Client.{
  Settings, Lease, Result, ok, err, gone, lose, uncertain, renew_lease, refresh_pending_idle,
}

-- One sleep of the loop: what the other tasks do to the lease, and the clock when it wakes.
pub record Nap : Type 0 where
  pub others : Lease → Lease
  pub now : ℕ

-- `return`, or the next round with its count of failures.
pub data Round (W : Type 0) : Type 0 where
  stop : Lease → W → Round W
  again : (failures : ℕ) → Lease → W → Round W

module _ {R : Redis} {E : Type 0} where
  abbrev pub beat : (consumer : Text) → ℕ → Result Bool × Lease × World R E → Round (World R E)
  beat consumer failures (err e, lease, w) =
      if leb 2 (failures + 1) then stop (lose uncertain lease) w else again (failures + 1) lease w
  beat consumer failures (ok false, lease, w) = stop (record lease { lost = true }) w
  -- A missed idle refresh does not drop ownership.
  beat consumer failures (ok true, lease, w) =
      again 0 lease (refresh_pending_idle consumer lease.claim.message_id w).1

  unfoldable pub round :
      Settings → (consumer : Text) → Nap → ℕ → Lease → World R E → Round (World R E)
  unfolding refresh_pending_idle renew_lease
  round settings consumer nap failures before w =
      let lease = nap.others before in
      if gone before
      then stop before w
      else if gone lease
      then stop lease w
      else beat consumer failures (renew_lease settings lease nap.now w)

  -- The loop over as many sleeps as it lives to see; a cancellation ends the list.
  unfoldable pub heartbeat_loop :
      Settings → (consumer : Text) → List Nap → ℕ → Lease → World R E → Lease × World R E
  heartbeat_loop settings consumer [] failures lease w = (lease, w)
  heartbeat_loop settings consumer (nap ∷ naps) failures lease w =
      elim (round settings consumer nap failures lease w) [
        | stop lease' w' ↦ (lease', w')
        | again failures' lease' w' ↦ heartbeat_loop settings consumer naps failures' lease' w'
      ]
