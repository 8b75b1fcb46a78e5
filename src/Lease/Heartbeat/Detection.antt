-- ===== src/Lease/Heartbeat/Detection.antt =====
-- When the heartbeat finds out that the job belongs to another worker.
use ai_buddy_app_agent_baken.Base.{ℕ, ◌≡◌, true, false, List, ◌∷◌, Text, arith}
use ai_buddy_app_agent_baken.Base.Decimal.{decimal}
use ai_buddy_app_agent_baken.Redis.{Redis}
use ai_buddy_app_agent_baken.Lease.Scripts.{renew}
use ai_buddy_app_agent_baken.Lease.Scripts.Fencing.{IsPast}
use ai_buddy_app_agent_baken.Lease.Scripts.Ownership.{IsPast-refuses}
use ai_buddy_app_agent_baken.Lease.World.{World, Wire, answered, refused}
use ai_buddy_app_agent_baken.Lease.Client.{Settings, Lease, gone, lose, uncertain, mismatch}
use ai_buddy_app_agent_baken.Lease.Heartbeat.{Nap, round, heartbeat_loop}

abbrev pub quiet : ℕ → Nap
quiet now = record { others = λ lease. lease; now = now }

module _ {R : Redis} {E : Type 0} (settings : Settings) (consumer : Text) where
  -- A newer attempt has taken the job: the next answered heartbeat marks the lease lost, whatever
  -- sleeps would follow, and leaves Redis and the streams as they are.
  pub heartbeat_detects :
      (lease : Lease) (n now failures : ℕ) (naps : List Nap) (w : World R E) (ws : List Wire)
      → gone lease ≡ false
      → lease.token ≡ decimal n
      → IsPast R lease.logical_key n w.db
      → w.wires ≡ answered ∷ ws
      → heartbeat_loop settings consumer (quiet now ∷ naps) failures lease w
        ≡ (record lease { lost = true; reason = mismatch }, record w { wires = ws })
  unfolding heartbeat_loop round renew
  heartbeat_detects lease n now failures naps w ws alive token past wire =
      ground (arith, IsPast-refuses R lease.logical_key n w.db lease.claim.owner past)

  -- Two renewals in a row that Redis does not run: the lease counts as lost.
  pub heartbeat_gives_up :
      (lease : Lease) (now later : ℕ) (naps : List Nap) (w : World R E) (ws : List Wire)
      → gone lease ≡ false
      → w.wires ≡ refused ∷ refused ∷ ws
      → heartbeat_loop settings consumer (quiet now ∷ quiet later ∷ naps) 0 lease w
        ≡ (lose uncertain lease, record w { wires = ws })
  unfolding heartbeat_loop round
  heartbeat_gives_up lease now later naps w ws alive wire = ground arith
