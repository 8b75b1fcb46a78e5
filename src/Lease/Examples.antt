-- ===== src/Lease/Examples.antt =====
-- The theorems on leases at two workers and one job.
use ai_buddy_app_agent_baken.Base.{
  ℕ, suc, ◌<◌, ◌^◌, ◌≡◌, ◌≢◌, refl, sym, true, false, none, some, List, [], ◌∷◌, Text, codes,
  text_eq, ◌&&◌, if◌then◌else◌, arith,
}
use ai_buddy_app_agent_baken.Base.Decimal.{decimal, read_decimal}
use ai_buddy_app_agent_baken.Redis.Memory.{Cells, empty, memory}
use ai_buddy_app_agent_baken.Lease.Codec.{NoBar, lua_split}
use ai_buddy_app_agent_baken.Lease.Scripts.{
  Claim, duplicate, busy, completed, acquire, renew, release, complete, lease_key, done_key,
  fence_key, lease_payload,
}
use mathlib.Core.Option.{some-injective}
use ai_buddy_app_agent_baken.Lease.Twin.{
  encode, parse, gives, raises, unbound_local, twin_acquire, twin_renew, twin_release,
  twin_complete,
}
use ai_buddy_app_agent_baken.Lease.Twin.Agreement.{
  IsWhole, at_time, but_duplicate, twin_acquire-acquire, twin_scripts_agree,
}
use ai_buddy_app_agent_baken.Lease.Twin.Reading.{parse-encode}
use ai_buddy_app_agent_baken.Lease.World.{World, Wire, answered, refused}
use ai_buddy_app_agent_baken.Lease.Client.{Settings, Lease, new_lease, lose, uncertain, mismatch}
use ai_buddy_app_agent_baken.Lease.Heartbeat.{heartbeat_loop}
use ai_buddy_app_agent_baken.Lease.Heartbeat.Detection.{
  quiet, heartbeat_detects, heartbeat_gives_up,
}
use ai_buddy_app_agent_baken.Lease.Scripts.Fencing.{IsPast}
use ai_buddy_app_agent_baken.Lease.Scripts.Payload.{IsClean}
use ai_buddy_app_agent_baken.Lease.Scripts.Steps.{releases, Steps, here, next}
use ai_buddy_app_agent_baken.Lease.Scripts.Ownership.{
  Runs, tokens_increase, superseded_token_fails, acquire-held, acquire-complete,
}

abbrev job : Text
job = codes "goal.plan|job:7"

abbrev claim : Text → Text → Claim
claim owner message_id = record {
  owner = owner;
  message_id = message_id;
  event_id = codes "e1";
  event_type = codes "goal.plan";
  attempt = codes "0";
  ttl_ms = 60000;
  now_ms = codes "1700000000000";
}

abbrev first : Claim
first = claim (codes "worker-1") (codes "5-0")

abbrev second : Claim
second = claim (codes "worker-2") (codes "6-0")

first-IsClean : IsClean first
first-IsClean = omega arith

second-IsClean : IsClean second
second-IsClean = omega arith

abbrev held : Cells
held = (acquire memory job first empty).1

abbrev freed : Cells
freed = (release memory job first.owner (codes "1") held).1

abbrev retaken : Cells
retaken = (acquire memory job second freed).1

-- What a run of the scripts computes with.
scripts : Unit {0}
unfolding acquire renew release complete decimal text_eq lease_key done_key fence_key lease_payload
    lua_split
scripts = tt

first-Runs : Runs memory job first (codes "1") empty
unfolding scripts
first-Runs = record {
  clean = first-IsClean;
  lasting = omega arith;
  small = omega arith;
  told = refl;
}

freed-Steps : Steps memory held freed
freed-Steps = next here (releases job first.owner (codes "1") refl)

second-Runs : Runs memory job second (codes "2") freed
unfolding scripts
second-Runs = record {
  clean = second-IsClean;
  lasting = omega arith;
  small = omega arith;
  told = refl;
}

tokens_increase_example :
    (m : ℕ) × (n : ℕ) × (read_decimal (codes "1") ≡ some m)
    × (read_decimal (codes "2") ≡ some n)
    × (m < n)
tokens_increase_example =
    tokens_increase memory job job first second (codes "1") (codes "2") empty freed first-Runs
      freed-Steps second-Runs

superseded_token_fails_example :
    (renew memory job first (codes "1") retaken ≡ (false, retaken))
    × (release memory job (codes "worker-1") (codes "1") retaken ≡ (false, retaken))
    × (complete memory job (codes "worker-1") (codes "1") 1000 retaken ≡ (false, retaken))
superseded_token_fails_example =
    superseded_token_fails memory job first second (codes "1") (codes "2") empty freed retaken
      first-Runs freed-Steps second-Runs here first (codes "worker-1") 1000

one-NoBar : NoBar (codes "1")
one-NoBar = omega arith

held_undone : memory.get (done_key job) held ≡ none
unfolding scripts
held_undone = refl

held_stored : memory.get (lease_key job) held ≡ some (lease_payload first (codes "1"))
unfolding scripts
held_stored = refl

acquire-held_example : acquire memory job second held ≡ (
    if text_eq first.owner second.owner && text_eq first.message_id second.message_id
    then (duplicate (codes "1") first.owner, memory.pexpire (lease_key job) 60000 held)
    else (busy (codes "1") first.owner, held))
acquire-held_example =
    acquire-held memory job (codes "1") first second held first-IsClean one-NoBar held_undone
      held_stored

abbrev finished_job : Cells
finished_job = (complete memory job first.owner (codes "1") 1000 held).1

complete_first : complete memory job first.owner (codes "1") 1000 held ≡ (true, finished_job)
unfolding scripts
complete_first = refl

one_filled : codes "1" ≢ []
one_filled e = cc

acquire-complete_example : acquire memory job second finished_job ≡ (completed, finished_job)
acquire-complete_example =
    acquire-complete memory job first.owner (codes "1") 1000 second held finished_job one_filled
      (omega arith) complete_first

-- The twin of the scripts, on a free job and on the lease of `first`.
held-IsWhole : IsWhole (memory.get (lease_key job) held)
unfolding scripts
held-IsWhole v e version = rw (sym (some-injective _ v e)) (omega arith)

first_attempt : first.attempt ≡ decimal 0
unfolding scripts
first_attempt = refl

abbrev clock : Text
clock = codes "1700000000999"

twin_scripts_agree_example :
    (twin_renew memory clock job first (codes "1") held ≡ (
      gives (renew memory job (at_time clock first) (codes "1") held).0,
      (renew memory job (at_time clock first) (codes "1") held).1,
    ))
    × (twin_release memory job first.owner (codes "1") held ≡ (
      gives (release memory job first.owner (codes "1") held).0,
      (release memory job first.owner (codes "1") held).1,
    ))
    × (twin_complete memory job first.owner (codes "1") 1000 held ≡ (
      gives (complete memory job first.owner (codes "1") 1000 held).0,
      (complete memory job first.owner (codes "1") 1000 held).1,
    ))
twin_scripts_agree_example =
    twin_scripts_agree memory clock job first 0 1000 (codes "1") held first_attempt held-IsWhole

held_small : suc (memory.counter fence_key held) < 10 ^ 14
unfolding scripts
held_small = omega arith

-- The second delivery to the same owner: the script says duplicate, the twin raises.
twin_acquire-acquire_example :
    twin_acquire memory clock job first held
    ≡ but_duplicate (acquire memory job (at_time clock first) held) held
twin_acquire-acquire_example =
    twin_acquire-acquire memory clock job first 0 held first_attempt held_small

twin_acquire_duplicate : twin_acquire memory clock job first held ≡ (raises unbound_local, held)
unfolding scripts
twin_acquire_duplicate = twin_acquire-acquire_example

parse-encode_example :
    parse (some (encode first.now_ms first (codes "1") first.attempt))
    ≡ some (record {
      owner = first.owner;
      token = codes "1";
      message_id = first.message_id;
      event_id = first.event_id;
      event_type = first.event_type;
      attempt = first.attempt;
    })
parse-encode_example = parse-encode first (codes "1") first-IsClean one-NoBar

-- The heartbeat of `first` after `second` has taken the job.
retaken-IsPast : IsPast memory job 1 retaken
unfolding scripts
retaken-IsPast = record {
  counted = omega arith;
  stored = λ v e. (2, omega arith, rw (sym (some-injective _ v e)) refl);
}

abbrev after_retaking : List Wire → World memory ℕ
after_retaking wires = record { db = retaken; wires = wires; log = []; rows = λ m. none }

abbrev stale : Lease
stale = new_lease job first (codes "1")

abbrev settings : Settings
settings = record { lease_ttl_seconds = 60; completion_ttl_seconds = 600 }

stale_token : stale.token ≡ decimal 1
unfolding scripts
stale_token = refl

heartbeat_detects_example :
    heartbeat_loop settings
      (codes "worker-1")
      (quiet 7 ∷ quiet 8 ∷ [])
      0
      stale
      (after_retaking (answered ∷ []))
    ≡ (record stale { lost = true; reason = mismatch }, after_retaking [])
heartbeat_detects_example =
    heartbeat_detects settings (codes "worker-1") stale 1 7 0 (quiet 8 ∷ [])
      (after_retaking (answered ∷ [])) [] refl stale_token retaken-IsPast refl

heartbeat_gives_up_example :
    heartbeat_loop settings
      (codes "worker-1")
      (quiet 7 ∷ quiet 8 ∷ [])
      0
      stale
      (after_retaking (refused ∷ refused ∷ []))
    ≡ (lose uncertain stale, after_retaking [])
heartbeat_gives_up_example =
    heartbeat_gives_up settings (codes "worker-1") stale 7 8 []
      (after_retaking (refused ∷ refused ∷ [])) [] refl refl
