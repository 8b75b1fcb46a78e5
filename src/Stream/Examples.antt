-- ===== src/Stream/Examples.antt =====
-- The theorems on a consumer at one message.
use mathlib.Core.Option.{some-injective}
use ai_buddy_app_agent_baken.Base.{
  ◌≡◌, refl, sym, true, false, none, some, List, [], ◌∷◌, Text, codes, text_eq, arith,
  if◌then◌else◌,
}
use ai_buddy_app_agent_baken.Base.Decimal.{decimal}
use ai_buddy_app_agent_baken.Redis.Memory.{Cells, empty, memory}
use ai_buddy_app_agent_baken.Lease.Codec.{lua_split}
use ai_buddy_app_agent_baken.Lease.Fields.{null, text}
use ai_buddy_app_agent_baken.Lease.JobKey.{Event}
use ai_buddy_app_agent_baken.Lease.Scripts.{
  Claim, acquire, lease_key, done_key, fence_key, lease_payload,
}
use ai_buddy_app_agent_baken.Lease.Scripts.Fencing.{IsPast}
use ai_buddy_app_agent_baken.Lease.World.{World, Wire, unanswered, refused}
use ai_buddy_app_agent_baken.Lease.Client.{Lease, new_lease}
use ai_buddy_app_agent_baken.Stream.Config.{Envelope, other, Entry, Consumer}
use ai_buddy_app_agent_baken.Stream.Failure.{handle_failure}
use ai_buddy_app_agent_baken.Stream.Failure.Delivery.{Carried, carried_as, handle_failure-Carried}
use ai_buddy_app_agent_baken.Stream.Process.{returned, after_handler}
use ai_buddy_app_agent_baken.Stream.Process.Settlement.{Quiet, superseded_worker_is_silent}

abbrev event : Event
event = record {
  event_id = text (codes "e1");
  event_type = text (codes "goal.plan");
  user_id = text (codes "u");
  conversation_id = null;
  created_at = null;
  payload = λ key. null;
}

abbrev envelope : Envelope
envelope = record { event = event; attempt = 1 }

-- Every text but "bad" is the envelope.
abbrev consumer : Consumer memory
consumer = record {
  consumer_name = codes "worker-1";
  max_retries = 3;
  delete_after_ack = false;
  uses_default_redis = true;
  settings = record { lease_ttl_seconds = 60; completion_ttl_seconds = 600 };
  decode = λ raw. if text_eq raw (codes "bad") then none else some envelope;
  on_dead_letter = λ e w. w;
}

abbrev world : Cells → List Wire → World memory Entry
world db wires = record { db = db; wires = wires; log = []; rows = λ m. none }

handle_failure-Carried_example :
    Carried consumer
      (codes "5-0")
      (carried_as consumer (codes "bad") other (consumer.decode (codes "bad")))
      (world empty (unanswered ∷ []))
      (handle_failure consumer (codes "5-0") (codes "bad") other (world empty (unanswered ∷ [])))
handle_failure-Carried_example =
    handle_failure-Carried consumer (codes "5-0") (λ e w. refl) (codes "bad") other
      (world empty (unanswered ∷ []))

abbrev job : Text
job = codes "goal.plan|job:7"

abbrev newer : Claim
newer = record {
  owner = codes "worker-2";
  message_id = codes "6-0";
  event_id = codes "e1";
  event_type = codes "goal.plan";
  attempt = codes "0";
  ttl_ms = 60000;
  now_ms = codes "1700000000000";
}

-- The counter stood at 1, for the lease of the first worker, when the newer one claimed the job.
abbrev taken : Cells
taken = (acquire memory job newer (memory.incr fence_key empty).1).1

taken-IsPast : IsPast memory job 1 taken
unfolding acquire decimal text_eq lease_key done_key fence_key lease_payload lua_split
taken-IsPast = record {
  counted = omega arith;
  stored = λ v e. (2, omega arith, rw (sym (some-injective _ v e)) refl);
}

abbrev stale : Lease
stale = new_lease job (record newer { owner = codes "worker-1" }) (codes "1")

stale_token : stale.token ≡ decimal 1
unfolding decimal
stale_token = refl

superseded_worker_is_silent_example : Quiet consumer (world taken (refused ∷ [])) (
    after_handler consumer
      (codes "5-0")
      (codes "ok")
      7
      (returned, stale, world taken (refused ∷ [])))
superseded_worker_is_silent_example =
    superseded_worker_is_silent consumer (codes "5-0") (codes "ok") 7 1 stale
      (world taken (refused ∷ [])) stale_token taken-IsPast
