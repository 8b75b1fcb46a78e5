-- ===== src/Lease/Twin/Reading.antt =====
-- What `_parse` reads back from a record that `_encode` wrote.
use ai_buddy_app_agent_baken.Base.{◌≡◌, refl, some, Text, text_eq, arith}
use ai_buddy_app_agent_baken.Lease.Codec.{NoBar, join, split, split-join}
use ai_buddy_app_agent_baken.Lease.Scripts.{Claim, v1}
use ai_buddy_app_agent_baken.Lease.Scripts.Payload.{IsClean, fields}
use ai_buddy_app_agent_baken.Lease.Twin.{encode, parse}

split-encode :
    (c : Claim) (token : Text)
    → IsClean c
    → NoBar token
    → split (encode c.now_ms c token c.attempt) ≡ fields c token
split-encode c token h k =
    split-join v1 _ (omega arith)
      (h.owner, (k, (h.message_id, (h.event_id, (h.event_type, (h.attempt, (h.now_ms, tt)))))))

-- Where no field has a bar: `_parse` gives back from the record of `_encode` the owner, the token, the
-- message, the event, its type and the attempt, each in its place.
pub parse-encode :
    (c : Claim) (token : Text)
    → IsClean c
    → NoBar token
    → parse (some (encode c.now_ms c token c.attempt))
      ≡ some (record {
        owner = c.owner;
        token = token;
        message_id = c.message_id;
        event_id = c.event_id;
        event_type = c.event_type;
        attempt = c.attempt;
      })
unfolding parse join text_eq
parse-encode c token h k = rw (split-encode c token h k) refl
