-- ===== src/Lease/Scripts/Payload.antt =====
-- What the scripts read back from a lease record that they wrote.
use ai_buddy_app_agent_baken.Base.{
  ◌≡◌, ◌≢◌, refl, ◌∙◌, true, ◌&&◌, Option, none, some, List, [], ◌∷◌, ap, Text, text_eq_iff,
  text_eq, arith,
}
use ai_buddy_app_agent_baken.Lease.Codec.{NoBar, join, lua_split, split-join, lua_split-eq-split}
use ai_buddy_app_agent_baken.Lease.Scripts.{
  Claim, lease_payload, v1, part, same, present, owns, lease_key, done_key, fence_key,
}

-- `_field` leaves no bar in what a worker puts into its lease.
pub record IsClean (c : Claim) : Type 0 where
  pub owner : NoBar c.owner
  pub message_id : NoBar c.message_id
  pub event_id : NoBar c.event_id
  pub event_type : NoBar c.event_type
  pub attempt : NoBar c.attempt
  pub now_ms : NoBar c.now_ms

abbrev pub fields : Claim → Text → List Text
fields c token =
    v1 ∷ c.owner ∷ token ∷ c.message_id ∷ c.event_id ∷ c.event_type ∷ c.attempt ∷ c.now_ms ∷ []

v1-NoBar : NoBar v1
v1-NoBar = omega arith

pub lua_split-lease_payload :
    (c : Claim) (token : Text)
    → IsClean c
    → NoBar token
    → lua_split (lease_payload c token) ≡ fields c token
unfolding lease_payload
lua_split-lease_payload c token h k =
    lua_split-eq-split (lease_payload c token)
    ∙ split-join v1 _ v1-NoBar
        (h.owner, (k, (h.message_id, (h.event_id, (h.event_type, (h.attempt, (h.now_ms, tt)))))))

pub present-lease_payload :
    (c : Claim) (token : Text)
    → present (some (lease_payload c token)) ≡ some (lease_payload c token)
unfolding lease_payload join
present-lease_payload c token = refl

-- The test of the scripts on a record that a claim wrote: owner and token are its own.
pub owns-lease_payload :
    (c : Claim) (token o t : Text)
    → IsClean c
    → NoBar token
    → owns o t (some (lease_payload c token)) ≡ (text_eq c.owner o && text_eq token t)
owns-lease_payload c token o t h k =
    rw (lua_split-lease_payload c token h k) (ground (arith, text_eq_iff v1 v1))

pub lease-ne-done : (j k : Text) → lease_key j ≢ done_key k
unfolding lease_key done_key
lease-ne-done j k e = ground arith

pub lease-ne-fence : (j : Text) → lease_key j ≢ fence_key
unfolding lease_key fence_key
lease-ne-fence j e = ground arith

pub done-ne-fence : (j : Text) → done_key j ≢ fence_key
unfolding done_key fence_key
done-ne-fence j e = ground arith

pub lease_key-injective : (j k : Text) → lease_key j ≡ lease_key k → j ≡ k
unfolding lease_key
lease_key-injective j k e = cc

part-eq-some_of_same : (o : Option Text) (text : Text) → same o text ≡ true → o ≡ some text
part-eq-some_of_same none text h = cc
part-eq-some_of_same (some p) text h = ap some ((text_eq_iff p text).0 h)

-- A record that passes the test holds the token.
pub owns-token :
    (o t : Text) (stored : Option Text)
    → owns o t (present stored) ≡ true
    → (v : Text) × (stored ≡ some v) × (part 2 (lua_split v) ≡ some t)
owns-token o t none h = cc
owns-token o t (some []) h = cc
owns-token o t (some (c ∷ cs)) h =
    (c ∷ cs, refl, part-eq-some_of_same (part 2 (lua_split (c ∷ cs))) t (ground arith))
