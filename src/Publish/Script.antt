-- ===== src/Publish/Script.antt =====
-- The script _PUBLISH_LUA of services/queue/atomic_publish.py. A command that fails ends the script,
-- and what it wrote before stays. Its numbers are the decimals that the caller prints.
use ai_buddy_app_agent_baken.Base.{
  ℕ, zero, suc, Bool, true, false, not, ◌&&◌, Option, none, some, List, [], ◌∷◌, Text, codes,
  text_eq, is_empty, if◌then◌else◌,
}
use ai_buddy_app_agent_baken.Base.Decimal.{read_decimal}
use ai_buddy_app_agent_baken.Broker.{Broker, View, Kind, absent, hash, list, stream, takes}

-- What `cjson.decode` returns: an error, a value that is no table, or the fields of a table.
pub data Field : Type 0 where
  plain : Text → Field
  table : Field

pub data Decoded : Type 0 where
  malformed scalar : Decoded
  fields : List (Text × Field) → Decoded

-- KEYS and ARGV of the script.
pub record Call : Type 0 where
  pub dedupe : Text
  pub queue : Text
  pub lock : Text
  pub speech_key : Text
  pub mode : Text
  pub payload : Text
  pub payload_hash : Text
  pub ttl : Text
  pub correlation : Text
  pub check_lock : Text
  pub write_speech : Text
  pub speech_ttl : Text
  pub speech_json : Text

pub data Reply : Type 0 where
  published : (message_id queue : Text) → Reply
  duplicate : (message_id queue : Text) → Reply
  conflict : (message_id queue : Text) → Reply
  refused : (error : Text) → Reply

abbrev pub one : Text
one = codes "1"

-- `ttl == nil or ttl < 1`
abbrev pub below_one : Option ℕ → Bool
below_one none = true
below_one (some zero) = true
below_one (some (suc n)) = false

abbrev pub seconds : Option ℕ → ℕ
seconds none = 0
seconds (some n) = n

abbrev pub is_hash : Kind → Bool
is_hash hash = true
is_hash _ = false

abbrev pub is_absent : Kind → Bool
is_absent absent = true
is_absent _ = false

-- The values of the fields that are no tables.
abbrev pub flat : List (Text × Field) → List (Text × Text)
flat [] = []
flat ((f, plain v) ∷ rest) = (f, v) ∷ flat rest
flat ((f, table) ∷ rest) = flat rest

abbrev pub fields_of : Decoded → List (Text × Field)
fields_of malformed = []
fields_of scalar = []
fields_of (fields fs) = fs

abbrev pub or_text : Option Text → Text → Text
or_text none other = other
or_text (some t) other = t

-- Whether an event is known under another fingerprint.
abbrev pub differs : Option Text → Text → Bool
differs none fingerprint = false
differs (some existing) fingerprint = not (is_empty existing) && not (text_eq existing fingerprint)

module _ (decode : Text → Decoded) where
  -- The tests of the speech record.
  abbrev pub speech_refusal : Decoded → Kind → Option Text
  speech_refusal malformed k = some (codes "cjson")
  speech_refusal scalar k = some (codes "bad-speech-meta")
  speech_refusal (fields fs) k = if takes hash k then none else some (codes "bad-speech-meta-type")

  abbrev pub kind_refusal : Call → View → Option Text
  kind_refusal c v =
      if not (takes hash (v.kind c.dedupe))
      then some (codes "bad-dedupe-type")
      else if text_eq c.mode (codes "list") && not (takes list (v.kind c.queue))
      then some (codes "bad-queue-type")
      else if text_eq c.mode (codes "stream") && not (takes stream (v.kind c.queue))
      then some (codes "bad-queue-type")
      else none

  abbrev pub or_kind_refusal : Option Text → Call → View → Option Text
  or_kind_refusal (some error) c v = some error
  or_kind_refusal none c v = kind_refusal c v

  -- The script up to its first write.
  unfoldable pub refusal : Call → View → Option Text
  refusal c v =
      if not (text_eq c.mode (codes "list")) && not (text_eq c.mode (codes "stream"))
      then some (codes "bad-queue-mode")
      else if below_one (read_decimal c.ttl)
      then some (codes "bad-dedupe-ttl")
      else if is_empty c.payload
      then some (codes "empty-queue-payload")
      else if not (text_eq c.write_speech (codes "0")) && not (text_eq c.write_speech one)
      then some (codes "bad-speech-flag")
      else if text_eq c.write_speech one
      then if below_one (read_decimal c.speech_ttl)
        then some (codes "bad-speech-ttl")
        else or_kind_refusal (speech_refusal (decode c.speech_json) (v.kind c.speech_key)) c v
      else kind_refusal c v

  module _ (B : Broker) where
    open B use {Db, view, hset, lpush, xadd, expire}

    abbrev pub expired : Text → ℕ → Option Db → Option Db
    expired key ttl none = none
    expired key ttl (some db) = some (expire key ttl db)

    abbrev pub write_hash : Text → List (Text × Text) → ℕ → Db → Option Db
    write_hash key [] ttl db = some db
    write_hash key (f ∷ fs) ttl db = expired key ttl (hset key (f ∷ fs) db)

    -- `if write_speech == '1' and EXISTS(speech_key) == 0`
    unfoldable pub fill_speech : Call → Db → Option Db
    fill_speech c db =
        if text_eq c.write_speech one && is_absent ((view db).kind c.speech_key)
        then write_hash c.speech_key (flat (fields_of (decode c.speech_json)))
            (seconds (read_decimal c.speech_ttl)) db
        else some db

    -- The end of a branch; a command that fails has left `before`.
    abbrev pub ended : Reply → Db → Option Db → Reply × Db
    ended reply before none = (refused (codes "WRONGTYPE"), before)
    ended reply before (some db) = (reply, db)

    abbrev pub repaired : Call → Reply → Db → Option Db → Reply × Db
    repaired c reply before none = (refused (codes "WRONGTYPE"), before)
    repaired c reply before (some db) = (reply, expire c.dedupe (seconds (read_decimal c.ttl)) db)

    abbrev pub answer_id : Call → Db → Text
    answer_id c db = or_text ((view db).field c.dedupe (codes "redisMessageId")) []

    abbrev pub answer_queue : Call → Db → Text
    answer_queue c db = or_text ((view db).field c.dedupe (codes "stream")) c.queue

    -- The event is known.
    abbrev pub again : Call → Db → Reply × Db
    again c db =
        if differs ((view db).field c.dedupe (codes "payloadHash")) c.payload_hash
        then (conflict (answer_id c db) (answer_queue c db), db)
        else repaired c (duplicate (answer_id c db) (answer_queue c db)) db (fill_speech c db)

    abbrev pub state_field : Text × Text
    state_field = (codes "state", codes "published")

    -- The other fields of the record.
    abbrev pub record_of : Call → Text → List (Text × Text)
    record_of c message_id =
        (codes "stream", c.queue)
        ∷ (codes "redisMessageId", message_id)
        ∷ (codes "payloadHash", c.payload_hash)
        ∷ (codes "correlationId", c.correlation)
        ∷ []

    abbrev pub fill_after : Call → Text → Db → Option Db → Reply × Db
    fill_after c message_id pushed none = (refused (codes "WRONGTYPE"), pushed)
    fill_after c message_id pushed (some recorded) =
        ended (published message_id c.queue) recorded (fill_speech c recorded)

    abbrev pub recorded : Call → Db → Option (Text × Db) → Reply × Db
    recorded c before none = (refused (codes "WRONGTYPE"), before)
    recorded c before (some (message_id, pushed)) = fill_after c message_id pushed (
        expired c.dedupe (seconds (read_decimal c.ttl))
          (hset c.dedupe (state_field ∷ record_of c message_id) pushed))

    abbrev pub as_list : Option Db → Option (Text × Db)
    as_list none = none
    as_list (some db) = some (codes "list", db)

    abbrev pub push : Call → Db → Option (Text × Db)
    push c db =
        if text_eq c.mode (codes "list")
        then as_list (lpush c.queue c.payload db)
        else xadd c.queue c.payload db

    -- The event is new.
    abbrev pub first : Call → Db → Reply × Db
    first c db =
        if text_eq c.check_lock one && not (is_absent ((view db).kind c.lock))
        then (refused (codes "speech-vector-export-locked"), db)
        else recorded c db (push c db)

    abbrev pub proceed : Option Text → Call → Db → Reply × Db
    proceed (some error) c db = (refused error, db)
    proceed none c db = if is_hash ((view db).kind c.dedupe) then again c db else first c db

    unfoldable pub publish : Call → Db → Reply × Db
    unfolding refusal fill_speech
    publish c db = proceed (refusal c (view db)) c db
