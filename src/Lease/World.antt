-- ===== src/Lease/World.antt =====
-- What an awaited Redis command can do: it is carried out and answered, it fails before the server
-- runs it, or the server runs it and the answer is lost. Both failures raise RedisError or OSError.
use ai_buddy_app_agent_baken.Base.{ℕ, Option, none, some, List, [], ◌∷◌, Text}
use ai_buddy_app_agent_baken.Redis.{Redis}

pub data Wire : Type 0 where
  answered refused unanswered : Wire

-- A row of XPENDING: the consumer that holds the message, and its delivery count, if it can be read.
pub record Row : Type 0 where
  pub consumer : Option Text
  pub deliveries : Option ℕ

-- What a worker writes to the streams. `E` is the type of the entries.
pub data Effect (E : Type 0) : Type 0 where
  acked : (message_id : Text) → Effect E
  deleted : (message_id : Text) → Effect E
  added : (entry : E) → Effect E
  reclaimed : (message_id consumer : Text) (deliveries : ℕ) → Effect E

module _ (R : Redis) (E : Type 0) where
  open R use {Db}

  -- `log` holds the effects on the streams, the latest first; `wires` says how the commands to come
  -- go, and where it ends all are answered.
  pub record World : Type 0 where
    pub db : Db
    pub wires : List Wire
    pub log : List (Effect E)
    pub rows : Text → Option Row

module _ {R : Redis} {E : Type 0} where
  open R use {Db}

  abbrev pub served : {A : Type 0} → (World R E → A × World R E) → World R E → Option A × World R E
  served run w = let (a, w') = run w in (some a, w')

  abbrev pub dropped : {A : Type 0} → (World R E → A × World R E) → World R E → Option A × World R E
  dropped run w = (none, (run w).1)

  abbrev pub send_by :
      {A : Type 0} → List Wire → (World R E → A × World R E) → World R E → Option A × World R E
  send_by [] run w = served run w
  send_by (answered ∷ wires) run w = served run (record w { wires = wires })
  send_by (refused ∷ wires) run w = (none, record w { wires = wires })
  send_by (unanswered ∷ wires) run w = dropped run (record w { wires = wires })

  -- One awaited command; `none` is the exception.
  unfoldable pub send :
      {A : Type 0} → (World R E → A × World R E) → World R E → Option A × World R E
  send run w = send_by w.wires run w

  -- A script works on the keys.
  abbrev pub script : {A : Type 0} → (Db → A × Db) → World R E → A × World R E
  script f w = let (a, db') = f w.db in (a, record w { db = db' })

  -- A stream command is written to the log.
  abbrev pub emit : Effect E → World R E → Unit {0} × World R E
  emit e w = (tt, record w { log = e ∷ w.log })
