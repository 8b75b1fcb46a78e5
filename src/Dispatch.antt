-- ===== src/Dispatch.antt =====
-- services/queue/streams.py: how a consumer hands messages to tasks. `dispatch_messages`,
-- `claim_stale` and `_handle_message` run as coroutines of one event loop; between two awaits nothing
-- else runs, so each stretch between awaits is one step. The body `_process_message` is in `Stream`.
pub mod Accounting
pub mod Reader
pub mod Examples
use ai_buddy_app_agent_baken.Base.{
  ℕ, zero, suc, ◌-◌, ◌<◌, ◌≡◌, Bool, true, false, List, [], ◌∷◌, Text, text_eq, is_one_of,
  if◌then◌else◌,
}

-- `awaiting` holds the messages whose coroutine waits for the semaphore, `spawned` the tasks that
-- are created but not begun, `running` those inside `_process_message`.
pub record Tasks : Type 0 where
  pub permits : ℕ
  pub shutdown : Bool
  pub inflight : List Text
  pub awaiting : List Text
  pub spawned : List Text
  pub running : List Text

abbrev pub fresh : (concurrency : ℕ) → Tasks
fresh concurrency = record {
  permits = concurrency;
  shutdown = false;
  inflight = [];
  awaiting = [];
  spawned = [];
  running = [];
}

abbrev pub discard : Text → List Text → List Text
discard key [] = []
discard key (k ∷ ks) = let rest = discard key ks in if text_eq key k then ks else k ∷ rest

abbrev pub stop : Tasks → Tasks
stop s = record s { shutdown = true }

-- An entry of `dispatch_messages`, up to `semaphore.acquire()`.
unfoldable pub offer : Text → Tasks → Tasks
offer key s = if s.shutdown then s else record s { awaiting = key ∷ s.awaiting }

-- An entry of `claim_stale`, which passes over what is in flight.
unfoldable pub offer_claimed : Text → Tasks → Tasks
offer_claimed key s =
    if s.shutdown
    then s
    else if is_one_of key s.inflight
    then s
    else record s { awaiting = key ∷ s.awaiting }

-- The semaphore lets the coroutine go on: on shutdown the permit goes back.
unfoldable pub admit : Text → Tasks → Tasks
admit key s =
    let waiting = discard key s.awaiting in
    if s.shutdown
    then record s { awaiting = waiting }
    else record s { awaiting = waiting; permits = s.permits - 1; spawned = key ∷ s.spawned }

-- `_handle_message` up to the body; a message in flight returns at once.
unfoldable pub begin : Text → Tasks → Tasks
begin key s =
    let left = discard key s.spawned in
    if is_one_of key s.inflight
    then record s { spawned = left; permits = suc s.permits }
    else record s { spawned = left; inflight = key ∷ s.inflight; running = key ∷ s.running }

-- The two `finally` blocks.
abbrev pub leave : Text → Tasks → Tasks
leave key s = record s {
  running = discard key s.running;
  inflight = discard key s.inflight;
  permits = suc s.permits;
}

-- A turn of the event loop.
pub data Turn (s t : Tasks) : Type 0 where
  stopping : t ≡ stop s → Turn s t
  offering : (key : Text) → t ≡ offer key s → Turn s t
  claiming : (key : Text) → t ≡ offer_claimed key s → Turn s t
  admitting :
      (key : Text) → is_one_of key s.awaiting ≡ true → 0 < s.permits → t ≡ admit key s → Turn s t
  beginning : (key : Text) → is_one_of key s.spawned ≡ true → t ≡ begin key s → Turn s t
  leaving : (key : Text) → is_one_of key s.running ≡ true → t ≡ leave key s → Turn s t

pub data Turns (s : Tasks) : Tasks → Type 0 where
  here : Turns s s
  next : {t u : Tasks} → Turns s t → Turn t u → Turns s u
