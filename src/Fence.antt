-- ===== src/Fence.antt =====
-- services/queue/mongo_fence.py: writes to a collection that carry the token of the worker's lease.
-- The context variables `current_lease` and `_before_fenced_write` are arguments. `int(lease.token)`
-- reads decimal digits, which is what the acquire script gives as a token.
pub mod Filters
pub mod Stale
pub mod Examples
use ai_buddy_app_agent_baken.Base.{
  ℕ, ◌<◌, Bool, true, false, ◌||◌, Option, none, some, List, [], ◌∷◌, Text, codes, ltb, is_empty,
  text_eq, if◌then◌else◌,
}
use ai_buddy_app_agent_baken.Base.Decimal.{read_decimal}
use ai_buddy_app_agent_baken.Lease.Client.{Lease}
use ai_buddy_app_agent_baken.Lease.JobKey.{or_text}
use ai_buddy_app_agent_baken.Mongo.{
  Mongo, Value, null, number, other, Update, Answer, answered, raised,
}

abbrev pub fence_field : Text
fence_field = codes "processingFence"

-- `lease_fence_token`: outside a leased worker, a token, or StaleOwnershipError.
pub data Fence : Type 0 where
  unleased : Fence
  token_is : ℕ → Fence
  lease_stale : (reason : Text) → Fence

abbrev token_of : Option ℕ → Fence
token_of none = lease_stale (codes "bad_fence")
token_of (some n) = token_is n

unfoldable pub lease_fence_token : Option Lease → Fence
lease_fence_token none = unleased
lease_fence_token (some lease) =
    if lease.lost || lease.released
    then lease_stale (or_text lease.reason (codes "lease_lost"))
    else token_of (read_decimal lease.token)

-- A call returns, raises StaleOwnershipError, or raises the exception of the driver.
pub data Outcome (A : Type 0) : Type 0 where
  returned : A → Outcome A
  stale : (reason : Text) → Outcome A
  failed : (duplicate : Bool) → Outcome A

-- `set_doc[key] = value`
abbrev pub assign : Text → Value → List (Text × Value) → List (Text × Value)
assign key value [] = (key, value) ∷ []
assign key value ((k, v) ∷ rest) =
    let more = assign key value rest in if text_eq k key then (k, value) ∷ rest else (k, v) ∷ more

abbrev pub lookup {ℓ} : {A : Type ℓ} → Text → List (Text × A) → Option A
lookup key [] = none
lookup key ((k, v) ∷ rest) = let found = lookup key rest in if text_eq k key then some v else found

pub with_fence : {O : Type 0} → Update O → ℕ → Update O
with_fence update token = record update {
  set_doc = assign fence_field (number token) update.set_doc;
}

abbrev int_or_zero : Option ℕ → ℕ
int_or_zero none = 0
int_or_zero (some n) = n

abbrev pub fence_of : Option Value → ℕ
fence_of none = 0
fence_of (some null) = 0
fence_of (some (number n)) = n
fence_of (some (other as_int)) = int_or_zero as_int

module _ (M : Mongo) where
  open M use {
    Db, Doc, Filter, Criterion, Operand, stored, where_all, all_of, any_of, missing, is_null,
    at_most, find_one, update_one, find_one_and_update,
  }

  unfoldable pub fence_clause : ℕ → Filter
  fence_clause token =
      any_of (missing fence_field ∷ is_null fence_field ∷ at_most fence_field token ∷ [])

  unfoldable pub fenced_filter : List (Text × Criterion) → ℕ → Filter
  unfolding fence_clause
  fenced_filter base token = all_of (where_all base ∷ fence_clause token ∷ [])

  unfoldable pub document_fence : Doc → ℕ
  document_fence document = fence_of (stored fence_field document)

  abbrev pub picked : Text → Option Criterion → List (Text × Criterion) → List (Text × Criterion)
  picked key none rest = rest
  picked key (some c) rest = (key, c) ∷ rest

  abbrev pub selected : List Text → List (Text × Criterion) → List (Text × Criterion)
  selected [] base = []
  selected (key ∷ keys) base = picked key (lookup key base) (selected keys base)

  abbrev pub identity_keys : List Text
  identity_keys =
      codes "userId" ∷ codes "dateKey" ∷ codes "conversationId" ∷ codes "fingerprint" ∷ []

  abbrev pub or_base : List (Text × Criterion) → List (Text × Criterion) → List (Text × Criterion)
  or_base [] base = base
  or_base (kv ∷ ident) base = kv ∷ ident

  abbrev pub probe_by : Option Criterion → List (Text × Criterion) → List (Text × Criterion)
  probe_by (some id) base = (codes "_id", id) ∷ []
  probe_by none base = or_base (selected identity_keys base) base

  unfoldable pub probe_filter : List (Text × Criterion) → List (Text × Criterion)
  probe_filter base = probe_by (lookup (codes "_id") base) base

  abbrev pub is_newer : ℕ → Option Doc → Bool
  is_newer token none = false
  is_newer token (some document) = ltb token (document_fence document)

  -- Whether `_reject_if_newer` raises.
  unfoldable pub newer_exists : List (Text × Criterion) → ℕ → Db → Bool
  unfolding document_fence probe_filter
  newer_exists base token db = is_newer token (find_one (where_all (probe_filter base)) db)

  abbrev pub run_hook : Option (Db → Db) → Db → Db
  run_hook none db = db
  run_hook (some callback) db = callback db

  module _ {A : Type 0} (command : Filter → Update Operand → Bool → Db → Answer A × Db)
      (hit : A → Bool) where
    abbrev pub plain : Answer A × Db → Outcome A × Db
    plain (answered a, db) = (returned a, db)
    plain (raised duplicate, db) = (failed duplicate, db)

    -- The exception of the upsert: a duplicate key asks once more for a newer document.
    abbrev pub upserted : List (Text × Criterion) → ℕ → Answer A × Db → Outcome A × Db
    upserted base token (answered a, db) = (returned a, db)
    upserted base token (raised duplicate, db) =
        if newer_exists base token db
        then (if duplicate then stale (codes "stale_fence") else failed duplicate, db)
        else (failed duplicate, db)

    -- Behind the write that matched nothing.
    abbrev pub after_miss :
        List (Text × Criterion) → Update Operand → (upsert : Bool) → ℕ → A → Db → Outcome A × Db
    after_miss base update upsert token a db =
        if newer_exists base token db
        then (stale (codes "stale_fence"), db)
        else if upsert
        then upserted base token (command (where_all base) (with_fence update token) true db)
        else (returned a, db)

    abbrev pub after_write :
        List (Text × Criterion)
        → Update Operand
        → (upsert : Bool) → ℕ
        → Answer A × Db
        → Outcome A × Db
    after_write base update upsert token (answered a, db) =
        if hit a then (returned a, db) else after_miss base update upsert token a db
    after_write base update upsert token (raised duplicate, db) = (failed duplicate, db)

    -- The two functions of the source differ in the command and in how it reports a match.
    abbrev pub fenced_write :
        Fence
        → Option (Db → Db)
        → List (Text × Criterion)
        → Update Operand
        → (upsert : Bool) → Db
        → Outcome A × Db
    fenced_write unleased hook base update upsert db =
        plain (command (where_all base) update upsert (run_hook hook db))
    fenced_write (token_is token) hook base update upsert db =
        after_write base update upsert token
          (command (fenced_filter base token) (with_fence update token) false (run_hook hook db))
    fenced_write (lease_stale reason) hook base update upsert db = (stale reason, db)

  abbrev pub matched_some : ℕ → Bool
  matched_some n = ltb 0 n

  abbrev pub is_document : Option Doc → Bool
  is_document none = false
  is_document (some document) = true

  unfoldable pub fenced_update_one :
      Option Lease
      → Option (Db → Db)
      → List (Text × Criterion)
      → Update Operand
      → (upsert : Bool) → Db
      → Outcome ℕ × Db
  unfolding lease_fence_token newer_exists fenced_filter
  fenced_update_one lease = fenced_write update_one matched_some (lease_fence_token lease)

  unfoldable pub fenced_find_one_and_update :
      Option Lease
      → Option (Db → Db)
      → List (Text × Criterion)
      → Update Operand
      → (upsert : Bool) → Db
      → Outcome (Option Doc) × Db
  unfolding lease_fence_token newer_exists fenced_filter
  fenced_find_one_and_update lease =
      fenced_write find_one_and_update is_document (lease_fence_token lease)
