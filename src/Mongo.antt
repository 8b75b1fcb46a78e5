-- ===== src/Mongo.antt =====
-- A MongoDB collection as services/queue/mongo_fence.py uses it: the commands, with the laws that the
-- MongoDB documentation gives them. The server is not part of the repository, so the modules that
-- talk to it take a value of this record. A lost connection is not among the answers.
pub mod Memory
use ai_buddy_app_agent_baken.Base.{
  ℕ, ◌≡◌, Bool, true, false, ◌&&◌, Option, none, some, List, [], ◌∷◌, Text, leb, any,
}

-- What a field holds. `as_int` of another value is what Python's `int(value or 0)` gives.
pub data Value : Type 0 where
  null : Value
  number : ℕ → Value
  other : (as_int : Option ℕ) → Value

-- An update document: its `$set`, and its other operators.
pub record Update (O : Type 0) : Type 0 where
  pub set_doc : List (Text × Value)
  pub operators : List (Text × O)

-- `raised` is an exception, which may report a duplicate key.
pub data Answer (A : Type 0) : Type 0 where
  answered : A → Answer A
  raised : (duplicate : Bool) → Answer A

abbrev pub every {ℓ} : {A : Type ℓ} → (A → Bool) → List A → Bool
every p [] = true
every p (x ∷ xs) = p x && every p xs

abbrev pub absent : Option Value → Bool
absent none = true
absent (some v) = false

abbrev pub null_or_absent : Option Value → Bool
null_or_absent none = true
null_or_absent (some null) = true
null_or_absent (some (number n)) = false
null_or_absent (some (other o)) = false

-- `$lte` compares numbers only.
abbrev pub number_up_to : ℕ → Option Value → Bool
number_up_to n none = false
number_up_to n (some null) = false
number_up_to n (some (number m)) = leb m n
number_up_to n (some (other o)) = false

pub record Mongo : Type 1 where
  pub Db : Type 0
  pub Doc : Type 0
  pub Filter : Type 0
  pub Criterion : Type 0
  pub Operand : Type 0
  pub In : Doc → Db → Type 0
  pub stored : Text → Doc → Option Value
  -- What `{key: criterion}` says of a document.
  pub holds : Text × Criterion → Doc → Bool
  pub matches : Filter → Doc → Bool
  pub where_all : List (Text × Criterion) → Filter
  pub all_of : List Filter → Filter
  pub any_of : List Filter → Filter
  pub missing : Text → Filter
  pub is_null : Text → Filter
  pub at_most : Text → ℕ → Filter
  pub find_one : Filter → Db → Option Doc
  -- The answer is `matched_count`.
  pub update_one : Filter → Update Operand → (upsert : Bool) → Db → Answer ℕ × Db
  pub find_one_and_update :
      Filter → Update Operand → (upsert : Bool) → Db → Answer (Option Doc) × Db
  pub matches-where_all :
      (kvs : List (Text × Criterion)) (d : Doc)
      → matches (where_all kvs) d ≡ every (λ kv. holds kv d) kvs
  pub matches-all_of :
      (fs : List Filter) (d : Doc) → matches (all_of fs) d ≡ every (λ f. matches f d) fs
  pub matches-any_of :
      (fs : List Filter) (d : Doc) → matches (any_of fs) d ≡ any (λ f. matches f d) fs
  pub matches-missing : (k : Text) (d : Doc) → matches (missing k) d ≡ absent (stored k d)
  pub matches-is_null : (k : Text) (d : Doc) → matches (is_null k) d ≡ null_or_absent (stored k d)
  pub matches-at_most :
      (k : Text) (n : ℕ) (d : Doc) → matches (at_most k n) d ≡ number_up_to n (stored k d)
  pub find_one-found :
      (f : Filter) (db : Db) (d : Doc) → find_one f db ≡ some d → In d db × (matches f d ≡ true)
  pub find_one-missed :
      (f : Filter) (db : Db) (d : Doc) → find_one f db ≡ none → In d db → matches f d ≡ false
  pub update_one-missed :
      (f : Filter) (u : Update Operand) (db : Db)
      → ((d : Doc) → In d db → matches f d ≡ false)
      → update_one f u false db ≡ (answered 0, db)
  pub find_one_and_update-missed :
      (f : Filter) (u : Update Operand) (db : Db)
      → ((d : Doc) → In d db → matches f d ≡ false)
      → find_one_and_update f u false db ≡ (answered none, db)
  pub update_one-other :
      (f : Filter) (u : Update Operand) (upsert : Bool) (db : Db) (d : Doc)
      → In d db
      → matches f d ≡ false
      → In d (update_one f u upsert db).1
  pub find_one_and_update-other :
      (f : Filter) (u : Update Operand) (upsert : Bool) (db : Db) (d : Doc)
      → In d db
      → matches f d ≡ false
      → In d (find_one_and_update f u upsert db).1
