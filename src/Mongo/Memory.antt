-- ===== src/Mongo/Memory.antt =====
-- A collection in memory that meets the laws of the interface: the instance that the examples run on.
use ai_buddy_app_agent_baken.Base.{
  ℕ, ◌≡◌, ◌⊎◌, inl, inr, refl, sym, Bool, true, false, ◌==◌, Option, none, some, List, [], ◌∷◌,
  ◌++◌, Text, any, text_eq, if◌then◌else◌, if-either, which-branch, no-branch, arith,
}
use ai_buddy_app_agent_baken.Mongo.{
  Value, number, null, other, Update, answered, Mongo, every, absent, null_or_absent, number_up_to,
}

abbrev Document : Type 0
Document = Text → Option Value

abbrev pub is_number : ℕ → Option Value → Bool
is_number n none = false
is_number n (some null) = false
is_number n (some (number m)) = n == m
is_number n (some (other o)) = false

abbrev pub set_fields : List (Text × Value) → Document → Document
set_fields [] d = d
set_fields ((k, v) ∷ rest) d = λ j. if text_eq j k then some v else set_fields rest d j

-- Membership, by recursion.
abbrev pub Holds : Document → List Document → Type 0
Holds d [] = true ≡ false
Holds d (e ∷ db) = (d ≡ e) ⊎ Holds d db

abbrev pub find_first : (Document → Bool) → List Document → Option Document
find_first f [] = none
find_first f (d ∷ db) = let rest = find_first f db in if f d then some d else rest

abbrev pub change_first : (Document → Bool) → Update Unit → List Document → List Document
change_first f u [] = []
change_first f u (d ∷ db) =
    let rest = change_first f u db in if f d then set_fields u.set_doc d ∷ db else d ∷ rest

abbrev pub change_or_insert : (Document → Bool) → Update Unit → Bool → List Document → List Document
change_or_insert f u upsert db =
    if any f db
    then change_first f u db
    else if upsert
    then db ++ set_fields u.set_doc (λ k. none) ∷ []
    else db

pub find_first-found :
    (f : Document → Bool) (db : List Document) (d : Document)
    → find_first f db ≡ some d
    → Holds d db × (f d ≡ true)
find_first-found f [] d h = absurd (cc)
find_first-found f (e ∷ db) d h = elim (which-branch (f e) e d (find_first f db) h) [
  | inl (hit, same) ↦ (inl (sym same), rw (sym same) hit)
  | inr later ↦ let rest = find_first-found f db d later in (inr rest.0, rest.1)
]

pub find_first-missed :
    (f : Document → Bool) (db : List Document) (d : Document)
    → find_first f db ≡ none
    → Holds d db
    → f d ≡ false
find_first-missed f [] d h k = absurd cc
find_first-missed f (e ∷ db) d h (inl same) = rw same (no-branch (f e) e (find_first f db) h).0
find_first-missed f (e ∷ db) d h (inr here) =
    find_first-missed f db d (no-branch (f e) e (find_first f db) h).1 here

pub any-missed :
    (f : Document → Bool) (db : List Document)
    → ((d : Document) → Holds d db → f d ≡ false)
    → any f db ≡ false
any-missed f [] h = refl
any-missed f (d ∷ db) h = rw (h d (inl refl)) (any-missed f db (λ e here. h e (inr here)))

Holds-change_first :
    (f : Document → Bool) (u : Update Unit) (db : List Document) (d : Document)
    → Holds d db
    → f d ≡ false
    → Holds d (change_first f u db)
Holds-change_first f u [] d here miss = here
Holds-change_first f u (e ∷ db) d (inl same) miss = rw (sym same, miss) (inl refl)
Holds-change_first f u (e ∷ db) d (inr here) miss =
    if-either (Holds d) (f e) (set_fields u.set_doc e ∷ db) (e ∷ change_first f u db)
      (λ _. inr here) (λ _. inr (Holds-change_first f u db d here miss))

Holds-append : (d : Document) (db rest : List Document) → Holds d db → Holds d (db ++ rest)
Holds-append d [] rest h = absurd cc
Holds-append d (e ∷ db) rest (inl h) = inl h
Holds-append d (e ∷ db) rest (inr h) = inr (Holds-append d db rest h)

pub Holds-change_or_insert :
    (f : Document → Bool) (u : Update Unit) (upsert : Bool) (db : List Document) (d : Document)
    → Holds d db
    → f d ≡ false
    → Holds d (change_or_insert f u upsert db)
Holds-change_or_insert f u upsert db d here miss =
    if-either (Holds d) (any f db) (change_first f u db) _
      (λ _. Holds-change_first f u db d here miss)
      (λ _.
        if-either (Holds d) upsert (db ++ set_fields u.set_doc (λ k. none) ∷ []) db
          (λ _. Holds-append d db _ here) (λ _. here))

pub find_first-none :
    (f : Document → Bool) (db : List Document) → any f db ≡ false → find_first f db ≡ none
find_first-none f [] h = refl
find_first-none f (e ∷ db) h = ground (arith, find_first-none f db)

abbrev pub memory_collection : Mongo
memory_collection = record {
  Db = List Document;
  Doc = Document;
  Filter = Document → Bool;
  Criterion = ℕ;
  Operand = Unit;
  In = Holds;
  stored = λ k d. d k;
  holds = λ kv d. is_number kv.1 (d kv.0);
  matches = λ f d. f d;
  where_all = λ kvs d. every (λ kv. is_number kv.1 (d kv.0)) kvs;
  all_of = λ fs d. every (λ f. f d) fs;
  any_of = λ fs d. any (λ f. f d) fs;
  missing = λ k d. absent (d k);
  is_null = λ k d. null_or_absent (d k);
  at_most = λ k n d. number_up_to n (d k);
  find_one = find_first;
  update_one =
      λ f u upsert db. (answered (if any f db then 1 else 0), change_or_insert f u upsert db);
  find_one_and_update =
      λ f u upsert db. (answered (find_first f db), change_or_insert f u upsert db);
  matches-where_all = λ kvs d. refl;
  matches-all_of = λ fs d. refl;
  matches-any_of = λ fs d. refl;
  matches-missing = λ k d. refl;
  matches-is_null = λ k d. refl;
  matches-at_most = λ k n d. refl;
  find_one-found = find_first-found;
  find_one-missed = λ f db d h here. find_first-missed f db d h here;
  update_one-missed = λ f u db h. rw (any-missed f db h) refl;
  find_one_and_update-missed =
      λ f u db h. rw (any-missed f db h, find_first-none f db (any-missed f db h)) refl;
  update_one-other = Holds-change_or_insert;
  find_one_and_update-other = Holds-change_or_insert;
}
