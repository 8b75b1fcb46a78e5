-- ===== src/Fence/Stale.antt =====
-- A write with an older token does not land on a document of a newer attempt.
use ai_buddy_app_agent_baken.Base.{
  if-either, ℕ, ◌<◌, ◌≡◌, refl, sym, subst, Bool, Bool-cases, Option-cases, inl, inr, true, false,
  Option, some, List, [], ◌∷◌, Text, codes, arith,
}
use ai_buddy_app_agent_baken.Lease.Client.{Lease}
use ai_buddy_app_agent_baken.Mongo.{Mongo, Update, Answer, answered, raised}
use ai_buddy_app_agent_baken.Fence.{
  token_is, lease_fence_token, Outcome, returned, stale, with_fence, fence_clause, fenced_filter,
  document_fence, probe_filter, newer_exists, run_hook, after_write, matched_some, is_document,
  fenced_update_one, fenced_find_one_and_update,
}
use ai_buddy_app_agent_baken.Fence.Filters.{matches-fenced_filter, matches-probe_filter}

module _ (M : Mongo) where
  open M use {
    Db, Doc, Filter, Criterion, Operand, In, holds, stored, where_all, all_of, any_of, missing,
    is_null, at_most, matches, find_one, update_one, find_one_and_update, matches-where_all,
    matches-all_of, matches-any_of, matches-missing, matches-is_null, matches-at_most,
    find_one-found, find_one-missed, update_one-missed, find_one_and_update-missed,
    update_one-other, find_one_and_update-other,
  }

  -- One document, the newest, answers to the probe.
  abbrev pub Sole : List (Text × Criterion) → Doc → Db → Type 0
  Sole base d db =
      In d db
      × (matches (where_all (probe_filter M base)) d ≡ true)
      × ((e : Doc) → In e db → matches (where_all (probe_filter M base)) e ≡ true → e ≡ d)

  newer_exists-Sole :
      (base : List (Text × Criterion)) (token : ℕ) (d : Doc) (db : Db)
      → Sole base d db
      → token < document_fence M d
      → newer_exists M base token db ≡ true
  unfolding newer_exists
  newer_exists-Sole base token d db sole newer =
      elim (Option-cases (find_one (where_all (probe_filter M base)) db)) [
        | inl missed ↦ absurd (ground (arith, find_one-missed _ db d missed sole.0, sole.1))
        | inr (e, found) ↦
            let seen = find_one-found _ db e found in
            rw (found, sole.2 e seen.0 seen.1) (ground arith)
      ]

  fenced_filter-Sole :
      (base : List (Text × Criterion)) (token : ℕ) (d : Doc) (db : Db)
      → Sole base d db
      → token < document_fence M d
      → (e : Doc) → In e db
      → matches (fenced_filter M base token) e ≡ false
  unfolding fenced_filter
  fenced_filter-Sole base token d db sole newer e here =
      elim (Bool-cases (matches (where_all base) e)) [
        | inl hit ↦
            let same = sole.2 e here (matches-probe_filter M base e hit) in
            matches-fenced_filter M base token e
              (subst (λ x. token < document_fence M x) (sym same) newer)
        | inr miss ↦ rw (matches-all_of (where_all base ∷ fence_clause M token ∷ []) e, miss) refl
      ]

  -- When one document answers to the probe and carries a newer fence, both fenced calls raise
  -- StaleOwnershipError and leave the collection as the hook left it, with upsert and without.
  pub stale_write_refused :
      (lease : Lease) (hook : Option (Db → Db)) (base : List (Text × Criterion))
      (update : Update Operand) (upsert : Bool) (db : Db) (token : ℕ) (d : Doc)
      → lease_fence_token (some lease) ≡ token_is token
      → Sole base d (run_hook M hook db)
      → token < document_fence M d
      → (fenced_update_one M (some lease) hook base update upsert db
          ≡ (stale (codes "stale_fence"), run_hook M hook db))
        × (fenced_find_one_and_update M (some lease) hook base update upsert db
            ≡ (stale (codes "stale_fence"), run_hook M hook db))
  unfolding fenced_update_one fenced_find_one_and_update
  stale_write_refused lease hook base update upsert db token d held sole newer =
      let db' = run_hook M hook db in
      let shut = fenced_filter-Sole base token d db' sole newer in
      let seen = newer_exists-Sole base token d db' sole newer in
      (
        rw (held, update_one-missed _ (with_fence update token) db' shut, seen) refl,
        rw (held, find_one_and_update-missed _ (with_fence update token) db' shut, seen) refl,
      )

  -- Without upsert, the first command alone writes.
  after_write-db :
      {A : Type 0} (command : Filter → Update Operand → Bool → Db → Answer A × Db) (hit : A → Bool)
      (base : List (Text × Criterion)) (update : Update Operand) (token : ℕ) (r : Answer A × Db)
      → (after_write M command hit base update false token r).1 ≡ r.1
  after_write-db command hit base update token (answered a, db) =
      if-either (λ (o : Outcome _ × Db). o.1 ≡ db) (hit a) (returned a, db) _ (λ _. refl)
        (λ _.
          if-either (λ (o : Outcome _ × Db). o.1 ≡ db) (newer_exists M base token db)
            (stale (codes "stale_fence"), db) (returned a, db) (λ _. refl) (λ _. refl))
  after_write-db command hit base update token (raised duplicate, db) = refl

  -- A document with a newer fence that is in the collection after the hook stays as it is in both
  -- calls without upsert, whatever the filter.
  pub newer_document_kept :
      (lease : Lease) (hook : Option (Db → Db)) (base : List (Text × Criterion))
      (update : Update Operand) (db : Db) (token : ℕ) (d : Doc)
      → lease_fence_token (some lease) ≡ token_is token
      → In d (run_hook M hook db)
      → token < document_fence M d
      → In d (fenced_update_one M (some lease) hook base update false db).1
        × In d (fenced_find_one_and_update M (some lease) hook base update false db).1
  unfolding fenced_update_one fenced_find_one_and_update
  newer_document_kept lease hook base update db token d held here newer =
      let db' = run_hook M hook db in
      let passed = matches-fenced_filter M base token d newer in
      (
        rw held (
            subst (In d)
              (sym (
                after_write-db update_one (matched_some M) base update token
                  (update_one (fenced_filter M base token) (with_fence update token) false db')))
              (update_one-other _ (with_fence update token) false db' d here passed)),
        rw held (
            subst (In d)
              (sym (
                after_write-db find_one_and_update (is_document M) base update token (
                  find_one_and_update (fenced_filter M base token) (with_fence update token) false
                    db')))
              (find_one_and_update-other _ (with_fence update token) false db' d here passed)),
      )
