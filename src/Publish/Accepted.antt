-- ===== src/Publish/Accepted.antt =====
-- Which submissions the script accepts.
use ai_buddy_app_agent_baken.Base.{
  ℕ, zero, suc, ◌≤◌, ◌≡◌, ◌≢◌, ◌⊎◌, inl, inr, refl, sym, ◌∙◌, true, false, not, ◌&&◌, none, some,
  Text, codes, text_eq, is_empty, if-either, arith,
}
use ai_buddy_app_agent_baken.Base.Decimal.{read_decimal-decimal}
use ai_buddy_app_agent_baken.Broker.{Broker, View, hash, list, stream, takes}
use ai_buddy_app_agent_baken.Publish.{
  Submission, call_of, write_speech_of, lock_key, dedupe_key, answered, atomic_publish,
}
use ai_buddy_app_agent_baken.Publish.Script.{
  Decoded, Call, Reply, one, below_one, is_absent, is_hash, differs, refusal, publish, again, first,
}
use ai_buddy_app_agent_baken.Publish.Refusal.{Allowed, refusal-Allowed}
use ai_buddy_app_agent_baken.Publish.Effects.{fill_speech-Filled, recorded-Fresh}
use ai_buddy_app_agent_baken.Publish.Board.{
  turned_away, verdict_of, board_of, announce, apart-dedupe_key,
}
use ai_buddy_app_agent_baken.Publish.Promise.{Apart, told, told-outcome_of, atomic_publish-announce}

-- A submission without a speech record whose keys are free or hold what they should.
pub record IsAcceptable (s : Submission) (v : View) : Type 0 where
  pub no_speech : write_speech_of s ≡ false
  pub full : is_empty s.payload ≡ false
  pub known_mode :
      ((s.mode ≡ codes "list") × (takes list (v.kind s.queue) ≡ true))
      ⊎ ((s.mode ≡ codes "stream") × (takes stream (v.kind s.queue) ≡ true))
  pub record_fits : takes hash (v.kind (dedupe_key s.event_id)) ≡ true
  pub unlocked : is_absent (v.kind lock_key) ≡ true

below_one-suc : (n : ℕ) → 1 ≤ n → below_one (some n) ≡ false
below_one-suc zero h = absurd (omega arith)
below_one-suc (suc n) h = refl

module _ (decode : Text → Decoded) where
  accepted-refusal :
      (ttl : ℕ) (s : Submission) (v : View)
      → 1 ≤ ttl
      → IsAcceptable s v
      → refusal decode (call_of ttl s) v ≡ none
  unfolding refusal call_of text_eq
  accepted-refusal ttl s v lives h = elim h.known_mode [
    | inl (mode, fits) ↦
        rw
          (
            mode,
            read_decimal-decimal ttl,
            below_one-suc ttl lives,
            h.full,
            h.no_speech,
            h.record_fits,
            fits,
          )
          refl
    | inr (mode, fits) ↦
        rw
          (
            mode,
            read_decimal-decimal ttl,
            below_one-suc ttl lives,
            h.full,
            h.no_speech,
            h.record_fits,
            fits,
          )
          refl
  ]

  module _ (B : Broker) where
    open B use {Db, view}

    again-heard :
        (c : Call) (db : Db)
        → Allowed c (view db)
        → verdict_of (again decode B c db).0 ≢ turned_away
    again-heard c db allowed =
        if-either (λ (r : Reply × Db). verdict_of r.0 ≢ turned_away)
          (differs ((view db).field c.dedupe (codes "payloadHash")) c.payload_hash) _ _ (λ _ e. cc)
          (λ _.
            let (filled, ran, seen) = fill_speech-Filled decode B c db allowed.speech_ttl_fits in
            rw ran (λ e. cc))

    first-heard :
        (c : Call) (db : Db)
        → c.dedupe ≢ c.queue
        → Allowed c (view db)
        → is_absent ((view db).kind c.lock) ≡ true
        → verdict_of (first decode B c db).0 ≢ turned_away
    first-heard c db apart allowed unlocked =
        if-either (λ (r : Reply × Db). verdict_of r.0 ≢ turned_away)
          (text_eq c.check_lock one && not (is_absent ((view db).kind c.lock))) _ _
          (λ locked. absurd (ground (arith, locked, unlocked)))
          (λ _. rw (recorded-Fresh decode B c db apart allowed).answer (λ e. cc))

    publish-heard :
        (c : Call) (db : Db)
        → c.dedupe ≢ c.queue
        → refusal decode c (view db) ≡ none
        → is_absent ((view db).kind c.lock) ≡ true
        → verdict_of (publish decode B c db).0 ≢ turned_away
    unfolding publish
    publish-heard c db apart accepted unlocked =
        let allowed = refusal-Allowed decode c (view db) accepted in
        rw accepted (
          if-either (λ (r : Reply × Db). verdict_of r.0 ≢ turned_away)
            (is_hash ((view db).kind c.dedupe)) (again decode B c db) (first decode B c db)
            (λ _. again-heard c db allowed) (λ _. first-heard c db apart allowed unlocked))

    -- A submission with a payload and no speech record, in list or stream mode, with a positive time to
    -- live, whose queue and dedupe record are free or of the right type, while no export lock is set,
    -- and with the queue and the speech record apart from the dedupe records: where Redis answers,
    -- it is not turned away. The call tells and changes what the specification does.
    pub accepted_announce :
        (ttl : ℕ) (s : Submission) (db : Db)
        → Apart s
        → 1 ≤ ttl
        → IsAcceptable s (view db)
        → let r = atomic_publish decode B ttl answered s db in
          (told r.0, board_of (view r.1)) ≡ announce s (board_of (view db))
    unfolding atomic_publish call_of
    accepted_announce ttl s db apart lives h =
        elim (atomic_publish-announce decode B ttl answered s db apart) [
          | inl (turned, same) ↦ absurd (
              publish-heard (call_of ttl s) db (apart-dedupe_key s.queue s.event_id apart.0)
                (accepted-refusal ttl s (view db) lives h) h.unlocked
                (sym (told-outcome_of (publish decode B (call_of ttl s) db).0) ∙ turned))
          | inr follows ↦ follows
        ]
