-- ===== src/Publish/Refusal.antt =====
-- What the tests of the script ensure before its first write.
use mathlib.Core.Option.{none-ne-some}
use ai_buddy_app_agent_baken.Base.{
  ℕ, zero, suc, ◌≤◌, arith, ◌≡◌, refl, sym, subst, Bool, Bool-cases, inl, inr, true, false, not,
  ◌&&◌, Option, none, some, Text, codes, text_eq, is_empty, no-branch, ◌⊎◌, if◌then◌else◌,
}
use ai_buddy_app_agent_baken.Base.Decimal.{read_decimal}
use ai_buddy_app_agent_baken.Broker.{View, hash, list, stream, takes}
use ai_buddy_app_agent_baken.Publish.Script.{
  Decoded, malformed, scalar, fields, Call, one, seconds, below_one, speech_refusal, kind_refusal,
  or_kind_refusal, refusal,
}

-- What the tests before the first write ensure.
pub record Allowed (c : Call) (v : View) : Type 0 where
  pub dedupe_fits : takes hash (v.kind c.dedupe) ≡ true
  pub list_fits : text_eq c.mode (codes "list") ≡ true → takes list (v.kind c.queue) ≡ true
  pub ttl_fits : 1 ≤ seconds (read_decimal c.ttl)
  pub speech_ttl_fits : text_eq c.write_speech one ≡ true → 1 ≤ seconds (read_decimal c.speech_ttl)
  pub stream_fits : text_eq c.mode (codes "list") ≡ false → takes stream (v.kind c.queue) ≡ true

not-false : (b : Bool) → not b ≡ false → b ≡ true
not-false true h = refl
not-false false h = cc

seconds-below_one : (o : Option ℕ) → below_one o ≡ false → 1 ≤ seconds o
seconds-below_one none h = cc
seconds-below_one (some zero) h = cc
seconds-below_one (some (suc n)) h = omega arith

and-not-false : (p q : Bool) → (p && not q) ≡ false → p ≡ true → q ≡ true
and-not-false true q h k = not-false q h
and-not-false false q h k = cc

stream_mode : (l s : Bool) → (not l && not s) ≡ false → l ≡ false → s ≡ true
stream_mode true s h k = cc
stream_mode false s h k = not-false s h

if-none :
    {A : Type 0} (b : Bool) (x y : Option A)
    → (if b then x else y) ≡ none
    → ((b ≡ true) × (x ≡ none)) ⊎ ((b ≡ false) × (y ≡ none))
if-none true x y h = inl (refl, h)
if-none false x y h = inr (refl, h)

module _ (decode : Text → Decoded) where
  kind_refusal-fits :
      (c : Call) (v : View)
      → kind_refusal decode c v ≡ none
      → (takes hash (v.kind c.dedupe) ≡ true)
        × (text_eq c.mode (codes "list") ≡ true → takes list (v.kind c.queue) ≡ true)
        × (text_eq c.mode (codes "stream") ≡ true → takes stream (v.kind c.queue) ≡ true)
  kind_refusal-fits c v h =
      let dedupe = no-branch _ _ _ h in
      let lists = no-branch _ _ _ dedupe.1 in
      let streams = no-branch _ _ _ lists.1 in
      (not-false _ dedupe.0, and-not-false _ _ lists.0, and-not-false _ _ streams.0)

  speech_refusal-fits :
      (c : Call) (v : View) (d : Decoded)
      → or_kind_refusal decode (speech_refusal decode d (v.kind c.speech_key)) c v ≡ none
      → kind_refusal decode c v ≡ none
  speech_refusal-fits c v malformed h = cc
  speech_refusal-fits c v scalar h = cc
  speech_refusal-fits c v (fields fs) h = elim (Bool-cases (takes hash (v.kind c.speech_key))) [
    | inl fits ↦
        subst
          (λ b.
            or_kind_refusal decode (if b then none else some (codes "bad-speech-meta-type")) c v
            ≡ none)
          fits h
    | inr not_fits ↦ absurd (
        none-ne-some _ (
          sym (
            subst
              (λ b.
                or_kind_refusal decode (if b then none else some (codes "bad-speech-meta-type")) c v
                ≡ none)
              not_fits h)))
  ]

  kinds-Allowed :
      (c : Call) (v : View)
      → below_one (read_decimal c.ttl) ≡ false
      → (text_eq c.write_speech one ≡ true → 1 ≤ seconds (read_decimal c.speech_ttl))
      → (not (text_eq c.mode (codes "list")) && not (text_eq c.mode (codes "stream"))) ≡ false
      → kind_refusal decode c v ≡ none
      → Allowed c v
  kinds-Allowed c v ttl speech modes kinds =
      let fits = kind_refusal-fits c v kinds in
      record {
        ttl_fits = seconds-below_one _ ttl;
        speech_ttl_fits = speech;
        dedupe_fits = fits.0;
        list_fits = fits.1;
        stream_fits = λ other. fits.2 (stream_mode _ _ modes other);
      }

  pub refusal-Allowed : (c : Call) (v : View) → refusal decode c v ≡ none → Allowed c v
  unfolding refusal
  refusal-Allowed c v h =
      let modes = no-branch _ _ _ h in
      let ttls = no-branch (below_one (read_decimal c.ttl)) (codes "bad-dedupe-ttl") _ modes.1 in
      let full = no-branch (is_empty c.payload) (codes "empty-queue-payload") _ ttls.1 in
      let flags =
        no-branch (not (text_eq c.write_speech (codes "0")) && not (text_eq c.write_speech one))
          (codes "bad-speech-flag") _ full.1 in
      elim (if-none (text_eq c.write_speech one)
        (if below_one (read_decimal c.speech_ttl)
          then some (codes "bad-speech-ttl")
          else or_kind_refusal decode
              (speech_refusal decode (decode c.speech_json) (v.kind c.speech_key)) c v)
        (kind_refusal decode c v) flags.1) [
          | inl (speech, rest) ↦
              let speech_ttl =
                no-branch (below_one (read_decimal c.speech_ttl)) (codes "bad-speech-ttl") _ rest in
              kinds-Allowed c v ttls.0
                (λ _. seconds-below_one (read_decimal c.speech_ttl) speech_ttl.0) modes.0
                (speech_refusal-fits c v (decode c.speech_json) speech_ttl.1)
          | inr (none_written, rest) ↦ kinds-Allowed c v ttls.0 (λ written. cc) modes.0 rest
        ]
