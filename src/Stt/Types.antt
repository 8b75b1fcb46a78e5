-- ===== src/Stt/Types.antt =====
-- The types of classify_stt_failure: which are permanent, and what their names tell when they are read
-- back from a document.
use mathlib.Core.Option.{some-injective}
use ai_buddy_app_agent_baken.Base.{
  ◌≡◌, Bool, true, false, Option, none, some, Text, refl, is_one_of, if◌then◌else◌, ◌||◌, take,
  arith,
}
use ai_buddy_app_agent_baken.Stt.{
  SttError, message_only, SttFailureClassification, FailureType, classify_resolved,
  classify_retryable, name_of, is_permanent_stt_failure, permanent_type_from_message,
  permanent_audio_type, s3_object_missing, s3_permanent, corrupt_audio, unsupported_audio,
  permanent_audio, missing_upload, retry_exhausted, timeout, network, rate_limit, provider_5xx,
  transient_s3, unknown,
}
use ai_buddy_app_agent_baken.Stt.Chunk.{permanent_names, or_else, set_text, text_or_empty}

-- Whether a failure of the type is permanent. The classification gives no MISSING_UPLOAD.
abbrev pub permanence : FailureType → Option Bool
permanence s3_object_missing = some true
permanence s3_permanent = some true
permanence corrupt_audio = some true
permanence unsupported_audio = some true
permanence permanent_audio = some true
permanence retry_exhausted = some true
permanence missing_upload = none
permanence _ = some false

abbrev pub Agrees : SttFailureClassification → Type 0
Agrees c = permanence c.failure_type ≡ some c.permanent

permanent_type_from_message-permanence :
    (n : Text) → permanence (permanent_type_from_message n) ≡ some true
unfolding permanent_type_from_message
permanent_type_from_message-permanence n = ground arith

permanent_audio_type-permanence : (n : Text) → permanence (permanent_audio_type n) ≡ some true
unfolding permanent_audio_type
permanent_audio_type-permanence n = ground arith

classify_retryable-Agrees :
    (error : SttError) (stage : Option Text) (n : Text) → Agrees (classify_retryable error stage n)
unfolding classify_retryable
classify_retryable-Agrees error stage n = ground arith

if-Agrees :
    (b : Bool) (c d : SttFailureClassification) → Agrees c → Agrees d → Agrees (if b then c else d)
if-Agrees true c d p q = p
if-Agrees false c d p q = q

missing_or_permanent :
    (b : Bool) → permanence (if b then s3_object_missing else s3_permanent) ≡ some true
missing_or_permanent b = ground arith

pub classify_resolved-Agrees :
    (error : SttError) (stage : Option Text) (is_exhausted : Bool) (n : Text)
    → Agrees (classify_resolved error stage is_exhausted n)
unfolding classify_resolved
classify_resolved-Agrees error stage is_exhausted n =
    search
      (
        if-Agrees,
        permanent_type_from_message-permanence n,
        missing_or_permanent,
        permanent_audio_type-permanence n,
        classify_retryable-Agrees error stage n,
      )
      depth 12

-- The name of a type, stored as `lastError` and as `failureType`, tells whether it is permanent.
pub names_tell :
    (t : FailureType) (permanent : Bool)
    → permanence t ≡ some permanent
    → (is_permanent_stt_failure (message_only (name_of t)) ≡ permanent)
      × (is_one_of (name_of t) permanent_names ≡ permanent)
unfolding is_permanent_stt_failure is_one_of
names_tell s3_object_missing p h = (some-injective true p h, some-injective true p h)
names_tell s3_permanent p h = (some-injective true p h, some-injective true p h)
names_tell corrupt_audio p h = (some-injective true p h, some-injective true p h)
names_tell unsupported_audio p h = (some-injective true p h, some-injective true p h)
names_tell permanent_audio p h = (some-injective true p h, some-injective true p h)
names_tell retry_exhausted p h = (some-injective true p h, some-injective true p h)
names_tell timeout p h = (some-injective false p h, some-injective false p h)
names_tell network p h = (some-injective false p h, some-injective false p h)
names_tell rate_limit p h = (some-injective false p h, some-injective false p h)
names_tell provider_5xx p h = (some-injective false p h, some-injective false p h)
names_tell transient_s3 p h = (some-injective false p h, some-injective false p h)
names_tell unknown p h = (some-injective false p h, some-injective false p h)
names_tell missing_upload p h = cc

pub stored_name :
    (t : FailureType) (before : Option Text) (b : Text)
    → (take 200 (or_else (name_of t) b) ≡ name_of t)
      × (text_or_empty (set_text (name_of t) before) ≡ name_of t)
stored_name t before b = (ground arith, ground arith)

-- With the retries exhausted every failure is permanent, and else it does not matter.
abbrev pub Extends : Bool → SttFailureClassification → SttFailureClassification → Type 0
Extends is_exhausted c d = c.permanent ≡ (d.permanent || is_exhausted)

if-Extends :
    (x b : Bool) (c c' d d' : SttFailureClassification)
    → Extends x c c'
    → Extends x d d'
    → Extends x (if b then c else d) (if b then c' else d')
if-Extends x true c c' d d' p q = p
if-Extends x false c c' d d' p q = q

classify_retryable_permanent :
    (error : SttError) (stage : Option Text) (n : Text)
    → (classify_retryable error stage n).permanent ≡ false
unfolding classify_retryable
classify_retryable_permanent error stage n = ground arith

exhausted-Extends :
    (x : Bool) (c c' d d' : SttFailureClassification)
    → c.permanent ≡ true
    → d.permanent ≡ false
    → d'.permanent ≡ false
    → Extends x (if x then c else d) (if false then c' else d')
exhausted-Extends true c c' d d' h p q = rw q h
exhausted-Extends false c c' d d' h p q = rw (p, q) refl

pub classify_resolved-Extends :
    (error : SttError) (stage other : Option Text) (is_exhausted : Bool) (n : Text)
    → Extends is_exhausted
        (classify_resolved error stage is_exhausted n)
        (classify_resolved error other false n)
unfolding classify_resolved
classify_resolved-Extends error stage other is_exhausted n =
    search (exhausted-Extends, if-Extends, classify_retryable_permanent error) depth 12
