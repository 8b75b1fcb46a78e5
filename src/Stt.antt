-- ===== src/Stt.antt =====
-- services/conversation/stt_failure.py: what kind of failure an error of speech-to-text is.
mod Messages
unfoldable pub use Messages.*
pub mod Chunk
pub mod Record
mod Types
mod Recorded
mod Bookkeeping
mod Writes
mod Life
mod Examples
use ai_buddy_app_agent_baken.Base.{
  ℕ, Bool, true, false, not, ◌&&◌, ◌||◌, Option, none, some, List, [], ◌∷◌, Text, codes, any,
  contains, leb, ◌==◌, if◌then◌else◌,
}
use ai_buddy_app_agent_baken.Lease.Fields.{lower}

-- The classes that the code asks for: PermanentS3StorageError, TemporaryS3StorageError,
-- STTPermanentAudioError, STTProviderRateLimitError, STTProviderTemporaryError, ValueError, and any
-- other. None of them is a subclass of another.
pub data ErrorClass : Type 0 where
  permanent_s3 temporary_s3 permanent_audio_error rate_limit_error temporary_error value_error :
      ErrorClass
  other_error : ErrorClass

-- `Exception | str | None`; None is the empty text.
pub data SttError : Type 0 where
  message_only : (message : Text) → SttError
  raised :
      ErrorClass → (message : Text) → (provider : Option Text) → (status_code : Option ℕ) → SttError

abbrev pub message_of : SttError → Text
message_of (message_only message) = message
message_of (raised c message provider status_code) = message

abbrev pub provider_of : SttError → Option Text
provider_of (message_only message) = none
provider_of (raised c message provider status_code) = provider

abbrev pub status_code_of : SttError → Option ℕ
status_code_of (message_only message) = none
status_code_of (raised c message provider status_code) = status_code

-- `str(provider) if provider else None`
abbrev pub given : Option Text → Option Text
given none = none
given (some []) = none
given (some (c ∷ cs)) = some (c ∷ cs)

unfoldable pub is_class : (ErrorClass → Bool) → SttError → Bool
is_class p (message_only message) = false
is_class p (raised c message provider status_code) = p c

abbrev pub is_permanent_s3 : ErrorClass → Bool
is_permanent_s3 permanent_s3 = true
is_permanent_s3 _ = false

abbrev is_temporary_s3 : ErrorClass → Bool
is_temporary_s3 temporary_s3 = true
is_temporary_s3 _ = false

abbrev is_permanent_audio : ErrorClass → Bool
is_permanent_audio permanent_audio_error = true
is_permanent_audio _ = false

abbrev is_rate_limit : ErrorClass → Bool
is_rate_limit rate_limit_error = true
is_rate_limit _ = false

abbrev is_temporary : ErrorClass → Bool
is_temporary temporary_error = true
is_temporary _ = false

abbrev is_value_error : ErrorClass → Bool
is_value_error value_error = true
is_value_error _ = false

abbrev pub s3_download : Text
s3_download = codes "s3_download"

abbrev pub stt_provider : Text
stt_provider = codes "stt_provider"

abbrev pub local_audio : Text
local_audio = codes "local_audio"

abbrev pub queue_dlq : Text
queue_dlq = codes "queue_dlq"

pub record SttFailureClassification : Type 0 where
  pub permanent : Bool
  pub failure_type : FailureType
  pub failure_stage : Text
  pub provider : Option Text

-- `sanitized_message`, which every call of `_classification` gives the failure type for.
abbrev pub sanitized_message : SttFailureClassification → Text
sanitized_message c = name_of c.failure_type

unfoldable pub stage_or : Option Text → Text → Text
stage_or none fallback = fallback
stage_or (some stage) fallback = stage

-- `stage or _infer_stage(error, normalized)`; a given stage is not empty.
unfoldable pub infer_stage : SttError → Text → Option Text
unfolding contains is_class
infer_stage error normalized =
    if is_class is_permanent_s3 error
      || is_class is_temporary_s3 error
      || contains normalized (codes "s3")
    then some s3_download
    else if is_class (λ c. true) error && contains normalized (codes "missing audio file reference")
    then some local_audio
    else none

abbrev resolve_stage : Option Text → Option Text → Option Text
resolve_stage (some stage) inferred = some stage
resolve_stage none inferred = inferred

unfoldable pub is_code : ℕ → Option ℕ → Bool
is_code n none = false
is_code n (some code) = code == n

unfoldable pub is_server_error : Option ℕ → Bool
is_server_error none = false
is_server_error (some code) = leb 500 code && leb code 599

unfoldable pub s3_stage : FailureType → Text → Text
s3_stage s3_object_missing stage = s3_download
s3_stage s3_permanent stage = s3_download
s3_stage _ stage = stage

module _ (error : SttError) (stage : Option Text) where
  abbrev classification : Bool → FailureType → Text → SttFailureClassification
  classification permanent failure_type failure_stage = record {
    permanent = permanent;
    failure_type = failure_type;
    failure_stage = failure_stage;
    provider = given (provider_of error);
  }

  -- The part of `classify_stt_failure` after the retries have been looked at.
  unfoldable pub classify_retryable : Text → SttFailureClassification
  classify_retryable normalized =
      if is_class is_temporary_s3 error
      then classification false transient_s3 (stage_or stage s3_download)
      else if is_class is_rate_limit error
          || contains_any normalized rate_limit_markers
          || is_code 429 (status_code_of error)
      then classification false rate_limit (stage_or stage stt_provider)
      else if is_server_error (status_code_of error) || contains_any normalized server_error_markers
      then classification false provider_5xx (stage_or stage stt_provider)
      else if contains_any normalized timeout_markers
      then classification false timeout (stage_or stage stt_provider)
      else if is_class is_temporary error || contains_any normalized network_markers
      then classification false
          (if contains_any normalized network_markers then network else provider_5xx)
          (stage_or stage stt_provider)
      else classification false unknown (stage_or stage stt_provider)

  -- `classify_stt_failure`, given `resolved_stage`.
  unfoldable pub classify_resolved : (is_exhausted : Bool) → Text → SttFailureClassification
  unfolding classify_retryable contains_any permanent_type_from_message is_s3_missing_message
      permanent_audio_type is_permanent_audio_message is_corrupt_or_unsupported looks_retryable
  classify_resolved is_exhausted normalized =
      if contains_any normalized permanent_type_markers
      then (let failure_type = permanent_type_from_message normalized in
          classification true failure_type (s3_stage failure_type (stage_or stage stt_provider)))
      else if is_class is_permanent_s3 error || is_s3_missing_message normalized
      then classification true
          (if is_s3_missing_message normalized || is_code 404 (status_code_of error)
            then s3_object_missing
            else s3_permanent)
          (stage_or stage s3_download)
      else if is_class is_permanent_audio error
          || is_permanent_audio_message (message_of error)
          || is_corrupt_or_unsupported normalized
      then classification true (permanent_audio_type normalized) (stage_or stage stt_provider)
      else if is_class is_value_error error && not (looks_retryable normalized)
      then classification true permanent_audio (stage_or stage local_audio)
      else if is_exhausted
      then classification true retry_exhausted (stage_or stage queue_dlq)
      else classify_retryable normalized

unfoldable pub classify_stt_failure :
    SttError → (is_exhausted : Bool) → (stage : Option Text) → SttFailureClassification
unfolding classify_resolved classify_retryable contains_any permanent_type_from_message
    is_s3_missing_message permanent_audio_type is_permanent_audio_message is_corrupt_or_unsupported
    looks_retryable infer_stage lower is_class is_code is_server_error stage_or s3_stage
classify_stt_failure error is_exhausted stage =
    classify_resolved error (resolve_stage stage (infer_stage error (lower (message_of error))))
      is_exhausted (lower (message_of error))

unfoldable pub is_permanent_stt_failure : SttError → Bool
unfolding classify_stt_failure
is_permanent_stt_failure error = (classify_stt_failure error false none).permanent
