-- ===== src/Stt/Messages.antt =====
-- What the message of an error of speech-to-text says: the markers of services/conversation/stt_failure.py
-- and of `is_permanent_audio_message` in services/speech/errors.py.
use ai_buddy_app_agent_baken.Base.{
  Bool, ◌&&◌, ◌||◌, List, [], ◌∷◌, Text, codes, any, contains, if◌then◌else◌,
}
use ai_buddy_app_agent_baken.Lease.Fields.{lower}

pub data FailureType : Type 0 where
  s3_object_missing s3_permanent corrupt_audio unsupported_audio permanent_audio : FailureType
  missing_upload timeout network rate_limit provider_5xx transient_s3 : FailureType
  retry_exhausted unknown : FailureType

abbrev pub name_of : FailureType → Text
name_of s3_object_missing = codes "S3_OBJECT_MISSING"
name_of s3_permanent = codes "S3_PERMANENT"
name_of corrupt_audio = codes "CORRUPT_AUDIO"
name_of unsupported_audio = codes "UNSUPPORTED_AUDIO"
name_of permanent_audio = codes "PERMANENT_AUDIO"
name_of missing_upload = codes "MISSING_UPLOAD"
name_of timeout = codes "TIMEOUT"
name_of network = codes "NETWORK"
name_of rate_limit = codes "RATE_LIMIT"
name_of provider_5xx = codes "PROVIDER_5XX"
name_of transient_s3 = codes "TRANSIENT_S3"
name_of retry_exhausted = codes "RETRY_EXHAUSTED"
name_of unknown = codes "UNKNOWN"

unfoldable pub contains_any : Text → List Text → Bool
unfolding contains
contains_any normalized markers = any (contains normalized) markers

abbrev pub permanent_type_markers : List Text
permanent_type_markers =
    codes "s3_object_missing"
    ∷ codes "s3_permanent"
    ∷ codes "corrupt_audio"
    ∷ codes "unsupported_audio"
    ∷ codes "permanent_audio"
    ∷ codes "retry_exhausted"
    ∷ []

abbrev pub s3_missing_markers : List Text
s3_missing_markers =
    codes "nosuchkey"
    ∷ codes "no such key"
    ∷ codes "nosuchbucket"
    ∷ codes "no such bucket"
    ∷ codes "object does not exist"
    ∷ codes "object missing"
    ∷ codes "s3 permanent error: 404"
    ∷ codes "s3 permanent error: nosuchkey"
    ∷ codes "s3 permanent error: nosuchbucket"
    ∷ []

abbrev pub corrupt_markers : List Text
corrupt_markers = codes "corrupt" ∷ codes "corrupted" ∷ []

abbrev pub unsupported_markers : List Text
unsupported_markers =
    codes "unsupported audio"
    ∷ codes "unsupported data"
    ∷ codes "unsupported file"
    ∷ codes "unsupported media"
    ∷ codes "unsupported format"
    ∷ codes "invalid audio"
    ∷ codes "audio format"
    ∷ []

abbrev pub timeout_markers : List Text
timeout_markers = codes "timeout" ∷ codes "timed out" ∷ codes "deadline exceeded" ∷ []

abbrev pub network_markers : List Text
network_markers =
    codes "connection reset"
    ∷ codes "connection error"
    ∷ codes "connection aborted"
    ∷ codes "network"
    ∷ codes "temporarily unavailable"
    ∷ codes "temporary failure"
    ∷ []

abbrev pub rate_limit_markers : List Text
rate_limit_markers = codes "429" ∷ codes "too many requests" ∷ codes "rate limit" ∷ []

abbrev pub server_error_markers : List Text
server_error_markers =
    codes " 500"
    ∷ codes " 502"
    ∷ codes " 503"
    ∷ codes " 504"
    ∷ codes "status 500"
    ∷ codes "status 502"
    ∷ codes "status 503"
    ∷ codes "status 504"
    ∷ []

abbrev pub permanent_audio_markers : List Text
permanent_audio_markers =
    codes "audio format"
    ∷ codes "audio duration exceeds"
    ∷ codes "corrupt"
    ∷ codes "corrupted"
    ∷ codes "empty audio"
    ∷ codes "failed to read the file"
    ∷ codes "file is empty"
    ∷ codes "file too large"
    ∷ codes "invalid audio"
    ∷ codes "missing or empty"
    ∷ codes "no audio"
    ∷ codes "over 30 seconds"
    ∷ codes "unsupported file"
    ∷ codes "unsupported media"
    ∷ codes "unsupported audio"
    ∷ codes "unsupported data"
    ∷ codes "unprocessable"
    ∷ []

unfoldable pub is_permanent_audio_message : Text → Bool
unfolding contains_any lower
is_permanent_audio_message message = contains_any (lower message) permanent_audio_markers

unfoldable pub is_s3_missing_message : Text → Bool
unfolding contains_any contains
is_s3_missing_message normalized =
    contains_any normalized s3_missing_markers
    || contains normalized (codes "s3") && contains normalized (codes "404")

unfoldable pub is_corrupt_or_unsupported : Text → Bool
unfolding contains_any
is_corrupt_or_unsupported normalized =
    contains_any normalized corrupt_markers || contains_any normalized unsupported_markers

unfoldable pub permanent_type_from_message : Text → FailureType
unfolding contains
permanent_type_from_message normalized =
    if contains normalized (codes "s3_object_missing")
    then s3_object_missing
    else if contains normalized (codes "s3_permanent")
    then s3_permanent
    else if contains normalized (codes "corrupt_audio")
    then corrupt_audio
    else if contains normalized (codes "unsupported_audio")
    then unsupported_audio
    else if contains normalized (codes "retry_exhausted")
    then retry_exhausted
    else permanent_audio

unfoldable pub permanent_audio_type : Text → FailureType
unfolding contains_any
permanent_audio_type normalized =
    if contains_any normalized corrupt_markers
    then corrupt_audio
    else if contains_any normalized unsupported_markers
    then unsupported_audio
    else permanent_audio

unfoldable pub looks_retryable : Text → Bool
unfolding contains_any
looks_retryable normalized =
    contains_any normalized timeout_markers
    || contains_any normalized network_markers
    || contains_any normalized rate_limit_markers
    || contains_any normalized server_error_markers
