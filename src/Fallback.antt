-- ===== src/Fallback.antt =====
-- services/llm/fallback.py: a request goes to the candidates of a route in turn, each behind the quota
-- guard. Log output, the diagnostics of a route and the health check are left out.
pub mod Limits
mod Examples
use ai_buddy_app_agent_baken.Base.{
  ℕ, ◌+◌, ◌/◌, Bool, true, false, not, ◌||◌, Option, none, some, List, [], ◌∷◌, ◌++◌, Text, codes,
  is_empty, max, leb, ◌==◌, keep, length, if◌then◌else◌,
}
use ai_buddy_app_agent_baken.Quota.{ProviderQuota, Limit, Windows, reserve_for, record_actual}
use ai_buddy_app_agent_baken.Quota.Runs.{Call, reserve, report}

pub record RouteCandidate : Type 0 where
  pub provider : Text
  pub model : Text
  pub quota : Option ProviderQuota

-- An exception, by what `_should_try_next` asks of it; `lifecycle` is is_async_lifecycle_error or the
-- failure class of an asyncio error.
pub record LlmFailure : Type 0 where
  pub lifecycle : Bool
  pub provider_error : Bool
  pub retryable : Bool
  pub status_code : Option ℕ

pub data ProviderAnswer : Type 0 where
  response : (total_tokens : ℕ) → ProviderAnswer
  failure : LlmFailure → ProviderAnswer

-- A candidate with what happens if it is tried: the time of the reservation, the provider's answer,
-- and the time at which the tokens are after_response.
pub record Leg : Type 0 where
  pub candidate : RouteCandidate
  pub now : ℕ
  pub answer : ProviderAnswer
  pub later : ℕ

pub record LlmRequest : Type 0 where
  pub contents : List Text
  pub max_tokens : Option ℕ

abbrev pub total_length : List Text → ℕ
total_length [] = 0
total_length (t ∷ ts) = length t + total_length ts

abbrev pub or_zero : Option ℕ → ℕ
or_zero none = 0
or_zero (some n) = n

abbrev pub estimate_request_tokens : LlmRequest → ℕ
estimate_request_tokens request =
    max 1 (total_length request.contents / 4) + or_zero request.max_tokens

abbrev pub quota_key : RouteCandidate → Text
quota_key c = c.provider ++ (codes ":" ++ c.model)

abbrev pub is_client_status : Option ℕ → Bool
is_client_status none = false
is_client_status (some n) = n == 400 || n == 413 || n == 422 || n == 429

unfoldable pub should_try_next : LlmFailure → Bool
should_try_next e =
    if e.lifecycle
    then false
    else if e.provider_error
    then e.retryable || is_client_status e.status_code
    else true

pub data RouteOutcome : Type 0 where
  answered : (provider model : Text) → RouteOutcome
  raised : LlmFailure → RouteOutcome
  all_failed : RouteOutcome

-- What a request has done: its calls of the guard, and the requests that went out to a provider,
-- each with its key, time and tokens, in their order.
pub record Trip : Type 0 where
  pub outcome : RouteOutcome
  pub windows : Windows
  pub guard_calls : List Call
  pub sent : List (Text × (ℕ × ℕ))

abbrev pub after_call : Call → Trip → Trip
after_call c t = record t { guard_calls = c ∷ t.guard_calls }

abbrev pub after_send : Text × (ℕ × ℕ) → Trip → Trip
after_send s t = record t { sent = s ∷ t.sent }

abbrev pub done : RouteOutcome → Windows → Trip
done outcome ws = record { outcome = outcome; windows = ws; guard_calls = []; sent = [] }

-- `generate` records the tokens that a response has used, `generate_structured` does not.
abbrev pub after_response : Bool → Leg → (tokens total : ℕ) → Windows → Trip
after_response false leg tokens total ws =
    done (answered leg.candidate.provider leg.candidate.model) ws
after_response true leg tokens total ws =
    after_call (report (quota_key leg.candidate) leg.later tokens total) (
      done (answered leg.candidate.provider leg.candidate.model)
        (record_actual leg.candidate.quota (quota_key leg.candidate) leg.later tokens total ws))

-- `rest` goes on with the next candidate.
abbrev pub on_answer :
    Bool → Leg → (tokens : ℕ) → (Windows → Trip) → ProviderAnswer → Windows → Trip
on_answer records leg tokens rest (response total) ws = after_response records leg tokens total ws
on_answer records leg tokens rest (failure e) ws = elim (should_try_next e) [
  | true ↦ rest ws
  | false ↦ done (raised e) ws
]

-- The guard's refusal is an error with status 429 that may be tried again, so the next candidate follows.
abbrev pub on_guard : Bool → Leg → (tokens : ℕ) → (Windows → Trip) → Option Limit × Windows → Trip
on_guard records leg tokens rest (some limit, ws) = rest ws
on_guard records leg tokens rest (none, ws) =
    after_send (quota_key leg.candidate, (leg.now, tokens))
      (on_answer records leg tokens rest leg.answer ws)

-- The loop over the candidates.
unfoldable pub try_each : Bool → (tokens : ℕ) → List Leg → Windows → Trip
unfolding should_try_next
try_each records tokens [] ws = done all_failed ws
try_each records tokens (leg ∷ legs) ws =
    after_call (reserve (quota_key leg.candidate) leg.now tokens) (
      on_guard records leg tokens (try_each records tokens legs)
        (reserve_for leg.candidate.quota (quota_key leg.candidate) leg.now tokens ws))

-- `safe_input_budget` of a provider and a model.
module _ (safe_input_budget : Text → Text → ℕ) where
  abbrev pub candidate_fits : ℕ → Leg → Bool
  candidate_fits tokens leg =
      leb tokens (safe_input_budget leg.candidate.provider leg.candidate.model)

  abbrev pub or_all : List Leg → List Leg → List Leg
  or_all [] legs = legs
  or_all (e ∷ es) legs = e ∷ es

  unfoldable pub generate : LlmRequest → List Leg → Windows → Trip
  unfolding try_each
  generate request legs ws =
      let tokens = estimate_request_tokens request in
      try_each true tokens (keep (candidate_fits tokens) legs) ws

  unfoldable pub generate_structured : LlmRequest → List Leg → Windows → Trip
  unfolding try_each
  generate_structured request legs ws =
      let tokens = estimate_request_tokens request in
      try_each false tokens (or_all (keep (candidate_fits tokens) legs) legs) ws
