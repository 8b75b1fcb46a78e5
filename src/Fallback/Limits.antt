-- ===== src/Fallback/Limits.antt =====
-- The requests that a route sends out keep the quota of their provider.
use ai_buddy_app_agent_baken.Base.{
  ℕ, ◌≡◌, Option, List, [], ◌∷◌, ◌++◌, Text, text_eq, All, if◌then◌else◌,
}
use ai_buddy_app_agent_baken.Quota.{ProviderQuota, Windows}
use ai_buddy_app_agent_baken.Quota.Trim.{Log}
use ai_buddy_app_agent_baken.Quota.Runs.{Call, run}
use ai_buddy_app_agent_baken.Fallback.{
  Leg, LlmRequest, Trip, quota_key, generate, generate_structured,
}

-- The requests for the key `k`, the latest first, put onto a log.
abbrev pub onto : Text → List (Text × (ℕ × ℕ)) → Log → Log
onto k [] log = log
onto k ((key, e) ∷ sent) log = onto k sent (if text_eq k key then e ∷ log else log)

pub data Ask : Type 0 where
  plain structured : (request : LlmRequest) (legs : List Leg) → Ask

abbrev pub legs_of : Ask → List Leg
legs_of (plain request legs) = legs
legs_of (structured request legs) = legs

module _ (quota_of : Text → Option ProviderQuota) (k : Text) where
  -- The candidate has the quota of its key.
  abbrev pub Consistent : List Leg → Type 0
  Consistent = All (λ leg. quota_of (quota_key leg.candidate) ≡ leg.candidate.quota)

  -- The guard's calls of a trip lead to its windows, and log what it sent.
  abbrev Follows : Trip → Windows → Log → Log → Type 0
  Follows t ws log' log = run quota_of k t.guard_calls (ws, log') ≡ (t.windows, onto k t.sent log)

  module _ (safe_input_budget : Text → Text → ℕ) where
    unfoldable pub serve : Ask → Windows → Trip
    unfolding generate generate_structured
    serve (plain request legs) ws = generate safe_input_budget request legs ws
    serve (structured request legs) ws = generate_structured safe_input_budget request legs ws

    -- The calls of the guard, and what goes out, for requests one after the other.
    unfoldable pub guard_calls_of : List Ask → Windows → List Call
    unfolding serve
    guard_calls_of [] ws = []
    guard_calls_of (a ∷ as') ws =
        (serve a ws).guard_calls ++ guard_calls_of as' (serve a ws).windows

    unfoldable pub sent_by : List Ask → Windows → List (Text × (ℕ × ℕ))
    unfolding serve
    sent_by [] ws = []
    sent_by (a ∷ as') ws = (serve a ws).sent ++ sent_by as' (serve a ws).windows
