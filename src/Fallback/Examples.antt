-- ===== src/Fallback/Examples.antt =====
-- The theorem on two requests over a route with two candidates, of which the first fails.
use ai_buddy_app_agent_baken.Base.{ℕ, true, false, Option, none, some, List, [], ◌∷◌, Text, codes}
use ai_buddy_app_agent_baken.Quota.{ProviderQuota}
use ai_buddy_app_agent_baken.Fallback.{Leg, ProviderAnswer, response, failure}
use ai_buddy_app_agent_baken.Fallback.Limits.{Ask, plain, structured}

abbrev one_a_minute : ProviderQuota
one_a_minute = record { rpm = some 1; rpd = none; tpm = none; tpd = some 1000 }

abbrev quotas : Text → Option ProviderQuota
quotas key = some one_a_minute

abbrev tried_at : ℕ → Text → ProviderAnswer → Leg
tried_at now provider answer = record {
  candidate = record { provider = provider; model = codes "m"; quota = some one_a_minute };
  now = now;
  answer = answer;
  later = now;
}

abbrev overloaded : ProviderAnswer
overloaded =
    failure (record {
      lifecycle = false;
      provider_error = true;
      retryable = true;
      status_code = some 503;
    })

abbrev asks : List Ask
asks =
    plain (record { contents = codes "hello" ∷ []; max_tokens = some 10 })
      (tried_at 1_000_000 (codes "groq") overloaded
        ∷ tried_at 2_000_000 (codes "mistral") (response 20)
        ∷ [])
    ∷ structured (record { contents = codes "hello" ∷ []; max_tokens = none })
        (tried_at 3_000_000 (codes "groq") (response 5)
          ∷ tried_at 4_000_000 (codes "mistral") (response 5)
          ∷ [])
    ∷ []

abbrev wide : Text → Text → ℕ
wide provider model = 1000
