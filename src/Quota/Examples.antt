-- ===== src/Quota/Examples.antt =====
-- The theorem on a provider with two requests a minute.
use ai_buddy_app_agent_baken.Base.{Option, none, some, List, [], ◌∷◌, Text, codes, refl, arith}
use ai_buddy_app_agent_baken.Quota.{ProviderQuota}
use ai_buddy_app_agent_baken.Quota.Caps.{Capped}
use ai_buddy_app_agent_baken.Quota.Runs.{Call, reserve, report, run, grants-Capped}

abbrev quota : ProviderQuota
quota = record { rpm = some 2; rpd = some 100; tpm = some 500; tpd = some 1000 }

abbrev quotas : Text → Option ProviderQuota
quotas key = some quota

abbrev groq : Text
groq = codes "groq"

abbrev calls : List Call
calls =
    reserve groq 1_000_000 100
    ∷ report groq 2_000_000 100 130
    ∷ reserve groq 3_000_000 200
    ∷ reserve groq 4_000_000 10
    ∷ reserve groq 62_000_000 10
    ∷ []

grants-Capped_example : Capped quota (run quotas groq calls ((λ key. none), [])).1
grants-Capped_example = grants-Capped quotas groq quota calls refl (omega arith)
