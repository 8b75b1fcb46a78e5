-- ===== src/Dispatch/Examples.antt =====
-- The theorems on a consumer with two permits that takes in one message twice.
use ai_buddy_app_agent_baken.Base.{
  ◌≡◌, ◌↔◌, ◌<◌, ◌≤◌, ◌*◌, ℕ, refl, false, true, Text, codes, text_eq, is_one_of, arith,
}
use ai_buddy_app_agent_baken.Dispatch.{
  Tasks, fresh, offer, offer_claimed, admit, begin, Turns, here, next, offering, claiming,
  admitting, beginning,
}
use ai_buddy_app_agent_baken.Dispatch.Accounting.{Accounted, tasks-Accounted}
use ai_buddy_app_agent_baken.Dispatch.Reader.{
  read_or_recover, connection_failed, recycles, is_lost, Failures, read_or_recover-recycles,
  reclaim_min_idle_ms, reclaim_min_idle_ms_lem,
}

abbrev key : Text
key = codes "5-0"

abbrev offered : Tasks
offered = offer_claimed key (offer key (fresh 2))

abbrev one_runs : Tasks
one_runs = begin key (admit key offered)

abbrev twice : Tasks
twice = begin key (admit key one_runs)

reached : Turns (fresh 2) twice
unfolding offer offer_claimed admit begin is_one_of text_eq
reached =
    next
      (next
        (next
          (next (next (next here (offering key refl)) (claiming key refl))
            (admitting key refl (omega arith) refl))
          (beginning key refl refl))
        (admitting key refl (omega arith) refl))
      (beginning key refl refl)

tasks-Accounted_example : Accounted 2 twice
tasks-Accounted_example = tasks-Accounted 2 twice reached

abbrev two_lost : Failures
two_lost = record { capacity_failures = 0; timeout_failures = 2 }

read_or_recover-recycles_example :
    ((read_or_recover {B = ℕ} (connection_failed false) two_lost).failures.timeout_failures < 3)
    × ((recycles (read_or_recover {B = ℕ} (connection_failed false) two_lost).calls ≡ true)
        ↔ ((is_lost {B = ℕ} (connection_failed false) ≡ true) × (two_lost.timeout_failures ≡ 2)))
read_or_recover-recycles_example =
    read_or_recover-recycles (connection_failed false) two_lost (omega arith)

reclaim_min_idle_ms_lem_example :
    (1000 ≤ reclaim_min_idle_ms 90 30000)
    × (30000 ≤ reclaim_min_idle_ms 90 30000)
    × (90 * 1000 ≤ reclaim_min_idle_ms 90 30000)
reclaim_min_idle_ms_lem_example = reclaim_min_idle_ms_lem 90 30000
