-- ===== src/Fence/Examples.antt =====
-- The theorems on a collection with one plan of a user, which attempt 7 wrote.
use ai_buddy_app_agent_baken.Base.{
  ◌≡◌, refl, inl, inr, false, true, Option, none, some, List, [], ◌∷◌, Text, codes, text_eq, ℕ,
  arith,
}
use ai_buddy_app_agent_baken.Base.Decimal.{decimal, read_decimal-decimal}
use ai_buddy_app_agent_baken.Lease.Scripts.{Claim}
use ai_buddy_app_agent_baken.Lease.Client.{Lease, new_lease}
use ai_buddy_app_agent_baken.Mongo.{Value, number, Update}
use ai_buddy_app_agent_baken.Mongo.Memory.{memory_collection, set_fields, Holds}
use ai_buddy_app_agent_baken.Fence.{
  fence_field, lease_fence_token, token_is, stale, document_fence, probe_filter, fenced_update_one,
  fenced_find_one_and_update,
}
use ai_buddy_app_agent_baken.Fence.Stale.{Sole, stale_write_refused, newer_document_kept}

abbrev claim : Claim
claim = record {
  owner = codes "worker-1";
  message_id = codes "5-0";
  event_id = codes "e1";
  event_type = codes "goal.plan";
  attempt = codes "1";
  ttl_ms = 1000;
  now_ms = codes "0";
}

abbrev plan : List (Text × Value)
plan = (codes "userId", number 3) ∷ (fence_field, number 7) ∷ []

abbrev document : Text → Option Value
document = set_fields plan (λ k. none)

abbrev mine : List (Text × ℕ)
mine = (codes "userId", 3) ∷ []

-- The worker of attempt 5.
abbrev old_lease : Lease
old_lease = new_lease (codes "goal.plan:3") claim (decimal 5)

abbrev change : Update Unit
change = record { set_doc = (codes "title", number 1) ∷ []; operators = [] }

-- The newer attempt writes just before.
abbrev hook : Option (List (Text → Option Value) → List (Text → Option Value))
hook = some (λ db. document ∷ [])

old_lease-token : lease_fence_token (some old_lease) ≡ token_is 5
unfolding lease_fence_token
old_lease-token = rw (read_decimal-decimal 5) refl

only_document : (e : Text → Option Value) → Holds e (document ∷ []) → e ≡ document
only_document e (inl same) = same
only_document e (inr none_left) = absurd cc

document-Sole : Sole memory_collection mine document (document ∷ [])
unfolding probe_filter text_eq
document-Sole = (inl refl, refl, λ e here h. only_document e here)

stale_write_refused_example :
    (fenced_update_one memory_collection (some old_lease) hook mine change true []
      ≡ (stale (codes "stale_fence"), document ∷ []))
    × (fenced_find_one_and_update memory_collection (some old_lease) hook mine change true []
        ≡ (stale (codes "stale_fence"), document ∷ []))
stale_write_refused_example =
    stale_write_refused memory_collection old_lease hook mine change true [] 5 document
      old_lease-token document-Sole (unfold document_fence text_eq in omega arith)

newer_document_kept_example :
    Holds document
      (fenced_update_one memory_collection (some old_lease) hook mine change false []).1
    × Holds document
        (fenced_find_one_and_update memory_collection (some old_lease) hook mine change false []).1
newer_document_kept_example =
    newer_document_kept memory_collection old_lease hook mine change [] 5 document old_lease-token
      (inl refl) (unfold document_fence text_eq in omega arith)
