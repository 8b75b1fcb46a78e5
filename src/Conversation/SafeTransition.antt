-- ===== src/Conversation/SafeTransition.antt =====
-- `_safe_transition` of services/conversation/finalization.py.
use ai_buddy_app_agent_baken.Base.{ℕ, Bool, true, false, Option, none, some, if◌then◌else◌}
use ai_buddy_app_agent_baken.Conversation.{
  ConversationStatus, ready_for_processing, processing, validating, completed, Conversation,
  Details, Transition, saved, stale, not_found, invalid, conflict, is_status, transition,
}

abbrev pub is_terminal_status : ConversationStatus → Bool
is_terminal_status ready_for_processing = true
is_terminal_status validating = true
is_terminal_status completed = true
is_terminal_status processing = true
is_terminal_status _ = false

-- What `_safe_transition` and the call of `transition` in it meet: the document at its own read, at
-- the read of `transition` and at the write, whether the lease is held and the fence lets it pass.
pub record Meets : Type 0 where
  pub now : ℕ
  pub current : Option Conversation
  pub read : Option Conversation
  pub stored : Option Conversation
  pub held : Bool
  pub passes : Bool

-- `raised_stale` is StaleOwnershipError, which is no ValueError.
pub data SafeResult : Type 0 where
  is_moved : Bool → SafeResult
  raised_stale : SafeResult

abbrev pub result_of : Transition → SafeResult
result_of (saved c session) = is_moved true
result_of stale = raised_stale
result_of not_found = is_moved false
result_of invalid = is_moved false
result_of conflict = is_moved false

-- The update of a conversation that has the target status already.
abbrev pub updated_as :
    (now : ℕ) → ConversationStatus → (Details → Details) → Option Conversation → Option Conversation
updated_as now target updates none = none
updated_as now target updates (some c) =
    if is_status c.status target
    then some (record c { details = record (updates c.details) { updated_at = now } })
    else some c

abbrev pub after_transition : Option Conversation × Transition → Option Conversation × SafeResult
after_transition (stored, t) = (stored, result_of t)

abbrev pub safe_from :
    Meets
    → (target : ConversationStatus) → (Details → Details)
    → Option Conversation
    → Option Conversation × SafeResult
safe_from m target updates none = (m.stored, is_moved false)
safe_from m target updates (some current) =
    if is_terminal_status current.status
    then (m.stored, is_moved false)
    else if is_status current.status target
    then (updated_as m.now target updates m.stored, is_moved false)
    else after_transition (transition m.now m.held m.passes target updates m.read m.stored)

unfoldable pub safe_transition :
    Meets → (target : ConversationStatus) → (Details → Details) → Option Conversation × SafeResult
unfolding transition is_status
safe_transition m target updates = safe_from m target updates m.current
