-- ===== src/Conversation/Transitions.antt =====
-- The statuses that a conversation goes through when many workers move it, by `transition` and by
-- `mark_conversation_failed` of services/conversation/repository.py.
use ai_buddy_app_agent_baken.Base.{
  refl, Bool-cases, subst, ℕ, ◌≡◌, Bool, true, false, Option, none, some, List, [], ◌∷◌, arith, any,
  inl, inr, Text, take, if◌then◌else◌,
}
use ai_buddy_app_agent_baken.Conversation.{
  ConversationStatus, failed, completed, Conversation, Details, is_status, is_valid_transition,
  valid_transitions, transition, compare_and_set,
}

-- What `mark_conversation_failed` writes.
abbrev pub as_failed : (now : ℕ) → (error : Text) → Conversation → Conversation
as_failed now error c = record {
  status = failed;
  details = record c.details { last_error = some (take 1000 error); updated_at = now };
}

-- `mark_conversation_failed`, with `str(error)`: the document, and whether StaleOwnershipError is
-- raised, by the guard or by the fence of the write. It reads no status and asserts no transition.
unfoldable pub mark_conversation_failed :
    (now : ℕ)
    → (held passes : Bool) → (error : Text) → (stored : Option Conversation)
    → Option Conversation × Bool
unfolding is_status
mark_conversation_failed now false passes error stored = (stored, true)
mark_conversation_failed now true passes error none = (none, false)
mark_conversation_failed now true false error (some c) = (some c, true)
mark_conversation_failed now true true error (some c) =
    if is_status c.status completed then (some c, false) else (some (as_failed now error c), false)

-- A call of a worker. What a transition reads may be any document, however old.
pub data Call : Type 0 where
  move :
      (now : ℕ)
      → (held passes : Bool) → ConversationStatus
      → (Details → Details)
      → (read : Option Conversation) → Call
  mark_failed : (now : ℕ) → (held passes : Bool) → (error : Text) → Call

abbrev pub call : Call → Option Conversation → Option Conversation
call (move now held passes target updates read) stored =
    (transition now held passes target updates read stored).0
call (mark_failed now held passes error) stored =
    (mark_conversation_failed now held passes error stored).0

unfoldable pub calls : List Call → Option Conversation → Option Conversation
unfolding transition mark_conversation_failed
calls [] stored = stored
calls (c ∷ cs) stored = calls cs (call c stored)

-- Moves one after another: those that VALID_TRANSITIONS lists, and from every status but COMPLETED
-- the one to FAILED.
pub data Follows (start : ConversationStatus) : ConversationStatus → Type 0 where
  here : Follows start start
  next :
      {s : ConversationStatus} (t : ConversationStatus)
      → Follows start s
      → any (is_status t) (valid_transitions s) ≡ true
      → Follows start t
  fails :
      {s : ConversationStatus}
      → Follows start s
      → is_status s completed ≡ false
      → Follows start failed

abbrev pub StatusFollows : ConversationStatus → Option Conversation → Type 0
StatusFollows start none = ⊥
StatusFollows start (some c) = Follows start c.status

pub is_status→eq : (s t : ConversationStatus) → is_status s t ≡ true → s ≡ t
unfolding is_status
is_status→eq s t h = ground arith

-- A valid move is listed, or is none.
moves-Follows :
    (start s t : ConversationStatus)
    → Follows start s
    → is_valid_transition s t ≡ true
    → Follows start t
unfolding is_valid_transition
moves-Follows start s t f h = elim (Bool-cases (is_status s t)) [
  | inl same ↦ subst (Follows start) (is_status→eq s t same) f
  | inr other ↦ next t f (ground arith)
]

compare_and_set-StatusFollows :
    (now : ℕ) (target : ConversationStatus) (updates : Details → Details) (passes : Bool)
    (current : Conversation) (start : ConversationStatus) (stored : Option Conversation)
    → is_valid_transition current.status target ≡ true
    → StatusFollows start stored
    → StatusFollows start (compare_and_set now target updates passes current stored).0
compare_and_set-StatusFollows now target updates passes current start none h f = f
compare_and_set-StatusFollows now target updates false current start (some c) h f = f
compare_and_set-StatusFollows now target updates true current start (some c) h f =
    elim (Bool-cases (is_status c.status current.status)) [
      | inl same ↦
          rw same (
            moves-Follows start c.status target f
              (rw (is_status→eq c.status current.status same) h))
      | inr other ↦ rw other f
    ]

transition-StatusFollows :
    (now : ℕ) (held passes : Bool) (target : ConversationStatus) (updates : Details → Details)
    (read : Option Conversation) (start : ConversationStatus) (stored : Option Conversation)
    → StatusFollows start stored
    → StatusFollows start (transition now held passes target updates read stored).0
unfolding transition
transition-StatusFollows now false passes target updates read start stored f = f
transition-StatusFollows now true passes target updates none start stored f = f
transition-StatusFollows now true passes target updates (some current) start stored f =
    elim (Bool-cases (is_valid_transition current.status target)) [
      | inl valid ↦
          rw valid
            (compare_and_set-StatusFollows now target updates passes current start stored valid f)
      | inr invalid ↦ rw invalid f
    ]

mark_conversation_failed-StatusFollows :
    (now : ℕ) (held passes : Bool) (error : Text) (start : ConversationStatus)
    (stored : Option Conversation)
    → StatusFollows start stored
    → StatusFollows start (mark_conversation_failed now held passes error stored).0
unfolding mark_conversation_failed
mark_conversation_failed-StatusFollows now false passes error start stored f = f
mark_conversation_failed-StatusFollows now true passes error start none f = f
mark_conversation_failed-StatusFollows now true false error start (some c) f = f
mark_conversation_failed-StatusFollows now true true error start (some c) f =
    elim (Bool-cases (is_status c.status completed)) [
      | inl done ↦ rw done f
      | inr other ↦ rw other (fails f other)
    ]

call-StatusFollows :
    (c : Call) (start : ConversationStatus) (stored : Option Conversation)
    → StatusFollows start stored
    → StatusFollows start (call c stored)
call-StatusFollows (move now held passes target updates read) start stored f =
    transition-StatusFollows now held passes target updates read start stored f
call-StatusFollows (mark_failed now held passes error) start stored f =
    mark_conversation_failed-StatusFollows now held passes error start stored f

-- Whatever workers call `transition` and `mark_conversation_failed` for a conversation that is
-- stored, on whatever they have read, in whatever order: each change of its status is one that
-- VALID_TRANSITIONS lists, or one to FAILED from a status that is not COMPLETED.
pub calls-Follows :
    (cs : List Call) (start : ConversationStatus) (stored : Option Conversation)
    → StatusFollows start stored
    → StatusFollows start (calls cs stored)
unfolding calls
calls-Follows [] start stored f = f
calls-Follows (c ∷ cs) start stored f =
    calls-Follows cs start (call c stored) (call-StatusFollows c start stored f)

Follows-completed : {t : ConversationStatus} → Follows completed t → t ≡ completed
unfolding is_status
Follows-completed here = refl
Follows-completed (next t f h) =
    cc (subst (λ s. any (is_status t) (valid_transitions s) ≡ true) (Follows-completed f) h)
Follows-completed (fails f h) =
    cc (subst (λ s. is_status s completed ≡ false) (Follows-completed f) h)

abbrev pub IsCompleted : Option Conversation → Type 0
IsCompleted none = ⊥
IsCompleted (some c) = c.status ≡ completed

-- A conversation that is COMPLETED stays so, whatever workers call `transition` and
-- `mark_conversation_failed` for it, on whatever they have read, in whatever order.
pub completed_stays :
    (cs : List Call) (c : Conversation) → c.status ≡ completed → IsCompleted (calls cs (some c))
completed_stays cs c h = ended (calls cs (some c)) (calls-Follows cs completed (some c) (rw h here))
  where
    ended : (o : Option Conversation) → StatusFollows completed o → IsCompleted o
    ended none f = f
    ended (some last) f = Follows-completed f
