-- ===== src/Room/Conversations/Inbox.antt =====
-- internal/chat/conversation.go, room/conversations.go: where a conversation stands in the inbox, and
-- what a person may do with it.
use mohuddle.Base.{
  trim_space, is_empty, String, Result, ok, err, ℕ, suc, ◌+◌, Bool, true, false, not, List, [], ◌∷◌,
  none, some, leb, ◌==◌, if◌then◌else◌,
}
use mohuddle.Room.Continuations.{
  ConversationState, finding, waiting, answering, retrying, answered, needs_attention, failed,
  dismissed, cancelled,
}
use mohuddle.Room.Conversations.{
  ConversationJob, host_stopped, no_reason, retire_from, total_budget, passed,
}

pub data InboxCategory : Type 0 where
  working new_answer action_needed hidden : InboxCategory

abbrev pub category_of : ConversationState → (unread requires_work : Bool) → InboxCategory
category_of finding unread work = working
category_of waiting unread work = working
category_of answering unread work = working
category_of retrying unread work = working
category_of answered true work = new_answer
category_of needs_attention unread true = action_needed
category_of _ unread work = hidden

-- `DerivedInboxCategory`
abbrev pub inbox_category : ConversationJob → InboxCategory
inbox_category j =
    if j.promoted_sequence == 0 then category_of j.state j.unread j.requires_work else hidden

pub data ConversationAction : Type 0 where
  cancel_action dismiss_action add_action replace_action : ConversationAction

abbrev pub actions_of : InboxCategory → List ConversationAction
actions_of working = cancel_action ∷ []
actions_of new_answer = dismiss_action ∷ []
actions_of action_needed = add_action ∷ replace_action ∷ dismiss_action ∷ []
actions_of hidden = []

abbrev pub available_actions : ConversationJob → List ConversationAction
available_actions j = actions_of (inbox_category j)

pub record InboxCounts : Type 0 where
  pub new_answers : ℕ
  pub workings : ℕ
  pub actions_needed : ℕ

abbrev pub count_category : InboxCategory → InboxCounts → InboxCounts
count_category new_answer c = record c { new_answers = suc c.new_answers }
count_category working c = record c { workings = suc c.workings }
count_category action_needed c = record c { actions_needed = suc c.actions_needed }
count_category hidden c = c

abbrev pub count_inbox : List ConversationJob → InboxCounts → InboxCounts
count_inbox [] c = c
count_inbox (j ∷ js) c = count_inbox js (count_category (inbox_category j) c)

pub data ConversationError : Type 0 where
  not_active not_failed not_waiting too_early already_extended not_dismissible : ConversationError
  no_text not_appended : ConversationError

abbrev pub Answer : Type 0
Answer = Result ConversationError ConversationJob

abbrev pub is_working : InboxCategory → Bool
is_working working = true
is_working _ = false

abbrev pub stop : ℕ → ConversationJob → ConversationJob
stop now j = record j {
  state = cancelled;
  requires_work = false;
  terminal_reason = "cancelled by the human";
  reason_code = host_stopped;
  completed_at = some now;
  unread = false;
  updated_at = now;
  retire_at = retire_from j.temporary now j.retire_at;
}

-- `CancelConversation`, up to the save.
unfoldable pub cancel : ℕ → ConversationJob → Answer
cancel now j = if not (is_working (inbox_category j)) then err not_active else ok (stop now j)

abbrev pub is_failed : ConversationState → Bool
is_failed failed = true
is_failed _ = false

-- What a retry and an extension share: the conversation looks for a responder again, in a new window.
abbrev pub again : ℕ → ConversationJob → ConversationJob
again now j = record j {
  state = finding;
  assigned = "";
  attempt_window = suc j.attempt_window;
  started_at = some now;
  deadline = some (now + total_budget j.class);
  retire_at = none;
  terminal_reason = "";
  reason_code = no_reason;
  completed_at = none;
  requires_work = false;
  failure_sequence = 0;
  wait_reason = "";
  updated_at = now;
}

-- `RetryConversation`
unfoldable pub retry : ℕ → ConversationJob → Answer
retry now j = if not (is_failed j.state) then err not_failed else ok (again now j)

-- `KeepWaitingConversation`
unfoldable pub keep_waiting : ℕ → ConversationJob → Answer
keep_waiting now j =
    if not (is_failed j.state)
    then err not_waiting
    else if not (passed now j.deadline)
    then err too_early
    else if leb 1 j.extension_count
    then err already_extended
    else ok (record (again now j) { extension_count = suc j.extension_count })

abbrev pub dismiss_as : InboxCategory → ℕ → ConversationJob → Answer
dismiss_as new_answer now j = ok (record j { unread = false; updated_at = now })
dismiss_as action_needed now j =
    ok (record j { state = dismissed; requires_work = false; unread = false; updated_at = now })
dismiss_as _ now j = err not_dismissible

-- `DismissConversation`
unfoldable pub dismiss : ℕ → ConversationJob → Answer
dismiss now j = dismiss_as (inbox_category j) now j

-- A refusal changes nothing.
abbrev pub or_same : Answer → ConversationJob → ConversationJob
or_same (ok j) old = j
or_same (err _) old = old

-- `DismissAllConversations`
abbrev pub dismiss_all : ℕ → List ConversationJob → List ConversationJob
dismiss_all now [] = []
dismiss_all now (j ∷ js) = or_same (dismiss_as (inbox_category j) now j) j ∷ dismiss_all now js

abbrev pub follow_with : Result String ℕ → ℕ → ConversationJob → Answer
follow_with (err _) now j = err not_appended
follow_with (ok sequence) now j = ok (record j {
  source_sequence = sequence;
  state = finding;
  unread = false;
  answer_sequence = 0;
  attempt_window = suc j.attempt_window;
  started_at = some now;
  deadline = some (now + total_budget j.class);
  retire_at = none;
  terminal_reason = "";
  requires_work = false;
  failure_sequence = 0;
  wait_reason = "";
  updated_at = now;
})

-- `FollowUpConversation`: `appended` is the sequence of the new message, or why it is not added.
unfoldable pub follow_up : String → (appended : Result String ℕ) → ℕ → ConversationJob → Answer
follow_up text appended now j =
    if is_empty (trim_space text) then err no_text else follow_with appended now j
