-- ===== src/Room/Conversations.antt =====
-- internal/room/conversations.go, chat/conversation.go: the life of a conversation. A time is in
-- nanoseconds.
pub mod Inbox
pub mod Attempts
pub mod Finish
pub mod Steps
pub mod Failover
pub mod Settled
pub mod Deadline
pub mod Offers
mod Tests
use mohuddle.Base.{
  ℕ, suc, ◌+◌, ◌-◌, ◌*◌, Bool, true, false, not, ◌&&◌, ◌||◌, String, List, [], ◌∷◌, ◌++◌, Option,
  none, some, Result, ok, err, trim_space, ltb, ◌==◌, str_eq, is_empty, if◌then◌else◌,
}
use mohuddle.Room.Continuations.{
  ConversationState, finding, waiting, answering, retrying, answered, needs_attention, failed,
  dismissed, cancelled, terminal,
}

abbrev pub minute : ℕ
minute = 60_000_000_000

pub data ConversationClass : Type 0 where
  quick standard research : ConversationClass

abbrev pub total_budget : ConversationClass → ℕ
total_budget research = 30 * minute
total_budget _ = 10 * minute

pub data ConversationReason : Type 0 where
  no_reason host_stopped host_restarted host_closed chatgpt_left : ConversationReason
  grant_revoked grant_expired deadline_exceeded access_required : ConversationReason
  write_not_allowed invalid_access_request event_queue_overflow : ConversationReason
  effort_unsupported provider_error persistence_error no_answer unknown : ConversationReason

-- Without the effort and the turn.
pub record ConversationAttempt : Type 0 where
  pub participant : String
  pub provider : String
  pub started_at : ℕ
  pub deadline : ℕ
  pub completed_at : Option ℕ
  pub error : String
  pub window : ℕ

-- The fields that the modelled code reads; not the efforts, the mode, what is only shown, and the time
-- of the last activity. `requires_work` is the action state.
pub record ConversationJob : Type 0 where
  pub id : String
  pub source_sequence : ℕ
  pub state : ConversationState
  pub class : ConversationClass
  pub requested : List String
  pub assigned : String
  pub temporary : Bool
  pub queue_position : ℕ
  pub attempts : List ConversationAttempt
  pub answer_sequence : ℕ
  pub unread : Bool
  pub updated_at : ℕ
  pub started_at : Option ℕ
  pub deadline : Option ℕ
  pub retire_at : Option ℕ
  pub terminal_reason : String
  pub reason_code : ConversationReason
  pub completed_at : Option ℕ
  pub requires_work : Bool
  pub failure_sequence : ℕ
  pub promoted_sequence : ℕ
  pub wait_reason : String
  pub extension_count : ℕ
  pub attempt_window : ℕ

-- A temporary responder goes as soon as its conversation is over.
abbrev pub retire_from : Bool → ℕ → Option ℕ → Option ℕ
retire_from true now old = some now
retire_from false now old = old

-- The concise line that a failure adds to the transcript.
pub data FailureLine : Type 0 where
  timed_out failed_line returned_nothing not_saved not_started not_durable : FailureLine
  needs_access interrupted : FailureLine

abbrev pub code_of : FailureLine → ConversationReason
code_of timed_out = deadline_exceeded
code_of needs_access = access_required
code_of interrupted = host_restarted
code_of returned_nothing = no_answer
code_of not_started = persistence_error
code_of not_saved = persistence_error
code_of not_durable = persistence_error
code_of failed_line = provider_error

-- The sequence of the line, where it is saved: one that is there stays, and none is added twice.
abbrev pub failure_sequence_of : ℕ → Result String ℕ → ℕ
failure_sequence_of old (err _) = old
failure_sequence_of old (ok n) = if old == 0 then n else old

-- The reason that stays: the trimmed one, or why its line could not be added.
abbrev pub terminal_reason_of : String → ℕ → Result String ℕ → String
terminal_reason_of reason old (ok _) = reason
terminal_reason_of reason old (err text) = if old == 0 && is_empty reason then text else reason

-- `failConversationLocked`: `saved` is the sequence of the line, or why it is not appended.
unfoldable pub fail : String → FailureLine → ℕ → Result String ℕ → ConversationJob → ConversationJob
fail reason line now saved j = record j {
  state = failed;
  reason_code = code_of line;
  completed_at = some now;
  requires_work = false;
  terminal_reason = terminal_reason_of (trim_space reason) j.failure_sequence saved;
  assigned = "";
  queue_position = 0;
  wait_reason = "";
  unread = false;
  updated_at = now;
  retire_at = retire_from j.temporary now j.retire_at;
  failure_sequence = failure_sequence_of j.failure_sequence saved;
}

-- How many attempts the current window has had.
abbrev pub window_attempts : ℕ → List ConversationAttempt → ℕ
window_attempts window [] = 0
window_attempts window (a ∷ rest) =
    let others = window_attempts window rest in if a.window == window then suc others else others

abbrev pub window_attempt_count : ConversationJob → ℕ
window_attempt_count j = window_attempts j.attempt_window j.attempts

abbrev pub passed : ℕ → Option ℕ → Bool
passed now none = false
passed now (some deadline) = not (ltb now deadline)

-- A new conversation.
abbrev pub start : String → ℕ → List String → ConversationClass → ℕ → ConversationJob
start id sequence requested class now = record {
  id = id;
  source_sequence = sequence;
  state = finding;
  class = class;
  requested = requested;
  assigned = "";
  temporary = false;
  queue_position = 0;
  attempts = [];
  answer_sequence = 0;
  unread = false;
  updated_at = now;
  started_at = some now;
  deadline = some (now + total_budget class);
  retire_at = none;
  terminal_reason = "";
  reason_code = no_reason;
  completed_at = none;
  requires_work = false;
  failure_sequence = 0;
  promoted_sequence = 0;
  wait_reason = "";
  extension_count = 0;
  attempt_window = 0;
}
