-- ===== src/Room/Conversations/Finish.antt =====
-- internal/room/conversations.go: how an attempt at an answer ends.
use Prim.Native.String.{◌++◌ as append_text}
use mohuddle.Base.{
  ℕ, zero, suc, ◌+◌, ◌*◌, Bool, true, false, not, ◌&&◌, String, List, [], ◌∷◌, Option, none, some,
  Result, ok, err, ltb, leb, is_empty, if◌then◌else◌, length, trim_space,
}
use mohuddle.Room.Continuations.{finding, answered, dismissed, terminal}
use mohuddle.Room.Conversations.{
  ConversationJob, ConversationAttempt, FailureLine, timed_out, failed_line, returned_nothing,
  not_saved, not_durable, needs_access, write_not_allowed, invalid_access_request,
  event_queue_overflow, effort_unsupported, no_reason, fail, window_attempt_count, passed,
  retire_from, minute, ConversationReason,
}
use mohuddle.Room.Conversations.Inbox.{is_failed}

-- What the code asks of a provider's error.
pub data RunErrorKind : Type 0 where
  was_cancelled was_late queue_overflowed effort_refused provider_failed : RunErrorKind

pub record RunError : Type 0 where
  pub kind : RunErrorKind
  pub text : String

-- How the attempt's own context ended.
pub data ContextError : Type 0 where
  context_cancelled context_late : ContextError

pub data AccessMode : Type 0 where
  read_only read_write : AccessMode

-- What the provider's call gave, and what the room answers to it: the sequence of the saved answer,
-- or why it is not saved, the same of the failure's line, whether the responder reads the host already,
-- and whether the room is saved afterwards, or why not.
pub record Outcome : Type 0 where
  pub run_error : Option RunError
  pub context_error : Option ContextError
  pub text : String
  pub requires_work : Bool
  pub access_request : Option AccessMode
  pub append_answer : Result String ℕ
  pub saved_line : Result String ℕ
  pub reads_host : Bool
  pub save_error : Option String
  pub saved_late_line : Result String ℕ

abbrev pub exists {ℓ} : {A : Type ℓ} → Option A → Bool
exists none = false
exists (some _) = true

-- `attempt.CompletedAt = &now`, and the attempt's error.
abbrev pub complete_at : ℕ → ℕ → String → List ConversationAttempt → List ConversationAttempt
complete_at k now text [] = []
complete_at zero now text (a ∷ rest) = record a { completed_at = some now; error = text } ∷ rest
complete_at (suc k) now text (a ∷ rest) = a ∷ complete_at k now text rest

abbrev pub error_at : ℕ → List ConversationAttempt → String
error_at k [] = ""
error_at zero (a ∷ rest) = a.error
error_at (suc k) (a ∷ rest) = error_at k rest

-- `temporaryGracePeriod`
abbrev pub grace : ℕ
grace = 5 * minute

-- The answer stands where it is saved.
abbrev pub answer_with :
    Result String ℕ
    → (launch : ℕ) → String
    → ℕ
    → Result String ℕ
    → ConversationJob
    → ConversationJob
answer_with (err text) launch participant now line j =
    let reason = append_text "could not persist responder answer: " text in
    fail reason not_saved now line
      (record j { attempts = complete_at launch now reason j.attempts })
answer_with (ok sequence) launch participant now line j = record j {
  state = answered;
  reason_code = no_reason;
  completed_at = some now;
  requires_work = false;
  answer_sequence = sequence;
  unread = false;
  terminal_reason = "";
  failure_sequence = 0;
  assigned = participant;
  retire_at = retire_from j.temporary (now + grace) j.retire_at;
}

abbrev pub request_work :
    (of_chatgpt : Bool) → ℕ → Result String ℕ → ConversationJob → ConversationJob
request_work true now line j =
    fail "external peer discussion cannot authorize work" needs_access now line j
request_work false now line j = record j {
  state = dismissed;
  requires_work = false;
  unread = false;
  terminal_reason = "This message needs a Work decision. No workflow was started.";
  assigned = "";
  retire_at = retire_from j.temporary now j.retire_at;
}

abbrev pub access_code : AccessMode → Bool → ConversationReason → ConversationReason
access_code read_write reads_host old = write_not_allowed
access_code read_only true old = invalid_access_request
access_code read_only false old = old

abbrev pub with_code : ConversationReason → ConversationJob → ConversationJob
with_code code j = record j { reason_code = code }

abbrev pub asks_access : String
asks_access = "conversation responder requested additional access"

abbrev pub request_access :
    AccessMode
    → (reads_host : Bool) → (launch : ℕ) → ℕ
    → Result String ℕ
    → ConversationJob
    → ConversationJob
request_access mode reads_host launch now line j =
    let after =
      fail asks_access needs_access now line
        (record j { attempts = complete_at launch now asks_access j.attempts }) in
    with_code (access_code mode reads_host after.reason_code) after

abbrev pub attempt_error : Option RunError → Option ContextError → String
attempt_error (some e) context = e.text
attempt_error none (some _) = "hard response deadline expired"
attempt_error none none = "responder returned no public answer"

-- A confirmed error of the provider, which another one may not share.
abbrev pub is_confirmed : RunErrorKind → Bool
is_confirmed provider_failed = true
is_confirmed effort_refused = true
is_confirmed _ = false

abbrev pub is_provider_error : Option RunError → Option ContextError → Bool
is_provider_error (some e) none = is_confirmed e.kind
is_provider_error _ _ = false

abbrev pub can_fail_over : (of_chatgpt : Bool) → Outcome → ℕ → ConversationJob → Bool
can_fail_over of_chatgpt out now j =
    not of_chatgpt
    && is_provider_error out.run_error out.context_error
    && ltb (window_attempt_count j) 2
    && exists j.deadline
    && not (passed now j.deadline)

abbrev pub line_of_run : Option RunErrorKind → FailureLine
line_of_run none = returned_nothing
line_of_run (some was_late) = timed_out
line_of_run (some _) = failed_line

abbrev pub kind_of : Option RunError → Option RunErrorKind
kind_of none = none
kind_of (some e) = some e.kind

abbrev pub failure_line : Option RunErrorKind → Option ContextError → FailureLine
failure_line kind (some context_late) = timed_out
failure_line kind _ = line_of_run kind

abbrev pub failure_code : Option RunErrorKind → ConversationReason → ConversationReason
failure_code (some queue_overflowed) old = event_queue_overflow
failure_code (some effort_refused) old = effort_unsupported
failure_code _ old = old

abbrev pub look_again : (temporary : Bool) → ℕ → ConversationJob → ConversationJob
look_again temporary now j = record j {
  state = finding;
  assigned = "";
  temporary = false;
  retire_at = retire_from temporary now j.retire_at;
}

abbrev pub fail_attempt : Outcome → String → ℕ → ConversationJob → ConversationJob
fail_attempt out reason now j =
    let after =
      fail reason (failure_line (kind_of out.run_error) out.context_error) now out.saved_line j in
    with_code (failure_code (kind_of out.run_error) after.reason_code) after

-- One automatic attempt of another provider, or the end.
abbrev pub fail_over :
    (of_chatgpt temporary : Bool) → Outcome → ℕ → String → ConversationJob → ConversationJob
fail_over of_chatgpt temporary out now reason j =
    if can_fail_over of_chatgpt out now j
    then look_again temporary now j
    else fail_attempt out reason now j

abbrev pub without_answer :
    Option AccessMode
    → (of_chatgpt temporary : Bool) → (launch : ℕ) → Outcome
    → ℕ
    → ConversationJob
    → ConversationJob
without_answer (some mode) of_chatgpt temporary launch out now j =
    request_access mode out.reads_host launch now out.saved_line j
without_answer none of_chatgpt temporary launch out now j =
    let reason = attempt_error out.run_error out.context_error in
    fail_over of_chatgpt temporary out now reason
      (record j { attempts = complete_at launch now reason j.attempts })

abbrev pub is_answer : Outcome → Bool
is_answer out =
    not (exists out.run_error)
    && not (exists out.context_error)
    && not (is_empty (trim_space out.text))
    && not out.requires_work
    && not (exists out.access_request)

-- The cases of the attempt of a conversation that still waits for its answer.
abbrev pub settle_attempt :
    (of_chatgpt temporary : Bool)
    → (launch : ℕ) → String
    → Outcome
    → ℕ
    → ConversationJob
    → ConversationJob
settle_attempt of_chatgpt temporary launch participant out now j =
    if is_answer out
    then answer_with out.append_answer launch participant now out.saved_line j
    else if out.requires_work
    then request_work of_chatgpt now out.saved_line j
    else without_answer out.access_request of_chatgpt temporary launch out now j

abbrev pub over : ℕ → ConversationJob → ConversationJob
over now j = record j { retire_at = retire_from j.temporary now j.retire_at }

abbrev pub completed : (launch : ℕ) → ℕ → ConversationJob → ConversationJob
completed launch now j = record j {
  attempts = complete_at launch now (error_at launch j.attempts) j.attempts;
}

abbrev pub end_attempt : ℕ → ConversationJob → ConversationJob
end_attempt now j = record j { queue_position = 0; updated_at = now }

-- `finishConversationAttempt`, up to the save.
abbrev pub finish_unsaved :
    (of_chatgpt temporary : Bool)
    → (launch : ℕ) → String
    → Outcome
    → ℕ
    → ConversationJob
    → ConversationJob
finish_unsaved of_chatgpt temporary launch participant out now j =
    let done = completed launch now j in
    end_attempt now (
      if terminal j.state
      then over now done
      else settle_attempt of_chatgpt temporary launch participant out now done)

-- What cannot be saved has failed, unless it has already.
abbrev pub save_finished : Option String → Result String ℕ → ℕ → ConversationJob → ConversationJob
save_finished none line now j = j
save_finished (some text) line now j =
    if is_failed j.state
    then j
    else fail (append_text "could not persist conversation result: " text) not_durable now line j

unfoldable pub finish_attempt :
    (of_chatgpt temporary : Bool)
    → (launch : ℕ) → String
    → Outcome
    → ℕ
    → ConversationJob
    → ConversationJob
finish_attempt of_chatgpt temporary launch participant out now j =
    if leb (length j.attempts) launch
    then j
    else save_finished out.save_error out.saved_late_line now
        (finish_unsaved of_chatgpt temporary launch participant out now j)
