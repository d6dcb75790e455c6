-- ===== src/Room/Conversations/Deadline/Finished.antt =====
-- internal/room/conversations.go: the end of an attempt keeps the deadline of a conversation.
use Prim.Native.String.{◌++◌ as append_text}
use mohuddle.Base.{
  Result, String, ok, err, ℕ, Bool, true, false, Option, none, some, leb, if◌then◌else◌, length,
}
use mohuddle.Room.Continuations.{terminal}
use mohuddle.Room.Conversations.{needs_access, not_saved, not_durable, ConversationJob, fail}
use mohuddle.Room.Conversations.Inbox.{is_failed}
use mohuddle.Room.Conversations.Finish.{
  attempt_error, AccessMode, complete_at, finish_attempt, finish_unsaved, save_finished,
  answer_with, request_work, without_answer, fail_over, look_again, fail_attempt, can_fail_over,
  Outcome, is_answer, completed, over, end_attempt,
}
use mohuddle.Room.Conversations.Deadline.{IsDue, fail-IsDue}

answer_with-IsDue :
    (d : ℕ) (answer : Result String ℕ) (launch : ℕ) (participant : String) (now : ℕ)
    (line : Result String ℕ) (j : ConversationJob)
    → IsDue d j
    → IsDue d (answer_with answer launch participant now line j)
answer_with-IsDue d (err text) launch participant now line j h =
    fail-IsDue d _ not_saved now line _ h
answer_with-IsDue d (ok sequence) launch participant now line j h = h

request_work-IsDue :
    (d : ℕ) (of_chatgpt : Bool) (now : ℕ) (line : Result String ℕ) (j : ConversationJob)
    → IsDue d j
    → IsDue d (request_work of_chatgpt now line j)
request_work-IsDue d true now line j h = fail-IsDue d _ needs_access now line j h
request_work-IsDue d false now line j h = h

fail_over-IsDue :
    (d : ℕ) (of_chatgpt temporary : Bool) (out : Outcome) (now : ℕ) (reason : String)
    (j : ConversationJob)
    → IsDue d j
    → IsDue d (fail_over of_chatgpt temporary out now reason j)
fail_over-IsDue d of_chatgpt temporary out now reason j h =
    of_test (can_fail_over of_chatgpt out now j)
  where
    of_test :
        (t : Bool)
        → IsDue d (if t then look_again temporary now j else fail_attempt out reason now j)
    of_test true = h
    of_test false = fail-IsDue d _ _ now out.saved_line j h

without_answer-IsDue :
    (d : ℕ) (access : Option AccessMode) (of_chatgpt temporary : Bool) (launch : ℕ) (out : Outcome)
    (now : ℕ) (j : ConversationJob)
    → IsDue d j
    → IsDue d (without_answer access of_chatgpt temporary launch out now j)
without_answer-IsDue d (some mode) of_chatgpt temporary launch out now j h =
    fail-IsDue d _ needs_access now out.saved_line _ h
without_answer-IsDue d none of_chatgpt temporary launch out now j h =
    fail_over-IsDue d of_chatgpt temporary out now (attempt_error out.run_error out.context_error)
      (record j {
        attempts =
            complete_at launch now (attempt_error out.run_error out.context_error) j.attempts;
      })
      h

finish_unsaved-IsDue :
    (d : ℕ) (of_chatgpt temporary : Bool) (launch : ℕ) (participant : String) (out : Outcome)
    (now : ℕ) (j : ConversationJob)
    → IsDue d j
    → IsDue d (finish_unsaved of_chatgpt temporary launch participant out now j)
finish_unsaved-IsDue d of_chatgpt temporary launch participant out now j h =
    of_tests (terminal j.state) (is_answer out) out.requires_work
  where
    of_tests :
        (s t u : Bool)
        → IsDue d (
            end_attempt now (
              if s
              then over now (completed launch now j)
              else if t
              then answer_with out.append_answer launch participant now out.saved_line
                  (completed launch now j)
              else if u
              then request_work of_chatgpt now out.saved_line (completed launch now j)
              else without_answer out.access_request of_chatgpt temporary launch out now
                  (completed launch now j)))
    of_tests true t u = h
    of_tests false true u =
        answer_with-IsDue d out.append_answer launch participant now out.saved_line
          (completed launch now j) h
    of_tests false false true =
        request_work-IsDue d of_chatgpt now out.saved_line (completed launch now j) h
    of_tests false false false =
        without_answer-IsDue d out.access_request of_chatgpt temporary launch out now
          (completed launch now j) h

save_finished-IsDue :
    (d : ℕ) (error : Option String) (line : Result String ℕ) (now : ℕ) (j : ConversationJob)
    → IsDue d j
    → IsDue d (save_finished error line now j)
save_finished-IsDue d none line now j h = h
save_finished-IsDue d (some text) line now j h = of_test (is_failed j.state)
  where
    of_test :
        (t : Bool)
        → IsDue d (
            if t
            then j
            else fail
                (append_text "could not persist conversation result: " text)
                not_durable
                now
                line
                j)
    of_test true = h
    of_test false = fail-IsDue d _ not_durable now line j h

pub finish_attempt-IsDue :
    (d : ℕ) (of_chatgpt temporary : Bool) (launch : ℕ) (participant : String) (out : Outcome)
    (now : ℕ) (j : ConversationJob)
    → IsDue d j
    → IsDue d (finish_attempt of_chatgpt temporary launch participant out now j)
unfolding finish_attempt
finish_attempt-IsDue d of_chatgpt temporary launch participant out now j h =
    of_test (leb (length j.attempts) launch)
  where
    of_test :
        (t : Bool)
        → IsDue d (
            if t
            then j
            else save_finished out.save_error out.saved_late_line now
                (finish_unsaved of_chatgpt temporary launch participant out now j))
    of_test true = h
    of_test false =
        save_finished-IsDue d out.save_error out.saved_late_line now
          (finish_unsaved of_chatgpt temporary launch participant out now j)
          (finish_unsaved-IsDue d of_chatgpt temporary launch participant out now j h)
