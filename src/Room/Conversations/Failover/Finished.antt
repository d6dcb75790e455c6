-- ===== src/Room/Conversations/Failover/Finished.antt =====
-- internal/room/conversations.go: the end of an attempt keeps the attempts of each window to two.
use Prim.Native.String.{◌++◌ as append_text}
use mohuddle.Base.{
  Result, ltb→lt, ℕ, ◌≤◌, ◌≡◌, refl, sym, subst, Bool, true, false, not, ◌&&◌, String, Option, none,
  some, ltb, leb, if◌then◌else◌, ok, err, arith, length,
}
use mohuddle.Room.Continuations.{terminal}
use mohuddle.Room.Conversations.{
  needs_access, not_saved, not_durable, passed, ConversationJob, window_attempt_count, fail,
}
use mohuddle.Room.Conversations.Inbox.{is_failed}
use mohuddle.Room.Conversations.Finish.{
  AccessMode, is_provider_error, exists, error_at, finish_attempt, finish_unsaved, save_finished,
  settle_attempt, answer_with, request_work, without_answer, fail_over, look_again, fail_attempt,
  can_fail_over, Outcome, is_answer, completed, over, end_attempt,
}
use mohuddle.Room.Conversations.Failover.{window_attempts-complete_at}
use mohuddle.Room.Conversations.Failover.Assigned.{
  IsKept, IsBounded, fail-IsBounded, complete_at-IsKept,
}

abbrev IsLimited : ConversationJob → Type 0
IsLimited j = IsKept j.attempts j.attempt_window

answer_with-IsBounded :
    (answer : Result String ℕ) (launch : ℕ) (participant : String) (now : ℕ)
    (line : Result String ℕ) (j : ConversationJob)
    → IsLimited j
    → IsBounded (answer_with answer launch participant now line j)
answer_with-IsBounded (err text) launch participant now line j h =
    fail-IsBounded _ not_saved now line _
      (complete_at-IsKept launch now _ j.attempts j.attempt_window h)
answer_with-IsBounded (ok sequence) launch participant now line j h = (h, λ e. cc)

request_work-IsBounded :
    (of_chatgpt : Bool) (now : ℕ) (line : Result String ℕ) (j : ConversationJob)
    → IsLimited j
    → IsBounded (request_work of_chatgpt now line j)
request_work-IsBounded true now line j h = fail-IsBounded _ needs_access now line j h
request_work-IsBounded false now line j h = (h, λ e. cc)

can_fail_over-room :
    (of_chatgpt : Bool) (out : Outcome) (now : ℕ) (j : ConversationJob)
    → can_fail_over of_chatgpt out now j ≡ true
    → window_attempt_count j ≤ 1
can_fail_over-room of_chatgpt out now j h =
    let two =
      third (not of_chatgpt && is_provider_error out.run_error out.context_error)
        (ltb (window_attempt_count j) 2) (exists j.deadline) (not (passed now j.deadline)) h in
    let lt = ltb→lt (window_attempt_count j) 2 two in omega arith
  where
    third : (a b c d : Bool) → (a && b && c && d) ≡ true → b ≡ true
    third true true c d h = refl
    third true false c d h = cc
    third false b c d h = cc

fail_over-IsBounded :
    (of_chatgpt temporary : Bool) (out : Outcome) (now : ℕ) (reason : String) (j : ConversationJob)
    → IsLimited j
    → IsBounded (fail_over of_chatgpt temporary out now reason j)
fail_over-IsBounded of_chatgpt temporary out now reason j h =
    of_test (can_fail_over of_chatgpt out now j) (can_fail_over-room of_chatgpt out now j)
  where
    of_test :
        (t : Bool)
        → (t ≡ true → window_attempt_count j ≤ 1)
        → IsBounded (if t then look_again temporary now j else fail_attempt out reason now j)
    of_test true room = (h, λ e. room refl)
    of_test false room = fail-IsBounded _ _ now out.saved_line j h

without_answer-IsBounded :
    (access : Option AccessMode) (of_chatgpt temporary : Bool) (launch : ℕ) (out : Outcome)
    (now : ℕ) (j : ConversationJob)
    → IsLimited j
    → IsBounded (without_answer access of_chatgpt temporary launch out now j)
without_answer-IsBounded (some mode) of_chatgpt temporary launch out now j h =
    fail-IsBounded _ needs_access now out.saved_line _
      (complete_at-IsKept launch now _ j.attempts j.attempt_window h)
without_answer-IsBounded none of_chatgpt temporary launch out now j h =
    fail_over-IsBounded of_chatgpt temporary out now _ _
      (complete_at-IsKept launch now _ j.attempts j.attempt_window h)

settle_attempt-IsBounded :
    (of_chatgpt temporary : Bool) (launch : ℕ) (participant : String) (out : Outcome) (now : ℕ)
    (j : ConversationJob)
    → IsLimited j
    → IsBounded (settle_attempt of_chatgpt temporary launch participant out now j)
settle_attempt-IsBounded of_chatgpt temporary launch participant out now j h =
    of_tests (is_answer out) out.requires_work
  where
    of_tests :
        (t u : Bool)
        → IsBounded (
            if t
            then answer_with out.append_answer launch participant now out.saved_line j
            else if u
            then request_work of_chatgpt now out.saved_line j
            else without_answer out.access_request of_chatgpt temporary launch out now j)
    of_tests true u =
        answer_with-IsBounded out.append_answer launch participant now out.saved_line j h
    of_tests false true = request_work-IsBounded of_chatgpt now out.saved_line j h
    of_tests false false =
        without_answer-IsBounded out.access_request of_chatgpt temporary launch out now j h

completed-IsBounded :
    (launch now : ℕ) (j : ConversationJob) → IsBounded j → IsBounded (completed launch now j)
completed-IsBounded launch now j (h, room) = (
  complete_at-IsKept launch now _ j.attempts j.attempt_window h,
  λ e.
      subst (λ n. n ≤ 1)
        (sym (
          window_attempts-complete_at j.attempt_window launch now (error_at launch j.attempts)
            j.attempts))
        (room e),
)

finish_unsaved-IsBounded :
    (of_chatgpt temporary : Bool) (launch : ℕ) (participant : String) (out : Outcome) (now : ℕ)
    (j : ConversationJob)
    → IsBounded j
    → IsBounded (finish_unsaved of_chatgpt temporary launch participant out now j)
finish_unsaved-IsBounded of_chatgpt temporary launch participant out now j h =
    of_test (terminal j.state) (completed-IsBounded launch now j h)
  where
    of_test :
        (t : Bool)
        → IsBounded (completed launch now j)
        → IsBounded (
            end_attempt now (
              if t
              then over now (completed launch now j)
              else settle_attempt of_chatgpt temporary launch participant out now
                  (completed launch now j)))
    of_test true done = done
    of_test false done =
        settle_attempt-IsBounded of_chatgpt temporary launch participant out now
          (completed launch now j) done.0

save_finished-IsBounded :
    (error : Option String) (line : Result String ℕ) (now : ℕ) (j : ConversationJob)
    → IsBounded j
    → IsBounded (save_finished error line now j)
save_finished-IsBounded none line now j h = h
save_finished-IsBounded (some text) line now j h = of_test (is_failed j.state)
  where
    of_test :
        (t : Bool)
        → IsBounded (
            if t
            then j
            else fail
                (append_text "could not persist conversation result: " text)
                not_durable
                now
                line
                j)
    of_test true = h
    of_test false = fail-IsBounded _ not_durable now line j h.0

pub finish_attempt-IsBounded :
    (of_chatgpt temporary : Bool) (launch : ℕ) (participant : String) (out : Outcome) (now : ℕ)
    (j : ConversationJob)
    → IsBounded j
    → IsBounded (finish_attempt of_chatgpt temporary launch participant out now j)
unfolding finish_attempt
finish_attempt-IsBounded of_chatgpt temporary launch participant out now j h =
    of_test (leb (length j.attempts) launch)
  where
    of_test :
        (t : Bool)
        → IsBounded (
            if t
            then j
            else save_finished out.save_error out.saved_late_line now
                (finish_unsaved of_chatgpt temporary launch participant out now j))
    of_test true = h
    of_test false =
        save_finished-IsBounded out.save_error out.saved_late_line now
          (finish_unsaved of_chatgpt temporary launch participant out now j)
          (finish_unsaved-IsBounded of_chatgpt temporary launch participant out now j h)
