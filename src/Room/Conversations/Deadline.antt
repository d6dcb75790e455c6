-- ===== src/Room/Conversations/Deadline.antt =====
-- internal/room/conversations.go: the scheduler keeps the deadline of a conversation.
pub mod Finished
pub mod Ends
use Prim.Native.String.{◌++◌ as append_text}
use mohuddle.Base.{
  Result, String, ok, err, ℕ, ◌+◌, ◌≤◌, ◌≡◌, refl, ap, ◌∙◌, Bool, true, false, not, ◌&&◌, ◌||◌,
  List, [], ◌∷◌, Option, none, some, All, ltb, leb, ◌==◌, str_eq, if◌then◌else◌, arith, length,
}
use mohuddle.Room.Continuations.{waiting, cancelled, terminal}
use mohuddle.Room.Conversations.{
  needs_access, not_saved, not_durable, total_budget, host_stopped, retire_from, timed_out, passed,
  ConversationJob, FailureLine, fail, start, ConversationClass,
}
use mohuddle.Room.Conversations.Inbox.{
  or_same, not_active, cancel, dismiss, is_failed, inbox_category, dismiss_as, InboxCategory,
  new_answer, action_needed, working, hidden, is_working,
}
use mohuddle.Room.Conversations.Attempts.{
  wait_at, take_back, without_last, is_idle, assign, assign_to, add_attempt, wait, begin_from,
  withdraw, expire, is_waiting,
}
use mohuddle.Room.Conversations.Finish.{
  attempt_error, AccessMode, exists, complete_at, finish_attempt, finish_unsaved, save_finished,
  answer_with, request_work, without_answer, fail_over, look_again, fail_attempt, can_fail_over,
  Outcome, is_answer, completed, over, end_attempt,
}
use mohuddle.Room.Conversations.Steps.{
  follows, Step, expires, assigns, withdraws, finishes, cancels, retries, keeps_waiting, dismisses,
  step, run_steps, select_in,
}

-- Begun, with this deadline.
abbrev pub IsDue : ℕ → ConversationJob → Type 0
IsDue d j = (j.deadline ≡ some d) × (exists j.started_at ≡ true)

pub expire-IsDue :
    (d now : ℕ) (line : Result String ℕ) (j : ConversationJob)
    → IsDue d j
    → IsDue d (expire now line j)
unfolding expire fail
expire-IsDue d now line j h = of_test (passed now j.deadline && not (terminal j.state))
  where
    of_test :
        (t : Bool)
        → IsDue d (if t then fail "hard response deadline expired" timed_out now line j else j)
    of_test true = h
    of_test false = h

wait-IsDue :
    (d now position : ℕ) (reason : String) (j : ConversationJob)
    → IsDue d j
    → IsDue d (wait now position reason j)
wait-IsDue d now position reason j h =
    of_test (is_waiting j.state && j.queue_position == position && str_eq j.wait_reason reason)
  where
    of_test : (t : Bool) → IsDue d (if t then j else wait_at now position reason j)
    of_test true = h
    of_test false = h

assign_to-IsDue :
    (d : ℕ) (selected : Option String) (now : ℕ) (temporary : Bool) (position : ℕ) (reason : String)
    (j : ConversationJob)
    → IsDue d j
    → IsDue d (assign_to selected now temporary position reason j)
assign_to-IsDue d none now temporary position reason j h = wait-IsDue d now position reason j h
assign_to-IsDue d (some p) now temporary position reason j (e, b) = of_start j.started_at b
  where
    of_start :
        (s : Option ℕ)
        → exists s ≡ true
        → IsDue d (add_attempt now temporary p (begin_from s now j))
    of_start none h = cc
    of_start (some n) h = (e, b)

pub assign-IsDue :
    (d : ℕ) (pending : Bool) (selected : Option String) (now : ℕ) (temporary : Bool) (position : ℕ)
    (reason : String) (j : ConversationJob)
    → IsDue d j
    → IsDue d (assign pending selected now temporary position reason j)
unfolding assign
assign-IsDue d pending selected now temporary position reason j h =
    of_test (not (is_idle j.state) || pending)
  where
    of_test :
        (t : Bool) → IsDue d (if t then j else assign_to selected now temporary position reason j)
    of_test true = h
    of_test false = assign_to-IsDue d selected now temporary position reason j h

pub withdraw-IsDue :
    (d launch : ℕ) (participant reason : String) (temporary : Bool) (now : ℕ) (j : ConversationJob)
    → IsDue d j
    → IsDue d (withdraw launch participant reason temporary now j)
unfolding withdraw
withdraw-IsDue d launch participant reason temporary now j h =
    of_test (terminal j.state || not (str_eq j.assigned participant))
  where
    of_test : (t : Bool) → IsDue d (if t then j else take_back launch reason temporary now j)
    of_test true = h
    of_test false = h

pub fail-IsDue :
    (d : ℕ) (reason : String) (line : FailureLine) (now : ℕ) (saved : Result String ℕ)
    (j : ConversationJob)
    → IsDue d j
    → IsDue d (fail reason line now saved j)
unfolding fail
fail-IsDue d reason line now saved j h = h
