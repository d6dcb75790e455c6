-- ===== src/Room/Conversations/Failover/Bounded.antt =====
-- internal/room/conversations.go: a conversation never asks more than two providers in a window.
use mohuddle.Base.{
  is_empty, trim_space, Result, String, ok, err, ℕ, suc, ◌≡◌, refl, Bool, true, false, not, ◌&&◌,
  ◌||◌, List, [], ◌∷◌, Option, none, some, leb, ◌==◌, str_eq, if◌then◌else◌, arith,
}
use mohuddle.Room.Continuations.{terminal}
use mohuddle.Room.Conversations.{timed_out, passed, ConversationJob, fail, start, ConversationClass}
use mohuddle.Room.Conversations.Inbox.{
  stop, or_same, follow_up, follow_with, no_text, not_active, not_failed, not_waiting, too_early,
  already_extended, cancel, retry, keep_waiting, dismiss, is_failed, again, inbox_category,
  dismiss_as, InboxCategory, new_answer, action_needed, working, hidden, is_working,
}
use mohuddle.Room.Conversations.Attempts.{
  wait_at, take_back, is_idle, assign, assign_to, add_attempt, wait, begin_from, withdraw, expire,
  is_waiting,
}
use mohuddle.Room.Conversations.Steps.{
  follows, Step, expires, assigns, withdraws, finishes, cancels, retries, keeps_waiting, dismisses,
  step, run_steps, select_in,
}
use mohuddle.Room.Conversations.Failover.{IsFair}
use mohuddle.Room.Conversations.Failover.Withdrawal.{
  IsLast, without_last-IsDistinct, without_last-IsFresh, window_attempts-without_last,
  window_attempts-IsLast,
}
use mohuddle.Room.Conversations.Failover.Assigned.{
  IsBounded, IsUnused, fail-IsBounded, again-IsBounded, add_attempt-IsBounded,
  select_responder-IsUnused,
}
use mohuddle.Room.Conversations.Failover.Finished.{finish_attempt-IsBounded}

expire-IsBounded :
    (now : ℕ) (line : Result String ℕ) (j : ConversationJob)
    → IsBounded j
    → IsBounded (expire now line j)
unfolding expire
expire-IsBounded now line j h = of_test (passed now j.deadline && not (terminal j.state))
  where
    of_test :
        (t : Bool)
        → IsBounded (if t then fail "hard response deadline expired" timed_out now line j else j)
    of_test true = fail-IsBounded _ timed_out now line j h.0
    of_test false = h

wait-IsBounded :
    (now position : ℕ) (reason : String) (j : ConversationJob)
    → IsBounded j
    → is_idle j.state ≡ true
    → IsBounded (wait now position reason j)
wait-IsBounded now position reason j (h, room) idle =
    of_test (is_waiting j.state && j.queue_position == position && str_eq j.wait_reason reason)
  where
    of_test : (t : Bool) → IsBounded (if t then j else wait_at now position reason j)
    of_test true = (h, room)
    of_test false = (h, λ e. room idle)

assign_to-IsBounded :
    (selected : Option String) (now : ℕ) (temporary : Bool) (position : ℕ) (reason : String)
    (j : ConversationJob)
    → IsBounded j
    → is_idle j.state ≡ true
    → IsUnused j selected
    → IsBounded (assign_to selected now temporary position reason j)
assign_to-IsBounded none now temporary position reason j h idle u =
    wait-IsBounded now position reason j h idle
assign_to-IsBounded (some p) now temporary position reason j h idle u = of_start j.started_at
  where
    of_start : (s : Option ℕ) → IsBounded (add_attempt now temporary p (begin_from s now j))
    of_start none = add_attempt-IsBounded now temporary p (begin_from none now j) h idle u
    of_start (some n) = add_attempt-IsBounded now temporary p j h idle u

assign-IsBounded :
    (pending : Bool) (selected : Option String) (now : ℕ) (temporary : Bool) (position : ℕ)
    (reason : String) (j : ConversationJob)
    → IsBounded j
    → IsUnused j selected
    → IsBounded (assign pending selected now temporary position reason j)
unfolding assign
assign-IsBounded pending selected now temporary position reason j h u =
    of_state (is_idle j.state) pending refl
  where
    of_state :
        (i p : Bool)
        → is_idle j.state ≡ i
        → IsBounded (if not i || p then j else assign_to selected now temporary position reason j)
    of_state false p e = h
    of_state true true e = h
    of_state true false e = assign_to-IsBounded selected now temporary position reason j h e u

withdraw-IsBounded :
    (launch : ℕ) (participant reason : String) (temporary : Bool) (now : ℕ) (j : ConversationJob)
    → IsBounded j
    → IsLast launch j.attempt_window j.attempts
    → IsBounded (withdraw launch participant reason temporary now j)
unfolding withdraw
withdraw-IsBounded launch participant reason temporary now j (((c, d), f), room) l =
    of_test (terminal j.state || not (str_eq j.assigned participant))
  where
    of_test : (t : Bool) → IsBounded (if t then j else take_back launch reason temporary now j)
    of_test true = (((c, d), f), room)
    of_test false = (
      (
        (
          λ w.
              let less = window_attempts-without_last w launch j.attempts in
              let two = c w in omega arith,
          without_last-IsDistinct launch j.attempts d,
        ),
        without_last-IsFresh j.attempt_window launch j.attempts f,
      ),
      λ e. window_attempts-IsLast j.attempt_window launch j.attempts l (c j.attempt_window),
    )

cancel-IsBounded :
    (now : ℕ) (j : ConversationJob) → IsBounded j → IsBounded (or_same (cancel now j) j)
unfolding cancel
cancel-IsBounded now j h = of_test (is_working (inbox_category j))
  where
    of_test : (t : Bool) → IsBounded (or_same (if not t then err not_active else ok (stop now j)) j)
    of_test true = (h.0, λ e. cc)
    of_test false = h

retry-IsBounded :
    (now : ℕ) (j : ConversationJob) → IsBounded j → IsBounded (or_same (retry now j) j)
unfolding retry
retry-IsBounded now j h = of_test (is_failed j.state)
  where
    of_test :
        (t : Bool) → IsBounded (or_same (if not t then err not_failed else ok (again now j)) j)
    of_test true = again-IsBounded now j h.0
    of_test false = h

keep_waiting-IsBounded :
    (now : ℕ) (j : ConversationJob) → IsBounded j → IsBounded (or_same (keep_waiting now j) j)
unfolding keep_waiting
keep_waiting-IsBounded now j h =
    of_tests (is_failed j.state) (passed now j.deadline) (leb 1 j.extension_count)
  where
    of_tests :
        (t u v : Bool)
        → IsBounded (
            or_same
              (if not t
                then err not_waiting
                else if not u
                then err too_early
                else if v
                then err already_extended
                else ok (record (again now j) { extension_count = suc j.extension_count }))
              j)
    of_tests false u v = h
    of_tests true false v = h
    of_tests true true true = h
    of_tests true true false = again-IsBounded now j h.0

dismiss-IsBounded :
    (now : ℕ) (j : ConversationJob) → IsBounded j → IsBounded (or_same (dismiss now j) j)
unfolding dismiss
dismiss-IsBounded now j h = of_category (inbox_category j)
  where
    of_category : (c : InboxCategory) → IsBounded (or_same (dismiss_as c now j) j)
    of_category new_answer = h
    of_category action_needed = (h.0, λ e. cc)
    of_category working = h
    of_category hidden = h

follow_up-IsBounded :
    (text : String) (appended : Result String ℕ) (now : ℕ) (j : ConversationJob)
    → IsBounded j
    → IsBounded (or_same (follow_up text appended now j) j)
unfolding follow_up
follow_up-IsBounded text appended now j h = of_tests (is_empty (trim_space text)) appended
  where
    of_tests :
        (t : Bool) (a : Result String ℕ)
        → IsBounded (or_same (if t then err no_text else follow_with a now j) j)
    of_tests true a = h
    of_tests false (err e) = h
    of_tests false (ok n) = again-IsBounded now j h.0

-- A withdrawal is of the launch of the last attempt, which is of the current window and open.
abbrev pub IsLaunched : Step → ConversationJob → Type 0
IsLaunched (withdraws launch _ _ _ _) j = IsLast launch j.attempt_window j.attempts
IsLaunched _ j = Unit

abbrev pub AllLaunched : List Step → ConversationJob → Type 0
AllLaunched [] j = Unit
AllLaunched (x ∷ xs) j = IsLaunched x j × AllLaunched xs (step x j)

step-IsBounded :
    (x : Step) (j : ConversationJob) → IsBounded j → IsLaunched x j → IsBounded (step x j)
step-IsBounded (expires now line) j h l = expire-IsBounded now line j h
step-IsBounded (assigns pending r now temporary position reason) j h l =
    assign-IsBounded pending (select_in r j) now temporary position reason j h
      (select_responder-IsUnused r.free r.of_chatgpt r.helpers r.others r.anyone r.temporaries j)
step-IsBounded (withdraws launch participant reason temporary now) j h l =
    withdraw-IsBounded launch participant reason temporary now j h l
step-IsBounded (finishes of_chatgpt temporary launch participant out now) j h l =
    finish_attempt-IsBounded of_chatgpt temporary launch participant out now j h
step-IsBounded (follows text appended now) j h l = follow_up-IsBounded text appended now j h
step-IsBounded (cancels now) j h l = cancel-IsBounded now j h
step-IsBounded (retries now) j h l = retry-IsBounded now j h
step-IsBounded (keeps_waiting now) j h l = keep_waiting-IsBounded now j h
step-IsBounded (dismisses now) j h l = dismiss-IsBounded now j h

run_steps-IsBounded :
    (xs : List Step) (j : ConversationJob)
    → IsBounded j
    → AllLaunched xs j
    → IsBounded (run_steps xs j)
run_steps-IsBounded [] j h l = h
run_steps-IsBounded (x ∷ xs) j h l =
    run_steps-IsBounded xs (step x j) (step-IsBounded x j h l.0) l.1

-- However the steps of a new conversation interleave, each window has at most two attempts, and of
-- different providers, also where attempts end late, as long as a withdrawn launch is the one of the
-- last attempt, which is open and of the current window.
pub run_steps-IsFair :
    (id : String) (sequence : ℕ) (requested : List String) (class : ConversationClass) (now : ℕ)
    (xs : List Step)
    → AllLaunched xs (start id sequence requested class now)
    → IsFair (run_steps xs (start id sequence requested class now)).attempts
run_steps-IsFair id sequence requested class now xs l =
    (run_steps-IsBounded xs (start id sequence requested class now)
      (((λ w. omega arith, tt), tt), λ e. omega arith) l).0.0
