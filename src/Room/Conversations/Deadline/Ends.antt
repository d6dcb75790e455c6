-- ===== src/Room/Conversations/Deadline/Ends.antt =====
-- internal/room/conversations.go: a conversation is over once its deadline has passed.
use mohuddle.Base.{
  Result, String, ok, err, ℕ, ◌+◌, ◌≤◌, ◌≡◌, refl, ap, ◌∙◌, Bool, true, false, not, ◌&&◌, List, [],
  ◌∷◌, some, All, ltb, if◌then◌else◌, arith,
}
use mohuddle.Room.Continuations.{terminal}
use mohuddle.Room.Conversations.{
  total_budget, timed_out, passed, ConversationJob, fail, start, ConversationClass,
}
use mohuddle.Room.Conversations.Inbox.{
  stop, or_same, not_active, cancel, dismiss, inbox_category, dismiss_as, InboxCategory, new_answer,
  action_needed, working, hidden, is_working,
}
use mohuddle.Room.Conversations.Attempts.{expire}
use mohuddle.Room.Conversations.Steps.{
  follows, Step, expires, assigns, withdraws, finishes, cancels, retries, keeps_waiting, dismisses,
  step, run_steps, select_in,
}
use mohuddle.Room.Conversations.Deadline.{IsDue, expire-IsDue, assign-IsDue, withdraw-IsDue}
use mohuddle.Room.Conversations.Deadline.Finished.{finish_attempt-IsDue}

cancel-IsDue : (d now : ℕ) (j : ConversationJob) → IsDue d j → IsDue d (or_same (cancel now j) j)
unfolding cancel
cancel-IsDue d now j h = of_test (is_working (inbox_category j))
  where
    of_test : (t : Bool) → IsDue d (or_same (if not t then err not_active else ok (stop now j)) j)
    of_test true = h
    of_test false = h

dismiss-IsDue : (d now : ℕ) (j : ConversationJob) → IsDue d j → IsDue d (or_same (dismiss now j) j)
unfolding dismiss
dismiss-IsDue d now j h = of_category (inbox_category j)
  where
    of_category : (c : InboxCategory) → IsDue d (or_same (dismiss_as c now j) j)
    of_category new_answer = h
    of_category action_needed = h
    of_category working = h
    of_category hidden = h

-- Nobody asks again.
abbrev pub IsPatient : Step → Type 0
IsPatient (retries _) = ⊥
IsPatient (keeps_waiting _) = ⊥
IsPatient (follows _ _ _) = ⊥
IsPatient _ = Unit

step-IsDue : (d : ℕ) (x : Step) (j : ConversationJob) → IsDue d j → IsPatient x → IsDue d (step x j)
step-IsDue d (expires now line) j h p = expire-IsDue d now line j h
step-IsDue d (assigns pending r now temporary position reason) j h p =
    assign-IsDue d pending (select_in r j) now temporary position reason j h
step-IsDue d (withdraws launch participant reason temporary now) j h p =
    withdraw-IsDue d launch participant reason temporary now j h
step-IsDue d (finishes of_chatgpt temporary launch participant out now) j h p =
    finish_attempt-IsDue d of_chatgpt temporary launch participant out now j h
step-IsDue d (follows text appended now) j h p = absurd p
step-IsDue d (cancels now) j h p = cancel-IsDue d now j h
step-IsDue d (retries now) j h p = absurd p
step-IsDue d (keeps_waiting now) j h p = absurd p
step-IsDue d (dismisses now) j h p = dismiss-IsDue d now j h

run_steps-IsDue :
    (d : ℕ) (xs : List Step) (j : ConversationJob)
    → IsDue d j
    → All IsPatient xs
    → IsDue d (run_steps xs j)
run_steps-IsDue d [] j h p = h
run_steps-IsDue d (x ∷ xs) j h p = run_steps-IsDue d xs (step x j) (step-IsDue d x j h p.0) p.1

expire-terminal :
    (d now : ℕ) (line : Result String ℕ) (j : ConversationJob)
    → j.deadline ≡ some d
    → d ≤ now
    → terminal (expire now line j).state ≡ true
unfolding expire fail
expire-terminal d now line j e le =
    of_tests (passed now j.deadline) (ap (passed now) e ∙ late) (terminal j.state) refl
  where
    late : not (ltb now d) ≡ true
    late = ground arith

    of_tests :
        (t : Bool)
        → t ≡ true
        → (u : Bool) → terminal j.state ≡ u
        → terminal
            (if t && not u
              then fail "hard response deadline expired" timed_out now line j
              else j).state
          ≡ true
    of_tests true h true s = s
    of_tests true h false s = refl
    of_tests false h u s = cc

-- A new conversation is over once the scheduler looks when the budget of its class is used up,
-- whatever happened until then, where nobody retried it, asked to keep waiting or followed up.
pub run_steps-terminal :
    (id : String) (sequence : ℕ) (requested : List String) (class : ConversationClass)
    (now later : ℕ) (line : Result String ℕ) (xs : List Step)
    → All IsPatient xs
    → now + total_budget class ≤ later
    → terminal (expire later line (run_steps xs (start id sequence requested class now))).state
      ≡ true
run_steps-terminal id sequence requested class now later line xs p le =
    expire-terminal (now + total_budget class) later line
      (run_steps xs (start id sequence requested class now))
      (run_steps-IsDue (now + total_budget class) xs (start id sequence requested class now)
        (refl, refl) p).0
      le
