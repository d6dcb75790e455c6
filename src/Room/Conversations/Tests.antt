-- ===== src/Room/Conversations/Tests.antt =====
-- internal/room/conversations.go: conversations at concrete inputs.
use mohuddle.Chat.Participants.{provider}
use mohuddle.Base.{
  ℕ, ◌+◌, trim_space, ◌≡◌, refl, true, false, List, [], ◌∷◌, none, some, ok, length, arith,
}
use mohuddle.Room.Continuations.{answered, finding, failed, cancelled, terminal}
use mohuddle.Room.Conversations.{ConversationJob, standard, start, total_budget, fail}
use mohuddle.Room.Conversations.Inbox.{
  stop, dismiss_all, count_inbox, follow_up, cancel, dismiss, retry, available_actions,
}
use mohuddle.Room.Conversations.Attempts.{expire, assign, withdraw, select_responder}
use mohuddle.Room.Conversations.Finish.{Outcome, provider_failed, finish_attempt, context_late}
use mohuddle.Room.Conversations.Steps.{
  step, follows, Step, expires, assigns, withdraws, finishes, retries, keeps_waiting, Room,
  run_steps,
}
use mohuddle.Room.Conversations.Failover.{IsFair}
use mohuddle.Room.Conversations.Failover.Bounded.{run_steps-IsFair}
use mohuddle.Room.Conversations.Settled.{run_steps-cancel, IsCancelled}
use mohuddle.Room.Conversations.Deadline.Ends.{run_steps-terminal}
use mohuddle.Room.Conversations.Offers.{
  available_actions-accepts, dismiss_all-count_inbox, nothing, may_cancel, may_dismiss, accepts,
}

abbrev everyone : Room
everyone = record {
  free = λ p. true;
  of_chatgpt = false;
  helpers = [];
  others = "codex" ∷ "claude" ∷ "agy" ∷ [];
  anyone = [];
  temporaries = [];
}

abbrev answers : Outcome
answers = record {
  run_error = none;
  context_error = none;
  text = "yes";
  requires_work = false;
  access_request = none;
  append_answer = ok 9;
  saved_line = ok 5;
  reads_host = false;
  save_error = none;
  saved_late_line = ok 6;
}

abbrev breaks : Outcome
breaks = record answers { run_error = some (record { kind = provider_failed; text = "crash" }) }

abbrev expired : Outcome
expired = record answers { context_error = some context_late }

abbrev asked : ConversationJob
asked = start "c1" 3 [] standard 100

abbrev assigned_at : ℕ → Step
assigned_at now = assigns false everyone now false 1 "nobody is free"

abbrev failing : List Step
failing =
    assigned_at 110
    ∷ finishes false false 0 "codex" breaks 120
    ∷ assigned_at 130
    ∷ withdraws 1 "claude" "busy" false 135
    ∷ assigned_at 140
    ∷ finishes false false 1 "claude" breaks 150
    ∷ assigned_at 160
    ∷ []

-- The second provider's failure is the last.
failing_state : (run_steps failing asked).state ≡ failed
unfolding provider trim_space assign select_responder finish_attempt fail withdraw
failing_state = refl

failing_attempts : length (run_steps failing asked).attempts ≡ 2
unfolding provider trim_space assign select_responder finish_attempt fail withdraw
failing_attempts = refl

answered_late :
    (run_steps
      (assigned_at 110 ∷ finishes false false 0 "codex" answers 120 ∷ [])
      asked).answer_sequence
    ≡ 9
unfolding provider trim_space assign select_responder finish_attempt fail
answered_late = refl

-- An attempt of an earlier window that ends after a retry fails the conversation that was retried.
abbrev stale : List Step
stale =
    assigned_at 110
    ∷ expires (100 + total_budget standard) (ok 7)
    ∷ retries (101 + total_budget standard)
    ∷ finishes false false 0 "codex" expired (102 + total_budget standard)
    ∷ []

stale_state : (run_steps stale asked).state ≡ failed
unfolding provider assign select_responder finish_attempt fail expire retry
stale_state = refl

run_steps-IsFair_example : IsFair (run_steps failing asked).attempts
unfolding provider trim_space assign select_responder finish_attempt fail withdraw
run_steps-IsFair_example =
    run_steps-IsFair "c1" 3 [] standard 100 failing
      (tt, (tt, (tt, ((refl, refl, refl), (tt, (tt, (tt, tt)))))))

abbrev stopped : ConversationJob
stopped = stop 115 asked

abbrev late_steps : List Step
late_steps =
    finishes false false 0 "codex" answers 120
    ∷ retries 130
    ∷ keeps_waiting 140
    ∷ assigned_at 150
    ∷ expires (100 + total_budget standard) (ok 7)
    ∷ []

run_steps-cancel_example : IsCancelled 0 (run_steps late_steps stopped)
unfolding cancel
run_steps-cancel_example =
    run_steps-cancel 115 asked stopped late_steps refl (refl, (tt, (tt, (tt, (tt, tt)))))

run_steps-terminal_example :
    terminal (expire (100 + total_budget standard) (ok 7) (run_steps failing asked)).state ≡ true
run_steps-terminal_example =
    run_steps-terminal "c1" 3 [] standard 100 (100 + total_budget standard) (ok 7) failing
      (tt, (tt, (tt, (tt, (tt, (tt, (tt, tt))))))) (omega arith)

available_actions-accepts_example :
    (may_cancel (available_actions asked) ≡ accepts (cancel 110 asked))
    × (may_dismiss (available_actions asked) ≡ accepts (dismiss 110 asked))
available_actions-accepts_example = available_actions-accepts 110 asked

abbrev unread_answer : ConversationJob
unread_answer = record asked { state = answered; unread = true; answer_sequence = 4 }

dismiss_all-count_inbox_example :
    ((count_inbox (dismiss_all 9 (unread_answer ∷ asked ∷ [])) nothing).new_answers ≡ 0)
    × ((count_inbox (dismiss_all 9 (unread_answer ∷ asked ∷ [])) nothing).actions_needed ≡ 0)
    × ((count_inbox (dismiss_all 9 (unread_answer ∷ asked ∷ [])) nothing).workings
        ≡ (count_inbox (unread_answer ∷ asked ∷ []) nothing).workings)
dismiss_all-count_inbox_example = dismiss_all-count_inbox 9 (unread_answer ∷ asked ∷ [])

-- A follow-up looks for a responder again, in a new window, also for a cancelled conversation.
followed_state : (step (follows " and now? " (ok 7) 170) stopped).state ≡ finding
unfolding follow_up trim_space
followed_state = refl

unfollowed_state : (step (follows "  " (ok 7) 170) stopped).state ≡ cancelled
unfolding follow_up trim_space
unfollowed_state = refl
