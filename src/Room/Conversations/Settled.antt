-- ===== src/Room/Conversations/Settled.antt =====
-- internal/room/conversations.go: what a person cancelled stays cancelled, whatever arrives late.
use mohuddle.Base.{
  Result, String, ok, err, ok_inj, ℕ, ◌≡◌, refl, sym, ap, subst, Bool, true, false, not, ◌&&◌, ◌||◌,
  List, [], ◌∷◌, Option, none, some, All, leb, ◌==◌, str_eq, if◌then◌else◌, length,
}
use mohuddle.Room.Continuations.{ConversationState, cancelled, terminal}
use mohuddle.Room.Conversations.{timed_out, passed, ConversationJob, fail}
use mohuddle.Room.Conversations.Inbox.{
  stop, or_same, Answer, ConversationError, not_dismissible, category_of, not_active, not_failed,
  not_waiting, cancel, retry, keep_waiting, dismiss, is_failed, inbox_category, dismiss_as, hidden,
  is_working,
}
use mohuddle.Room.Conversations.Attempts.{take_back, is_idle, assign, assign_to, withdraw, expire}
use mohuddle.Room.Conversations.Finish.{
  finish_attempt, finish_unsaved, save_finished, settle_attempt, Outcome, completed, over,
  end_attempt,
}
use mohuddle.Room.Conversations.Steps.{
  follows, Step, expires, assigns, withdraws, finishes, cancels, retries, keeps_waiting, dismisses,
  step, run_steps, select_in,
}

-- Cancelled, with this answer.
abbrev pub IsCancelled : ℕ → ConversationJob → Type 0
IsCancelled n j = (j.state ≡ cancelled) × (j.answer_sequence ≡ n)

expire-IsCancelled :
    (n now : ℕ) (line : Result String ℕ) (j : ConversationJob)
    → IsCancelled n j
    → IsCancelled n (expire now line j)
unfolding expire
expire-IsCancelled n now line j (e, a) =
    of_tests (passed now j.deadline) (terminal j.state) (ap terminal e)
  where
    of_tests :
        (t u : Bool)
        → u ≡ true
        → IsCancelled n
            (if t && not u then fail "hard response deadline expired" timed_out now line j else j)
    of_tests true true h = (e, a)
    of_tests false true h = (e, a)
    of_tests true false h = cc
    of_tests false false h = (e, a)

assign-IsCancelled :
    (n : ℕ) (pending : Bool) (selected : Option String) (now : ℕ) (temporary : Bool) (position : ℕ)
    (reason : String) (j : ConversationJob)
    → IsCancelled n j
    → IsCancelled n (assign pending selected now temporary position reason j)
unfolding assign
assign-IsCancelled n pending selected now temporary position reason j (e, a) =
    of_state (is_idle j.state) (ap is_idle e)
  where
    of_state :
        (i : Bool)
        → i ≡ false
        → IsCancelled n
            (if not i || pending then j else assign_to selected now temporary position reason j)
    of_state false h = (e, a)
    of_state true h = cc

withdraw-IsCancelled :
    (n launch : ℕ) (participant reason : String) (temporary : Bool) (now : ℕ) (j : ConversationJob)
    → IsCancelled n j
    → IsCancelled n (withdraw launch participant reason temporary now j)
unfolding withdraw
withdraw-IsCancelled n launch participant reason temporary now j (e, a) =
    of_state (terminal j.state) (ap terminal e)
  where
    of_state :
        (t : Bool)
        → t ≡ true
        → IsCancelled n (
            if t || not (str_eq j.assigned participant)
            then j
            else take_back launch reason temporary now j)
    of_state true h = (e, a)
    of_state false h = cc

finish_unsaved-IsCancelled :
    (n : ℕ) (of_chatgpt temporary : Bool) (launch : ℕ) (participant : String) (out : Outcome)
    (now : ℕ) (j : ConversationJob)
    → IsCancelled n j
    → IsCancelled n (finish_unsaved of_chatgpt temporary launch participant out now j)
finish_unsaved-IsCancelled n of_chatgpt temporary launch participant out now j (e, a) =
    of_state (terminal j.state) (ap terminal e)
  where
    of_state :
        (t : Bool)
        → t ≡ true
        → IsCancelled n (
            end_attempt now (
              if t
              then over now (completed launch now j)
              else settle_attempt of_chatgpt temporary launch participant out now
                  (completed launch now j)))
    of_state true h = (e, a)
    of_state false h = cc

finish_attempt-IsCancelled :
    (n : ℕ) (of_chatgpt temporary : Bool) (launch : ℕ) (participant : String) (out : Outcome)
    (now : ℕ) (j : ConversationJob)
    → IsCancelled n j
    → out.save_error ≡ none
    → IsCancelled n (finish_attempt of_chatgpt temporary launch participant out now j)
unfolding finish_attempt
finish_attempt-IsCancelled n of_chatgpt temporary launch participant out now j h saved =
    of_test (leb (length j.attempts) launch) out.save_error saved
  where
    of_test :
        (t : Bool) (error : Option String)
        → error ≡ none
        → IsCancelled n (
            if t
            then j
            else save_finished error out.saved_late_line now
                (finish_unsaved of_chatgpt temporary launch participant out now j))
    of_test true error s = h
    of_test false none s =
        finish_unsaved-IsCancelled n of_chatgpt temporary launch participant out now j h
    of_test false (some text) s = cc

inbox_category-hidden : (j : ConversationJob) → j.state ≡ cancelled → inbox_category j ≡ hidden
inbox_category-hidden j e = of_tests (j.promoted_sequence == 0) j.state e
  where
    of_tests :
        (t : Bool) (s : ConversationState)
        → s ≡ cancelled
        → (if t then category_of s j.unread j.requires_work else hidden) ≡ hidden
    of_tests false s h = refl
    of_tests true s h = rw h refl

refused :
    (n : ℕ) (j : ConversationJob) (answer : Answer) (e : ConversationError)
    → IsCancelled n j
    → answer ≡ err e
    → IsCancelled n (or_same answer j)
refused n j answer e h r = subst (λ x. IsCancelled n (or_same x j)) (sym r) h

cancel-refused :
    (now : ℕ) (j : ConversationJob) → j.state ≡ cancelled → cancel now j ≡ err not_active
unfolding cancel
cancel-refused now j e =
    let c : is_working (inbox_category j) ≡ false = ap is_working (inbox_category-hidden j e) in
    simp c

retry-refused : (now : ℕ) (j : ConversationJob) → j.state ≡ cancelled → retry now j ≡ err not_failed
unfolding retry
retry-refused now j e = let c : is_failed j.state ≡ false = ap is_failed e in simp c

keep_waiting-refused :
    (now : ℕ) (j : ConversationJob) → j.state ≡ cancelled → keep_waiting now j ≡ err not_waiting
unfolding keep_waiting
keep_waiting-refused now j e = let c : is_failed j.state ≡ false = ap is_failed e in simp c

dismiss-refused :
    (now : ℕ) (j : ConversationJob) → j.state ≡ cancelled → dismiss now j ≡ err not_dismissible
unfolding dismiss
dismiss-refused now j e = ap (λ c. dismiss_as c now j) (inbox_category-hidden j e)

-- An end of an attempt that is saved, and no new question of the person.
abbrev pub IsLate : Step → Type 0
IsLate (finishes _ _ _ _ out _) = out.save_error ≡ none
IsLate (follows _ _ _) = ⊥
IsLate _ = Unit

step-IsCancelled :
    (n : ℕ) (x : Step) (j : ConversationJob) → IsCancelled n j → IsLate x → IsCancelled n (step x j)
step-IsCancelled n (expires now line) j h s = expire-IsCancelled n now line j h
step-IsCancelled n (assigns pending r now temporary position reason) j h s =
    assign-IsCancelled n pending (select_in r j) now temporary position reason j h
step-IsCancelled n (withdraws launch participant reason temporary now) j h s =
    withdraw-IsCancelled n launch participant reason temporary now j h
step-IsCancelled n (finishes of_chatgpt temporary launch participant out now) j h s =
    finish_attempt-IsCancelled n of_chatgpt temporary launch participant out now j h s
step-IsCancelled n (follows text appended now) j h s = absurd s
step-IsCancelled n (cancels now) j h s = refused n j _ not_active h (cancel-refused now j h.0)
step-IsCancelled n (retries now) j h s = refused n j _ not_failed h (retry-refused now j h.0)
step-IsCancelled n (keeps_waiting now) j h s =
    refused n j _ not_waiting h (keep_waiting-refused now j h.0)
step-IsCancelled n (dismisses now) j h s =
    refused n j _ not_dismissible h (dismiss-refused now j h.0)

run_steps-IsCancelled :
    (n : ℕ) (xs : List Step) (j : ConversationJob)
    → IsCancelled n j
    → All IsLate xs
    → IsCancelled n (run_steps xs j)
run_steps-IsCancelled n [] j h s = h
run_steps-IsCancelled n (x ∷ xs) j h s =
    run_steps-IsCancelled n xs (step x j) (step-IsCancelled n x j h s.0) s.1

cancel-IsCancelled :
    (now : ℕ) (j k : ConversationJob) → cancel now j ≡ ok k → IsCancelled j.answer_sequence k
unfolding cancel
cancel-IsCancelled now j k = of_test (is_working (inbox_category j))
  where
    of_test :
        (t : Bool)
        → (if not t then err not_active else ok (stop now j)) ≡ ok k
        → IsCancelled j.answer_sequence k
    of_test true e = subst (IsCancelled j.answer_sequence) (ok_inj e) (refl, refl)
    of_test false e = cc

-- A conversation that was cancelled stays so, and gets no answer, whatever late end of an attempt,
-- deadline, assignment, retry, extension or dismissal follows, as long as the ends of attempts are
-- saved and the person asks no follow-up.
pub run_steps-cancel :
    (now : ℕ) (j k : ConversationJob) (xs : List Step)
    → cancel now j ≡ ok k
    → All IsLate xs
    → IsCancelled j.answer_sequence (run_steps xs k)
run_steps-cancel now j k xs e =
    run_steps-IsCancelled j.answer_sequence xs k (cancel-IsCancelled now j k e)
