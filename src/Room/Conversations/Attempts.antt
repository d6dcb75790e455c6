-- ===== src/Room/Conversations/Attempts.antt =====
-- internal/room/conversations.go: the attempts of responders at an answer.
use mohuddle.Base.{
  Result, ℕ, ◌+◌, ◌-◌, Bool, true, false, not, ◌&&◌, ◌||◌, String, List, [], ◌∷◌, ◌++◌, Option,
  none, some, ltb, ◌==◌, str_eq, if◌then◌else◌,
}
use mohuddle.Chat.Participants.{provider}
use mohuddle.Room.Continuations.{ConversationState, finding, waiting, answering, retrying, terminal}
use mohuddle.Room.Conversations.{
  ConversationJob, ConversationAttempt, timed_out, fail, window_attempts, passed, total_budget,
  retire_from,
}

-- The deadline of a conversation that has expired: its answer is late.
unfoldable pub expire : ℕ → Result String ℕ → ConversationJob → ConversationJob
expire now saved j =
    if passed now j.deadline && not (terminal j.state)
    then fail "hard response deadline expired" timed_out now saved j
    else j

abbrev pub used_provider : String → ℕ → List ConversationAttempt → Bool
used_provider p window [] = false
used_provider p window (a ∷ rest) =
    let later = used_provider p window rest in (a.window == window && str_eq a.provider p) || later

-- `eligible`: a provider gets one attempt in a window. What else an attempt takes is an answer of the
-- room.
abbrev pub eligible : (String → Bool) → ConversationJob → String → Bool
eligible free j p = not (used_provider (provider p) j.attempt_window j.attempts) && free p

abbrev pub first_eligible : (String → Bool) → ConversationJob → List String → Option String
first_eligible free j [] = none
first_eligible free j (p ∷ ps) = if eligible free j p then some p else first_eligible free j ps

abbrev pub or_next : Option String → Option String → Option String
or_next (some p) o = some p
or_next none o = o

-- `selectConversationResponderLocked`, for the responders of the room: those asked for; for a
-- conversation that is not of ChatGPT, then the helpers, those who are no core members, and anyone
-- while nothing else runs; at last a temporary one that the room may make.
unfoldable pub select_responder :
    (String → Bool)
    → (of_chatgpt : Bool) → (helpers others anyone temporaries : List String) → ConversationJob
    → Option String
select_responder free of_chatgpt helpers others anyone temporaries j =
    or_next (first_eligible free j j.requested) (
      if of_chatgpt
      then none
      else or_next (first_eligible free j helpers) (
          or_next (first_eligible free j others)
            (or_next (first_eligible free j anyone) (first_eligible free j temporaries))))

-- The scheduler looks for a responder of these conversations only.
abbrev pub is_idle : ConversationState → Bool
is_idle finding = true
is_idle waiting = true
is_idle _ = false

abbrev pub sooner : ℕ → ℕ → ℕ
sooner a b = if ltb a b then a else b

abbrev pub begin_from : Option ℕ → ℕ → ConversationJob → ConversationJob
begin_from (some _) now j = j
begin_from none now j = record j {
  started_at = some now;
  deadline = some (now + total_budget j.class);
}

abbrev pub begin : ℕ → ConversationJob → ConversationJob
begin now j = begin_from j.started_at now j

-- What is left until the deadline. Where it has passed, the conversation has expired before.
abbrev pub remaining : ℕ → Option ℕ → ℕ
remaining now none = 0
remaining now (some d) = d - now

abbrev pub attempt_of : ℕ → String → ConversationJob → ConversationAttempt
attempt_of now p j = record {
  participant = p;
  provider = provider p;
  started_at = now;
  deadline = now + sooner (remaining now j.deadline) (total_budget j.class);
  completed_at = none;
  error = "";
  window = j.attempt_window;
}

abbrev pub state_of : ℕ → ConversationState
state_of n = if n == 1 then answering else retrying

abbrev pub is_waiting : ConversationState → Bool
is_waiting waiting = true
is_waiting _ = false

abbrev pub add_attempt : ℕ → Bool → String → ConversationJob → ConversationJob
add_attempt now temporary p j = record j {
  attempts = j.attempts ++ attempt_of now p j ∷ [];
  assigned = p;
  temporary = temporary;
  retire_at = none;
  queue_position = 0;
  wait_reason = "";
  state = state_of (window_attempts j.attempt_window (j.attempts ++ attempt_of now p j ∷ []));
  updated_at = now;
}

abbrev pub wait_at : ℕ → (position : ℕ) → (reason : String) → ConversationJob → ConversationJob
wait_at now position reason j = record j {
  state = waiting;
  queue_position = position;
  wait_reason = reason;
  updated_at = now;
}

abbrev pub wait : ℕ → (position : ℕ) → (reason : String) → ConversationJob → ConversationJob
wait now position reason j =
    if is_waiting j.state && j.queue_position == position && str_eq j.wait_reason reason
    then j
    else wait_at now position reason j

-- A round of the scheduler's loop, with the responder that was selected.
abbrev pub assign_to :
    Option String
    → ℕ
    → Bool
    → (position : ℕ) → (reason : String) → ConversationJob
    → ConversationJob
assign_to none now temporary position reason j = wait now position reason j
assign_to (some p) now temporary position reason j = add_attempt now temporary p (begin now j)

-- A conversation of ChatGPT whose message is not saved yet is `pending`.
unfoldable pub assign :
    (pending : Bool)
    → Option String
    → ℕ
    → Bool
    → (position : ℕ) → (reason : String) → ConversationJob
    → ConversationJob
assign pending selected now temporary position reason j =
    if not (is_idle j.state) || pending
    then j
    else assign_to selected now temporary position reason j

abbrev pub is_open : Option ℕ → Bool
is_open none = true
is_open (some _) = false

-- The attempts without the last one, where the launch is of that one and it has not completed.
abbrev pub without_last : ℕ → List ConversationAttempt → List ConversationAttempt
without_last launch [] = []
without_last launch (a ∷ []) = if launch == 0 && is_open a.completed_at then [] else a ∷ []
without_last launch (a ∷ b ∷ rest) = a ∷ without_last (launch - 1) (b ∷ rest)

abbrev pub take_back :
    (launch : ℕ) → (reason : String) → Bool → ℕ → ConversationJob → ConversationJob
take_back launch reason temporary now j = record j {
  attempts = without_last launch j.attempts;
  state = waiting;
  assigned = "";
  queue_position = 0;
  wait_reason = reason;
  updated_at = now;
  retire_at = retire_from temporary now j.retire_at;
}

-- The branch of `runConversationAttempt` for a responder that may not start after all.
unfoldable pub withdraw :
    (launch : ℕ)
    → (participant reason : String) → (temporary : Bool) → ℕ
    → ConversationJob
    → ConversationJob
withdraw launch participant reason temporary now j =
    if terminal j.state || not (str_eq j.assigned participant)
    then j
    else take_back launch reason temporary now j
