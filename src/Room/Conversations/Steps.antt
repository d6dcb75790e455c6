-- ===== src/Room/Conversations/Steps.antt =====
-- internal/room/conversations.go: the steps that interleave around a conversation.
use mohuddle.Base.{Result, ℕ, Bool, String, List, [], ◌∷◌, Option}
use mohuddle.Room.Conversations.{ConversationJob}
use mohuddle.Room.Conversations.Inbox.{or_same, follow_up, cancel, retry, keep_waiting, dismiss}
use mohuddle.Room.Conversations.Attempts.{expire, select_responder, assign, withdraw}
use mohuddle.Room.Conversations.Finish.{Outcome, finish_attempt}

-- Who could answer, as the room says when the scheduler looks.
pub record Room : Type 0 where
  pub free : String → Bool
  pub of_chatgpt : Bool
  pub helpers : List String
  pub others : List String
  pub anyone : List String
  pub temporaries : List String

-- The scheduler's two loops, the withdrawal and the end of a launched attempt, whichever it is, and
-- what a person does.
pub data Step : Type 0 where
  expires : (now : ℕ) → Result String ℕ → Step
  assigns :
      (pending : Bool)
      → Room
      → (now : ℕ) → (temporary : Bool) → (position : ℕ) → (reason : String) → Step
  withdraws : (launch : ℕ) → (participant reason : String) → (temporary : Bool) → (now : ℕ) → Step
  finishes :
      (of_chatgpt temporary : Bool)
      → (launch : ℕ) → (participant : String) → Outcome
      → (now : ℕ) → Step
  follows : (text : String) (appended : Result String ℕ) (now : ℕ) → Step
  cancels retries keeps_waiting dismisses : (now : ℕ) → Step

abbrev pub select_in : Room → ConversationJob → Option String
select_in r j = select_responder r.free r.of_chatgpt r.helpers r.others r.anyone r.temporaries j

abbrev pub step : Step → ConversationJob → ConversationJob
step (expires now line) j = expire now line j
step (assigns pending r now temporary position reason) j =
    assign pending (select_in r j) now temporary position reason j
step (withdraws launch participant reason temporary now) j =
    withdraw launch participant reason temporary now j
step (finishes of_chatgpt temporary launch participant out now) j =
    finish_attempt of_chatgpt temporary launch participant out now j
step (follows text appended now) j = or_same (follow_up text appended now j) j
step (cancels now) j = or_same (cancel now j) j
step (retries now) j = or_same (retry now j) j
step (keeps_waiting now) j = or_same (keep_waiting now j) j
step (dismisses now) j = or_same (dismiss now j) j

abbrev pub run_steps : List Step → ConversationJob → ConversationJob
run_steps [] j = j
run_steps (x ∷ xs) j = run_steps xs (step x j)
