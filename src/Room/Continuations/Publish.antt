-- ===== src/Room/Continuations/Publish.antt =====
-- internal/room/chatgpt.go: a contribution of ChatGPT is saved and its replies are scheduled.
use mohuddle.Base.{
  ℕ, suc, ◌+◌, Bool, true, false, not, ◌&&◌, ◌||◌, String, len, List, [], ◌∷◌, ◌++◌, Option, none,
  some, ok, err, ◌>>=◌, ◌>>◌, or_fail, Result, ltb, ◌==◌, str_eq, is_empty, if◌then◌else◌, length,
  map, trim_space,
}
use mohuddle.Chat.Participants.{valid_agent}
use mohuddle.Room.Continuations.{
  finding, failed, Continuation, Run, Access, Message, ConversationJob, Orchestrator, continuation,
  is_pending, is_stopped, is_queued, chatgpt, pending_replies, find_routed, Dispatch,
}

pub data PublishError : Type 0 where
  bad_class bad_effort disconnected other_content unscheduled bad_dispatch post_resolves :
      PublishError
  bad_contribution too_many_replies bad_recipient no_target no_id unsaved : PublishError

-- What the parts of the orchestrator that are not modelled here answer: the checks of the effort, the
-- dispatch and the recipients, whether ChatGPT is present, whether a saved message has the same
-- effort, class, intent and dispatch, new names for the message and its jobs, and the save of the message.
pub record Answers : Type 0 where
  pub effort_normal : Bool
  pub present : Bool
  pub same_rest : Message → Bool
  pub dispatch_valid : Bool
  pub recipients_valid : Bool
  pub effort_valid : Bool
  pub message_id : Option String
  pub job_ids : Option (List String)
  pub appends : Bool

abbrev pub Answer : Type 0 → Type 0
Answer = Result PublishError

abbrev pub require : Bool → PublishError → Answer Unit
require true e = ok tt
require false e = err e

abbrev pub strings_eq : List String → List String → Bool
strings_eq [] [] = true
strings_eq (x ∷ xs) (y ∷ ys) = str_eq x y && strings_eq xs ys
strings_eq _ _ = false

abbrev pub is_reply_class : String → Bool
is_reply_class c = str_eq c "quick" || str_eq c "research"

abbrev pub none_of : List String → Bool
none_of [] = true
none_of (x ∷ xs) = false

-- A message that is found again under its name.
abbrev pub unscheduled_job : ℕ → List ConversationJob → Bool
unscheduled_job sequence [] = false
unscheduled_job sequence (j ∷ js) =
    let rest = unscheduled_job sequence js in
    (j.source_sequence == sequence
      && str_eq j.terminal_reason "could not persist peer reply request")
    || rest

abbrev pub has_target : ℕ → List Message → Bool
has_target n [] = false
has_target n (m ∷ ms) =
    let rest = has_target n ms in
    (m.sequence == n
      && m.is_text
      && (str_eq m.author "user" || str_eq m.author chatgpt || valid_agent m.author))
    || rest

module _ (now : ℕ) (a : Answers) where
  abbrev pub can_continue : Orchestrator → Access → Option Run → Option Continuation → Bool
  can_continue o access (some r) (some c) =
      is_queued c.state
      && is_pending r.state
      && access.enabled
      && ltb now access.expires_at
      && not (str_eq access.pause_reason "no_progress")
  can_continue o access _ _ = false

  -- `chatGPTCanPublishLocked`
  abbrev pub can_publish : Orchestrator → Access → String → Bool
  can_publish o access parent =
      if is_empty parent then a.present else can_continue o access o.run (continuation o.run parent)

  abbrev pub run_stopped : Option Run → Bool
  run_stopped none = false
  run_stopped (some r) = is_stopped r.state

  abbrev pub connected : Orchestrator → String → Option Access → Bool
  connected o parent none = false
  connected o parent (some access) =
      not o.closed && can_publish o access parent && not access.paused && not (run_stopped o.run)

  -- What is checked before a name is looked up.
  abbrev pub admitted : Dispatch → Orchestrator → Answer Unit
  admitted d o = do
    require (is_empty d.reply_class || not (none_of d.recipients) && is_reply_class d.reply_class)
        bad_class
    require a.effort_normal bad_effort
    require (connected o d.parent o.access) disconnected

  abbrev pub same_content : Dispatch → Message → Bool
  same_content d m =
      str_eq m.author chatgpt
      && str_eq m.text d.text
      && m.reply_to == d.reply_to
      && strings_eq m.requested d.recipients
      && a.same_rest m

  -- A retry never schedules work again.
  abbrev pub retried : Dispatch → Orchestrator → Message → Answer (ℕ × List String)
  retried d o m = do
    require (same_content d m) other_content
    require (not (unscheduled_job m.sequence o.conversations)) unscheduled
    ok (m.sequence, [])

  -- What is checked of a new contribution, and the names for it.
  abbrev pub accepted : Dispatch → Orchestrator → Answer (String × List String)
  accepted d o = do
    require a.dispatch_valid bad_dispatch
    require (is_empty d.handoff_id || not (none_of d.recipients)) post_resolves
    require
        (not
          (ltb 4 (length d.recipients) || ltb 16_000 (len d.text) || is_empty (trim_space d.text)))
        bad_contribution
    require (not (ltb 4 (pending_replies o.messages o.conversations + length d.recipients)))
        too_many_replies
    require a.recipients_valid bad_recipient
    require a.effort_valid bad_effort
    require (d.reply_to == 0 || has_target d.reply_to o.messages) no_target
    id ← or_fail a.message_id no_id
    jobs ← or_fail a.job_ids no_id
    require a.appends unsaved
    ok (id, jobs)

  abbrev pub message_of : Dispatch → ℕ → Message
  message_of d sequence = record {
    sequence = sequence;
    author = chatgpt;
    is_text = true;
    text = d.text;
    reply_to = d.reply_to;
    requested = d.recipients;
    route_id = some d.route_id;
  }

  abbrev pub job_of : ℕ → String → ConversationJob
  job_of sequence id = record {
    id = id;
    source_sequence = sequence;
    state = finding;
    terminal_reason = "";
  }

  -- The saved message is appended with its jobs.
  abbrev pub append :
      Dispatch → Orchestrator → String × List String → Orchestrator × Answer (ℕ × List String)
  append d o (id, jobs) = (
    record o {
      next_sequence = suc o.next_sequence;
      messages = o.messages ++ message_of d o.next_sequence ∷ [];
      conversations = o.conversations ++ map (job_of o.next_sequence) jobs;
    },
    ok (o.next_sequence, jobs),
  )

  abbrev pub create :
      Dispatch
      → Orchestrator
      → Answer (String × List String)
      → Orchestrator × Answer (ℕ × List String)
  create d o (err e) = (o, err e)
  create d o (ok names) = append d o names

  abbrev pub publish_new :
      Dispatch → Orchestrator → Option Message → Orchestrator × Answer (ℕ × List String)
  publish_new d o (some m) = (o, retried d o m)
  publish_new d o none = create d o (accepted d o)

  abbrev pub publish_admitted :
      Dispatch → Orchestrator → Answer Unit → Orchestrator × Answer (ℕ × List String)
  publish_admitted d o (err e) = (o, err e)
  publish_admitted d o (ok u) = publish_new d o (find_routed d.route_id o.messages)

  -- `publishChatGPTCoordinated`, up to the first unlock: the orchestrator, the message's sequence and
  -- the jobs that are to be scheduled.
  unfoldable pub publish : Dispatch → Orchestrator → Orchestrator × Answer (ℕ × List String)
  publish d o = publish_admitted d o (admitted d o)

abbrev pub unpersisted : ConversationJob → ConversationJob
unpersisted j = record j {
  state = failed;
  terminal_reason = "could not persist peer reply request";
}

-- `conversationLocked` finds the first job of a name.
abbrev pub fail_first : String → List ConversationJob → List ConversationJob
fail_first id [] = []
fail_first id (j ∷ js) =
    let rest = fail_first id js in if str_eq j.id id then unpersisted j ∷ js else j ∷ rest

abbrev pub fail_all : List String → List ConversationJob → List ConversationJob
fail_all [] js = js
fail_all (id ∷ ids) js = fail_all ids (fail_first id js)

-- What follows the save of the room, which runs without the lock. That the jobs are pending until then
-- is not modelled.
unfoldable pub settle_published :
    (saves_room : Bool) → ℕ × List String → Orchestrator → Orchestrator × Answer ℕ
settle_published true (sequence, jobs) o = (o, ok sequence)
settle_published false (sequence, jobs) o =
    (record o { conversations = fail_all jobs o.conversations }, err unscheduled)
