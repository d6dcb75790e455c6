-- ===== src/Room/Continuations.antt =====
-- internal/room/continuation.go, chatgpt.go: a registered review that follows an assignment, and the
-- message that dispatches it. A time is in nanoseconds.
pub mod Publish
pub mod Advance
pub mod Steps
pub mod Once
pub mod Final
mod Tests
use Prim.Native.String.{◌++◌ as append_text}
use mohuddle.Base.{
  ℕ, suc, ◌+◌, Bool, true, false, not, ◌&&◌, ◌||◌, String, len, List, [], ◌∷◌, Option, none, some,
  ltb, leb, ◌==◌, str_eq, is_empty, if◌then◌else◌, lookup, string_eq,
}

pub data ConversationState : Type 0 where
  finding waiting answering retrying answered needs_attention failed dismissed cancelled :
      ConversationState

abbrev pub terminal : ConversationState → Bool
terminal finding = false
terminal waiting = false
terminal answering = false
terminal retrying = false
terminal _ = true

abbrev pub is_answered : ConversationState → Bool
is_answered answered = true
is_answered _ = false

pub data WorkflowState : Type 0 where
  workflow_queued workflow_active workflow_waiting workflow_needs_attention : WorkflowState
  workflow_completed workflow_cancelled workflow_interrupted : WorkflowState

-- How a workflow that has not completed stands: over, or still on its way.
abbrev pub has_failed : WorkflowState → Bool
has_failed workflow_cancelled = true
has_failed workflow_interrupted = true
has_failed workflow_needs_attention = true
has_failed _ = false

pub record Spec : Type 0 where
  pub target : String
  pub text : String
  pub reply_class : String
  pub effort : String

pub data ContinuationState : Type 0 where
  queued running completed blocked called_off : ContinuationState

pub record Continuation : Type 0 where
  pub id : String
  pub parent_workflow : String
  pub source_sequence : ℕ
  pub spec : Spec
  pub state : ContinuationState
  pub reason : String
  pub assignment_sequence : ℕ

pub record Handoff : Type 0 where
  pub id : String
  pub result_sequence : ℕ
  pub resolution : String

pub data RunState : Type 0 where
  pending stopped : RunState
  other_state : String → RunState

pub record Run : Type 0 where
  pub id : String
  pub state : RunState
  pub handoffs : List Handoff
  pub continuations : List Continuation

pub record Access : Type 0 where
  pub enabled : Bool
  pub expires_at : ℕ
  pub paused : Bool
  pub pause_reason : String

pub record Message : Type 0 where
  pub sequence : ℕ
  pub author : String
  pub is_text : Bool
  pub text : String
  pub reply_to : ℕ
  pub requested : List String
  pub route_id : Option String

pub record ConversationJob : Type 0 where
  pub id : String
  pub source_sequence : ℕ
  pub state : ConversationState
  pub terminal_reason : String

-- The part of an orchestrator that a continuation reads and writes.
pub record Orchestrator : Type 0 where
  pub closed : Bool
  pub messages : List Message
  pub next_sequence : ℕ
  pub conversations : List ConversationJob
  pub workflows : List (String × WorkflowState)
  pub access : Option Access
  pub run : Option Run

abbrev pub chatgpt : String
chatgpt = "chatgpt"

abbrev pub find_continuation : List Continuation → String → Option Continuation
find_continuation [] workflow = none
find_continuation (c ∷ cs) workflow =
    if str_eq c.parent_workflow workflow then some c else find_continuation cs workflow

-- The continuation of a workflow, and the writes through the pointer to it.
abbrev pub continuation : Option Run → String → Option Continuation
continuation none workflow = none
continuation (some r) workflow = find_continuation r.continuations workflow

abbrev pub update_found :
    (Continuation → Continuation) → List Continuation → String → List Continuation
update_found f [] workflow = []
update_found f (c ∷ cs) workflow =
    if str_eq c.parent_workflow workflow then f c ∷ cs else c ∷ update_found f cs workflow

abbrev pub is_pending : RunState → Bool
is_pending pending = true
is_pending _ = false

abbrev pub is_stopped : RunState → Bool
is_stopped stopped = true
is_stopped _ = false

abbrev pub is_queued : ContinuationState → Bool
is_queued queued = true
is_queued _ = false

-- A conversation that a message of ChatGPT started.
abbrev pub by_chatgpt : List Message → ℕ → Bool
by_chatgpt [] source = false
by_chatgpt (m ∷ ms) source =
    if m.sequence == source then str_eq m.author chatgpt else by_chatgpt ms source

-- How many conversations of ChatGPT have not ended.
abbrev pub pending_replies : List Message → List ConversationJob → ℕ
pending_replies messages [] = 0
pending_replies messages (j ∷ js) =
    let rest = pending_replies messages js in
    if not (terminal j.state) && by_chatgpt messages j.source_sequence then suc rest else rest

abbrev pub is_route : String → Option String → Bool
is_route id none = false
is_route id (some k) = str_eq k id

abbrev pub routed : String → Message → Bool
routed id m = is_route id m.route_id

-- The first message with a route of that name.
abbrev pub find_routed : String → List Message → Option Message
find_routed id [] = none
find_routed id (m ∷ ms) = if routed id m then some m else find_routed id ms

-- The review that a continuation asks for.
pub record Dispatch : Type 0 where
  pub text : String
  pub reply_to : ℕ
  pub recipients : List String
  pub route_id : String
  pub reply_class : String
  pub run_id : String
  pub handoff_id : String
  pub parent : String
  pub effort : String
