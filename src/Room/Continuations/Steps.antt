-- ===== src/Room/Continuations/Steps.antt =====
-- internal/room/continuation.go, chatgpt.go: the steps that interleave around a continuation.
use mohuddle.Base.{ℕ, Bool, true, String, List, [], ◌∷◌, Option}
use mohuddle.Room.Continuations.{
  WorkflowState, RunState, Access, ConversationJob, Orchestrator, Dispatch,
}
use mohuddle.Room.Continuations.Advance.{decide, finish, cancel_continuations, write_run}
use mohuddle.Room.Continuations.Publish.{Answers, publish, settle_published}

-- Deciding on the continuation of a workflow, saving a contribution, whoever asks for it, what
-- follows the save of the room, and what follows its answer are four steps; a stop is one; and the rest of the room may change its
-- conversations, workflows, access and the state of the run, or close.
pub data Step : Type 0 where
  decides : (now : ℕ) (parent : String) → Step
  publishes : (now : ℕ) → Answers → Dispatch → Step
  settles : (saves_room : Bool) → ℕ × List String → Step
  finishes : (parent : String) → Option ℕ → Step
  cancels : (reason : String) → Step
  replies : List ConversationJob → Step
  works : List (String × WorkflowState) → Step
  grants : Option Access → Step
  turns : RunState → Step
  shuts : Step

module _ (print : ℕ → String) where
  abbrev pub step : Step → Orchestrator → Orchestrator
  step (decides now parent) o = (decide print now parent o).0
  step (publishes now answers d) o = (publish now answers d o).0
  step (settles saves published) o = (settle_published saves published o).0
  step (finishes parent answer) o = finish parent answer o
  step (cancels reason) o = cancel_continuations reason o
  step (replies jobs) o = record o { conversations = jobs }
  step (works workflows) o = record o { workflows = workflows }
  step (grants access) o = record o { access = access }
  step (turns state) o = record o { run = write_run (λ r. record r { state = state }) o.run }
  step shuts o = record o { closed = true }

  abbrev pub run_steps : List Step → Orchestrator → Orchestrator
  run_steps [] o = o
  run_steps (x ∷ xs) o = run_steps xs (step x o)
