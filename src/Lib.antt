-- ===== src/Lib.antt =====
-- A verification library for MoHuddle, a local room where a person and several coding agents work
-- on one project.
--
-- The program's core is Go under internal/. This library models its deterministic parts as
-- functions on records, one function per method, and proves what makes them correct.
--
--   Base: tests, lists, maps as association lists, results, machine words, texts.
--   Events (internal/remote/events/hub.go): the replay hub of remote events. Its mutex makes each
--   method one step; a delivery goroutine is a state machine whose turns interleave with the methods:
--   to take a delivery, to hand it over, and to note it as delivered are a turn each.
--   encoding/json is the parameter `Wire`, and `RoundTrips` what the hub relies on.
--   Agent.Notifications (internal/agent/codex/event_queue.go): the bounded queue between the reader
--   of the Codex process and its consumer; `DeltaJson` is encoding/json on the text deltas.
--   Agent.Tools (internal/agent/tool_observation.go, tool_tracker.go): what tool frames prove.
--   Research.RateLimit (internal/research/rate_limit.go): cooldowns of hosts.
--   Room.ToolLoop (internal/room/tool_loop.go): the monitor of repeated failures, which reads the
--   observations of Agent.Tools.
--   Chat.Coordination (internal/chat/handoff.go, coordination.go): handoffs, their reminders, and the
--   events of a run, as the follow-ups read them. Chat.FollowUps (internal/chat/followups.go,
--   chatgpt.go): the follow-ups of a room and the view of them, which Room.FollowUps
--   (internal/room/followups.go) changes. `Accepted` gives, as the interface `IsKept`, what a relation
--   needs in order to hold of every observation; `Counted` and `Spaced` fill it.
--   Chat.Participants, Chat.Corrections (internal/chat/types.go): who counts as an agent, and the
--   ledger of corrections that is replayed from the messages.
--   Room.Continuations (internal/room/continuation.go, publishChatGPTCoordinated of chatgpt.go): the
--   review that follows an assignment. `Advance` is the decision, `Publish` the message that dispatches
--   it up to its save, with `settle_published` for what follows that save as a step of its own; these
--   interleave with a stop in `Steps`. The checks of recipients and efforts, new names and the answers
--   of saves are the `Answers`; the marks of conversations whose save is under way, which no step here
--   reads, and the registration from saved messages are left out.
--   Room.Conversations (internal/room/conversations.go, internal/chat/conversation.go): the life of a
--   conversation. `Attempts` is the scheduler's choice of a responder, `Finish` how an attempt ends,
--   `Inbox` what a person sees and does; they interleave in `Steps`, in which a launched attempt may end
--   at any time. What makes a responder free, and what is saved, are answers of the room. The calls to
--   the providers, their runtimes, recovery at a start and promotion to work are left out.
--   Room.Lanes (internal/room/shared.go): the calls to a provider across rooms.
--   Room.Writers (internal/room/shared.go, workspace.go, workspace_journal.go): which workflow may write
--   a checkout; its steps interleave in `Runs`, and `Journal` is what survives a crash.
--   encoding/json on the journal is `JournalJson`, and `ReadsBack` what a restart relies on.
--   Remote.Device (internal/remote/device/store.go): the store of paired devices, their challenges and
--   sessions. `Durable` is what is saved to the file and read again, `Ephemeral` what is lost at a
--   restart, `Grants` and `Sessions` the methods on them, `Codes` the code that a person compares.
--   SHA-256, X.509 and ECDSA, encoding/json and the other encodings, which are `Packages`, random bytes,
--   the time and what the file system answers are arguments. Strings are valid UTF-8 there; the listing
--   of grants is left out.
--
-- Each component has its state and operations in the file of its name and its theorems in files below
-- it; a `Tests` file runs the code at concrete inputs. A parent passes on no names: users name the file.
-- The record of a Go struct has the struct's fields, or those that the modelled code reads, and says so.
--
-- Bounds and fuel. Go's uint64 counters wrap, and where a theorem needs that a counter has not wrapped,
-- it says so. Go's int lengths and byte counts are natural numbers. The loop of a lane's dispatch runs as
-- many rounds as tickets wait, each of which takes one out, so it ends as the code's loop does. Walks over
-- a text have as many rounds as it has bytes. All other loops recurse on the list they walk.
--
-- Concurrency. A method under a mutex is one step. What happens between two steps of one goroutine is
-- any sequence of the others' steps: `Reach` of Events.Hub.History, `Reach` of Room.Lanes.Bounded,
-- `run` of Room.Writers.Runs, the histories of Remote.Device.History and the `run_steps` of
-- Room.Continuations.Steps and Room.Conversations.Steps.
--
-- Outside the model: encoding/json, SHA-256, X.509, http.ParseTime, the clock, the file system, random
-- numbers and the answers of saves are parameters or arguments. Not modelled are the scheduler of turns
-- and workflows (internal/room/orchestrator.go), the HTTP API, the gateway in front of the device store,
-- the adapters' processes, settings, the files of the room store, tunnel, speech, and the user
-- interfaces.
pub mod Base
pub mod Events
pub mod Agent
pub mod Research
pub mod Remote
pub mod Room
pub mod Chat
