-- ===== src/Room/Writers/Tests.antt =====
-- Two rooms that want to write one checkout.
use mohuddle.Base.{
  if◌then◌else◌, length, ◌==◌, str_eq, ◌≡◌, refl, true, String, List, [], ◌∷◌, none, some, arith,
  lookup, insert, delete, string_eq,
}
use mohuddle.Room.Writers.{
  SharedCapacity, WorkspaceWriter, new_shared_capacity, writer_of, turns_of, register_writer,
  enter_writer, try_writer, retain_writer_turn, new_writer, room_name, join_queue, remove_waiter,
  wake, keep_writer, take_writer, can_write, persist, writer_acquired, acquired_with, bump,
  forget_record, leave_queue, remove_key,
}
use mohuddle.Room.Writers.Journal.{
  add_snapshots, waiting_records, JournalJson, ReadsBack, journal_of, snapshot,
  confirm_workspace_stopped, confirm_result, clear_recovery, hold_owner,
}
use mohuddle.Room.Writers.Runs.{Action, registers, enters, tries, releases, retains, confirms, run}
use mohuddle.Room.Writers.Keeps.{run_keeps_writer}
use mohuddle.Room.Writers.Journal.Restart.{restarted, restart_holds}

abbrev journaled : SharedCapacity
journaled = record new_shared_capacity { journaled = true }

-- Room a's workflow takes the checkout and runs a turn.
abbrev a_writes : List Action
a_writes =
    registers "a:1" "a" "a" "1" "codex"
    ∷ enters "/w" "a:1"
    ∷ tries 5 none none "/w" "a:1"
    ∷ retains "a:1"
    ∷ []

-- Meanwhile room b asks, and a's workflow ends before its turn does.
abbrev b_waits : List Action
b_waits =
    registers "b:2" "b" "b" "2" "claude"
    ∷ enters "/w" "b:2"
    ∷ tries 6 none none "/w" "b:2"
    ∷ releases 7 none "/w" "a:1"
    ∷ tries 8 none none "/w" "b:2"
    ∷ []

a_has : writer_of "/w" (run a_writes journaled) ≡ "a:1"
unfolding new_shared_capacity register_writer enter_writer try_writer retain_writer_turn new_writer
    room_name join_queue remove_waiter wake keep_writer take_writer can_write persist
    writer_acquired acquired_with bump forget_record leave_queue remove_key lookup insert delete
a_has = refl

a_turns : turns_of "a:1" (run a_writes journaled) ≡ 1
unfolding new_shared_capacity register_writer enter_writer try_writer retain_writer_turn new_writer
    room_name join_queue remove_waiter wake keep_writer take_writer can_write persist
    writer_acquired acquired_with bump forget_record leave_queue remove_key lookup insert delete
a_turns = refl

run_keeps_writer_example : writer_of "/w" (run b_waits (run a_writes journaled)) ≡ "a:1"
run_keeps_writer_example =
    run_keeps_writer "/w" "a:1" (run a_writes journaled) b_waits refl a_has (omega (arith, a_turns))
      (tt, (tt, ((λ e. refl), (tt, ((λ e. refl), tt)))))

abbrev a_record : WorkspaceWriter
a_record = record {
  room_id = "a";
  room_name = "a";
  workflow_id = "1";
  participant = "codex";
  acquired_at = some 5;
  released_at = none;
  release_reason = "";
  intended_files = [];
  observed_files = [];
  files_partial = true;
}

a_revision : lookup "/w" (run a_writes journaled).revisions ≡ some 1
unfolding new_shared_capacity register_writer enter_writer try_writer retain_writer_turn new_writer
    room_name join_queue remove_waiter wake keep_writer take_writer can_write persist
    writer_acquired acquired_with bump forget_record leave_queue remove_key lookup insert delete
a_revision = refl

a_owner : (snapshot "/w" (run a_writes journaled)).owner ≡ some a_record
unfolding new_shared_capacity register_writer enter_writer try_writer retain_writer_turn new_writer
    room_name join_queue remove_waiter wake keep_writer take_writer can_write persist
    writer_acquired acquired_with bump forget_record leave_queue remove_key lookup insert delete
    snapshot
a_owner = refl

-- The process dies while a writes: room b does not get the checkout.
abbrev b_asks : List Action
b_asks =
    registers "b:2" "b" "b" "2" "claude" ∷ enters "/w" "b:2" ∷ tries 6 none none "/w" "b:2" ∷ []

abbrev json : JournalJson
json = record {
  marshal = λ saved. if length saved == 0 then "{}" else "journal";
  unmarshal =
      λ text. if str_eq text "journal" then some (journal_of (run a_writes journaled)) else some [];
}

json-ReadsBack : ReadsBack json (journal_of (run a_writes journaled))
unfolding new_shared_capacity register_writer enter_writer try_writer retain_writer_turn new_writer
    room_name join_queue remove_waiter wake keep_writer take_writer can_write persist
    writer_acquired acquired_with bump forget_record leave_queue remove_key lookup insert delete
    snapshot journal_of add_snapshots waiting_records
json-ReadsBack = (refl, (_, refl, λ ws. refl))

restart_holds_example : writer_of "/w" (run b_asks (restarted json (run a_writes journaled))) ≡ ""
restart_holds_example =
    restart_holds json "/w" (run a_writes journaled) 1 a_record b_asks json-ReadsBack a_revision
      a_owner (tt, (tt, (tt, tt)))

-- Two turns of room a's workflow wait for the checkout. The first takes it and runs; the journal fails
-- in the second's round, which gives the checkout up under the running turn, and room b, which the
-- next save lets in, writes too.
abbrev two_turns : List Action
two_turns =
    registers "a:1" "a" "a" "1" "codex"
    ∷ enters "/w" "a:1"
    ∷ enters "/w" "a:1"
    ∷ registers "b:2" "b" "b" "2" "claude"
    ∷ enters "/w" "b:2"
    ∷ tries 5 none none "/w" "a:1"
    ∷ retains "a:1"
    ∷ tries 6 (some "disk full") none "/w" "a:1"
    ∷ confirms 7 none "/v"
    ∷ tries 8 none none "/w" "b:2"
    ∷ []

two_writers :
    (turns_of "a:1" (run two_turns journaled) ≡ 1)
    × (writer_of "/w" (run two_turns journaled) ≡ "b:2")
unfolding new_shared_capacity register_writer enter_writer try_writer retain_writer_turn new_writer
    room_name join_queue remove_waiter wake keep_writer take_writer can_write persist
    writer_acquired acquired_with bump forget_record leave_queue remove_key
    confirm_workspace_stopped confirm_result clear_recovery hold_owner lookup insert delete
two_writers = (refl, refl)

abbrev inside : String → String → String
inside workspace path = path
