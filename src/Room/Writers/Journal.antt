-- ===== src/Room/Writers/Journal.antt =====
-- internal/room/workspace.go, workspace_journal.go: the journal of owners, and recovery.
pub mod Restart
use mohuddle.Base.{
  ℕ, zero, suc, ◌+◌, ◌-◌, ◌≤◌, ◌≡◌, Bool, true, false, not, ◌&&◌, ◌||◌, String, List, [], ◌∷◌, ◌++◌,
  map, Option, none, some, ltb, leb, ◌==◌, str_eq, is_empty, if◌then◌else◌, length, lookup, insert,
  delete, string_eq, u64,
}
use mohuddle.Room.Writers.{
  WorkspaceWriter, WorkspaceActivity, SharedCapacity, or_zero, is_some, writer_of, queue_of,
  revision_of, bump, persist, wake,
}

-- The records of those who wait, in their order.
unfoldable pub waiting_records : List String → SharedCapacity → List WorkspaceWriter
waiting_records [] s = []
waiting_records (key ∷ q) s =
    let rest = waiting_records q s in
    elim (lookup key s.records) [ none ↦ rest | some r ↦ r ∷ rest ]

abbrev or_else {ℓ} : {A : Type ℓ} → Option A → Option A → Option A
or_else none b = b
or_else (some a) b = some a

unfoldable pub snapshot : String → SharedCapacity → WorkspaceActivity
unfolding waiting_records
snapshot ws s = record {
  owner = or_else (lookup ws s.recovery) (lookup (writer_of ws s) s.records);
  waiting = waiting_records (queue_of ws s) s;
  last_writer = or_zero none (lookup ws s.last_writers);
  revision = revision_of ws s;
  recovery_required = is_some (lookup ws s.recovery) || is_some s.journal_err;
}

unfoldable pub add_snapshots :
    {A : Type 0}
    → List (String × A)
    → SharedCapacity
    → List (String × WorkspaceActivity)
    → List (String × WorkspaceActivity)
add_snapshots [] s saved = saved
add_snapshots ((ws, a) ∷ rest) s saved = add_snapshots rest s (insert ws (snapshot ws s) saved)

-- What persistWorkspaceLocked saves.
unfoldable pub journal_of : SharedCapacity → List (String × WorkspaceActivity)
unfolding add_snapshots
journal_of s = add_snapshots s.recovery s (add_snapshots s.revisions s [])

unfoldable pub hold_owner :
    String
    → Option WorkspaceWriter
    → List (String × WorkspaceWriter)
    → List (String × WorkspaceWriter)
hold_owner ws none recovery = recovery
hold_owner ws (some r) recovery = insert ws r recovery

load_one : String → WorkspaceActivity → SharedCapacity → SharedCapacity
unfolding hold_owner
load_one ws a s = record s {
  last_writers = insert ws a.last_writer s.last_writers;
  revisions = insert ws a.revision s.revisions;
  recovery = hold_owner ws a.owner s.recovery;
}

load : List (String × WorkspaceActivity) → SharedCapacity → SharedCapacity
unfolding load_one
load [] s = s
load ((ws, a) ∷ rest) s = load rest (load_one ws a s)

-- encoding/json on the journal, which is a Go map: a text that does not decode gives `none`.
pub record JournalJson : Type 0 where
  pub marshal : List (String × WorkspaceActivity) → String
  pub unmarshal : String → Option (List (String × WorkspaceActivity))

-- What is marshalled is read back with the same entry for every checkout.
abbrev pub ReadsBack : JournalJson → List (String × WorkspaceActivity) → Type 0
ReadsBack json saved =
    (is_empty (json.marshal saved) ≡ false)
    × ((back : List (String × WorkspaceActivity)) × (json.unmarshal (json.marshal saved)
          ≡ some back)
        × ((ws : String) → lookup ws back ≡ lookup ws saved))

configure_with :
    Option (List (String × WorkspaceActivity)) → SharedCapacity → SharedCapacity × Option String
unfolding load
configure_with none s = (s, some "read workspace ownership journal")
configure_with (some saved) s = (record (load saved s) { journaled = true }, none)

-- ConfigureWorkspaceJournal: no data are an empty journal.
pub configure_workspace_journal :
    JournalJson → String → SharedCapacity → SharedCapacity × Option String
unfolding configure_with
configure_workspace_journal json content s =
    configure_with (if is_empty content then some [] else json.unmarshal content) s

host_confirmed : ℕ → WorkspaceWriter → WorkspaceWriter
host_confirmed now r = record r {
  released_at = some now;
  release_reason = "host confirmed interrupted native workers stopped";
}

unfoldable pub clear_recovery :
    ℕ → String → Option WorkspaceWriter → SharedCapacity → SharedCapacity
unfolding host_confirmed bump
clear_recovery now ws none s = s
clear_recovery now ws (some r) s = bump ws (record s {
  last_writers = insert ws (some (host_confirmed now r)) s.last_writers;
  recovery = delete ws s.recovery;
})

unfoldable pub confirm_result :
    String
    → Option WorkspaceWriter
    → SharedCapacity × Option String
    → SharedCapacity × Option String
unfolding wake hold_owner
confirm_result ws old (s, none) = (wake s, none)
confirm_result ws old (s, some e) = (record s { recovery = hold_owner ws old s.recovery }, some e)

-- ConfirmWorkspaceStopped, a step of the host.
unfoldable pub confirm_workspace_stopped :
    ℕ → Option String → String → SharedCapacity → SharedCapacity × Option String
unfolding clear_recovery confirm_result
confirm_workspace_stopped now saved ws s =
    if is_empty (writer_of ws s)
    then confirm_result ws (lookup ws s.recovery)
        (persist saved (clear_recovery now ws (lookup ws s.recovery) s))
    else (s, some "a current writer is still active; wait for it to stop")
