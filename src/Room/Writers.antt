-- ===== src/Room/Writers.antt =====
-- internal/room/shared.go, workspace.go, workspace_journal.go: which workflow may write a checkout.
pub mod Journal
pub mod Runs
pub mod Files
pub mod Effects
pub mod Holders
pub mod Keeps
pub mod Recovery
mod Tests
use mohuddle.Base.{
  ℕ, zero, suc, ◌+◌, ◌-◌, ◌≤◌, ◌≡◌, Bool, true, false, not, ◌&&◌, ◌||◌, String, List, [], ◌∷◌, ◌++◌,
  map, Option, none, some, ltb, leb, ◌==◌, str_eq, is_empty, if◌then◌else◌, length, lookup, insert,
  delete, string_eq, u64,
}

-- chat.WorkspaceWriter; a time is a number.
pub record WorkspaceWriter : Type 0 where
  pub room_id : String
  pub room_name : String
  pub workflow_id : String
  pub participant : String
  pub acquired_at : Option ℕ
  pub released_at : Option ℕ
  pub release_reason : String
  pub intended_files : List String
  pub observed_files : List String
  pub files_partial : Bool

pub record WorkspaceActivity : Type 0 where
  pub owner : Option WorkspaceWriter
  pub waiting : List WorkspaceWriter
  pub last_writer : Option WorkspaceWriter
  pub revision : ℕ
  pub recovery_required : Bool

-- SharedCapacity without its lanes. A Go map that is read where it has no entry gives the zero value.
-- `woken` counts the times that `changed` was closed.
pub record SharedCapacity : Type 0 where
  pub room_names : List (String × String)
  pub recovery : List (String × WorkspaceWriter)
  pub journaled : Bool
  pub journal_err : Option String
  pub records : List (String × WorkspaceWriter)
  pub last_writers : List (String × Option WorkspaceWriter)
  pub revisions : List (String × ℕ)
  pub writer_turns : List (String × ℕ)
  pub writer_closing : List (String × Bool)
  pub writers : List (String × String)
  pub writer_queue : List (String × List String)
  pub waiters : List (String × ℕ)
  pub woken : ℕ

unfoldable pub new_shared_capacity : SharedCapacity
new_shared_capacity = record {
  room_names = [];
  recovery = [];
  journaled = false;
  journal_err = none;
  records = [];
  last_writers = [];
  revisions = [];
  writer_turns = [];
  writer_closing = [];
  writers = [];
  writer_queue = [];
  waiters = [];
  woken = 0;
}

-- A value or the zero value.
abbrev pub or_zero {ℓ} : {A : Type ℓ} → A → Option A → A
or_zero z none = z
or_zero z (some a) = a

abbrev pub is_some {ℓ} : {A : Type ℓ} → Option A → Bool
is_some none = false
is_some (some a) = true

abbrev pub writer_of : String → SharedCapacity → String
writer_of ws s = or_zero "" (lookup ws s.writers)

abbrev pub queue_of : String → SharedCapacity → List String
queue_of ws s = or_zero [] (lookup ws s.writer_queue)

abbrev pub waiters_of : String → SharedCapacity → ℕ
waiters_of key s = or_zero 0 (lookup key s.waiters)

abbrev pub turns_of : String → SharedCapacity → ℕ
turns_of key s = or_zero 0 (lookup key s.writer_turns)

abbrev pub is_closing : String → SharedCapacity → Bool
is_closing key s = or_zero false (lookup key s.writer_closing)

abbrev pub revision_of : String → SharedCapacity → ℕ
revision_of ws s = or_zero 0 (lookup ws s.revisions)

wake : SharedCapacity → SharedCapacity
wake s = record s { woken = s.woken + 1 }

bump : String → SharedCapacity → SharedCapacity
bump ws s = record s { revisions = insert ws (u64 (revision_of ws s + 1)) s.revisions }

-- What json.Marshal and saveJournal answer is an argument.
pub persist : Option String → SharedCapacity → SharedCapacity × Option String
persist saved s = if s.journaled then (record s { journal_err = saved }, saved) else (s, none)

room_name : String → String → String
room_name known name = if is_empty known then name else known

new_writer : String → String → String → String → WorkspaceWriter
new_writer room name workflow p = record {
  room_id = room;
  room_name = name;
  workflow_id = workflow;
  participant = p;
  acquired_at = none;
  released_at = none;
  release_reason = "";
  intended_files = [];
  observed_files = [];
  files_partial = true;
}

pub register_writer : String → String → String → String → String → SharedCapacity → SharedCapacity
unfolding new_writer room_name
register_writer key room name workflow p s =
    let shown = room_name (or_zero "" (lookup room s.room_names)) name in
    let r = or_zero (new_writer room shown workflow p) (lookup key s.records) in
    record s { records = insert key (record r { participant = p }) s.records }

acquired_with : Option WorkspaceWriter → ℕ → String → String → SharedCapacity → SharedCapacity
unfolding bump
acquired_with none now ws key s = s
acquired_with (some r) now ws key s =
    if is_some r.acquired_at
    then s
    else bump ws (record s { records = insert key (record r { acquired_at = some now }) s.records })

pub writer_acquired : ℕ → String → String → SharedCapacity → SharedCapacity
unfolding acquired_with
writer_acquired now ws key s = acquired_with (lookup key s.records) now ws key s

released_record : ℕ → WorkspaceWriter → WorkspaceWriter
released_record now r = record r {
  released_at = some now;
  release_reason = if is_empty r.release_reason then "workflow ended" else r.release_reason;
}

released_with : Option WorkspaceWriter → ℕ → String → String → SharedCapacity → SharedCapacity
unfolding bump released_record
released_with none now ws key s = s
released_with (some r) now ws key s = bump ws (record s {
  last_writers = insert ws (some (released_record now r)) s.last_writers;
  records = delete key s.records;
})

pub writer_released : ℕ → String → String → SharedCapacity → SharedCapacity
unfolding released_with
writer_released now ws key s = released_with (lookup key s.records) now ws key s

remove_key : String → List String → List String
remove_key key [] = []
remove_key key (k ∷ q) = let rest = remove_key key q in if str_eq k key then q else k ∷ rest

forget_record : String → String → SharedCapacity → SharedCapacity
forget_record ws key s =
    if str_eq (writer_of ws s) key then s else record s { records = delete key s.records }

leave_queue : String → String → SharedCapacity → SharedCapacity
unfolding remove_key
leave_queue ws key s = record s {
  writer_queue = insert ws (remove_key key (queue_of ws s)) s.writer_queue;
}

-- `remove` of acquireWriter.
pub remove_waiter : String → String → SharedCapacity → SharedCapacity
unfolding forget_record leave_queue
remove_waiter ws key s =
    if leb (waiters_of key s) 1
    then leave_queue ws key (forget_record ws key (record s { waiters = delete key s.waiters }))
    else record s { waiters = insert key (waiters_of key s - 1) s.waiters }

join_queue : String → String → SharedCapacity → SharedCapacity
join_queue ws key s =
    if waiters_of key s == 0
    then record s { writer_queue = insert ws (queue_of ws s ++ key ∷ []) s.writer_queue }
    else s

-- acquireWriter before its loop; true where the loop is entered.
pub enter_writer : String → String → SharedCapacity → SharedCapacity × Bool
unfolding join_queue
enter_writer ws key s = if str_eq (writer_of ws s) key then (s, false) else (
  let k = join_queue ws key s in record k { waiters = insert key (waiters_of key k + 1) k.waiters },
  true,
)

abbrev pub is_first : String → List String → Bool
is_first key [] = false
is_first key (k ∷ q) = str_eq k key

pub can_write : String → String → SharedCapacity → Bool
can_write ws key s =
    not (is_some (lookup ws s.recovery))
    && not (is_some s.journal_err)
    && (str_eq (writer_of ws s) key || (is_empty (writer_of ws s) && is_first key (queue_of ws s)))

pub data WriterTurn : Type 0 where
  waits holds : WriterTurn
  refused : String → WriterTurn

-- The checkout is the key's, and the journal says so or it is given up.
pub take_writer : ℕ → String → String → SharedCapacity → SharedCapacity
unfolding writer_acquired
take_writer now ws key s =
    writer_acquired now ws key (record s { writers = insert ws key s.writers })

pub keep_writer : String → String → SharedCapacity × Option String → SharedCapacity × WriterTurn
unfolding remove_waiter wake
keep_writer ws key (s, none) = (wake (remove_waiter ws key s), holds)
keep_writer ws key (s, some e) =
    (remove_waiter ws key (record s { writers = delete ws s.writers }), refused e)

-- One round of acquireWriter's loop; `ended` is the error of the context.
pub try_writer :
    ℕ
    → Option String
    → Option String
    → String
    → String
    → SharedCapacity
    → SharedCapacity × WriterTurn
unfolding remove_waiter wake keep_writer take_writer
try_writer now saved (some e) ws key s = (wake (remove_waiter ws key s), refused e)
try_writer now saved none ws key s =
    if can_write ws key s
    then keep_writer ws key (persist saved (take_writer now ws key s))
    else (s, waits)

-- The end of a workflow that no turn of it outlives.
pub free_writer : ℕ → Option String → String → String → SharedCapacity → SharedCapacity
unfolding wake writer_released
free_writer now saved ws key s =
    let k = writer_released now ws key s in
    wake
      (persist saved (record k {
        writers = delete ws k.writers;
        writer_closing = delete key k.writer_closing;
      })).0

pub release_writer : ℕ → Option String → String → String → SharedCapacity → SharedCapacity
unfolding free_writer
release_writer now saved ws key s =
    if str_eq (writer_of ws s) key
    then (if ltb 0 (turns_of key s)
        then record s { writer_closing = insert key true s.writer_closing }
        else free_writer now saved ws key s)
    else s

pub retain_writer_turn : String → SharedCapacity → SharedCapacity
retain_writer_turn key s = record s {
  writer_turns = insert key (turns_of key s + 1) s.writer_turns;
}

pub finish_writer_turn : ℕ → Option String → String → String → SharedCapacity → SharedCapacity
unfolding free_writer
finish_writer_turn now saved ws key s =
    if leb (turns_of key s) 1
    then (let k = record s { writer_turns = delete key s.writer_turns } in
        if is_closing key k && str_eq (writer_of ws k) key
        then free_writer now saved ws key k
        else k)
    else record s { writer_turns = insert key (turns_of key s - 1) s.writer_turns }
