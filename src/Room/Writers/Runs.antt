-- ===== src/Room/Writers/Runs.antt =====
-- The steps of all rooms, each under the mutex, and what the helpers leave alone.
use mohuddle.Base.{ℕ, ◌≡◌, refl, ◌∙◌, String, List, [], ◌∷◌, Option, string_eq, arith}
use mohuddle.Room.Writers.{
  SharedCapacity, persist, register_writer, enter_writer, try_writer, release_writer,
  retain_writer_turn, finish_writer_turn, bump, acquired_with, writer_acquired, released_with,
  writer_released, forget_record, leave_queue, remove_waiter, join_queue,
}
use mohuddle.Room.Writers.Journal.{confirm_workspace_stopped}

-- A step, with what the clock, the journal and the context answer in it.
pub data Action : Type 0 where
  registers : (key room name workflow p : String) → Action
  enters : (ws key : String) → Action
  tries : (now : ℕ) (saved ended : Option String) (ws key : String) → Action
  releases : (now : ℕ) (saved : Option String) (ws key : String) → Action
  retains : (key : String) → Action
  finishes : (now : ℕ) (saved : Option String) (ws key : String) → Action
  confirms : (now : ℕ) (saved : Option String) (ws : String) → Action

abbrev pub step : Action → SharedCapacity → SharedCapacity
step (registers key room name workflow p) s = register_writer key room name workflow p s
step (enters ws key) s = (enter_writer ws key s).0
step (tries now saved ended ws key) s = (try_writer now saved ended ws key s).0
step (releases now saved ws key) s = release_writer now saved ws key s
step (retains key) s = retain_writer_turn key s
step (finishes now saved ws key) s = finish_writer_turn now saved ws key s
step (confirms now saved ws) s = (confirm_workspace_stopped now saved ws s).0

abbrev pub run : List Action → SharedCapacity → SharedCapacity
run [] s = s
run (a ∷ rest) s = run rest (step a s)

-- The owners, the turns and the holds are as they were.
abbrev pub Keeps : SharedCapacity → SharedCapacity → Type 0
Keeps s k = (k.writers ≡ s.writers) × (k.writer_turns ≡ s.writer_turns) × (k.recovery ≡ s.recovery)

pub Keeps-trans : (a b c : SharedCapacity) → Keeps a b → Keeps b c → Keeps a c
Keeps-trans a b c h k = (k.0 ∙ h.0, k.1 ∙ h.1, k.2 ∙ h.2)

pub persist-Keeps : (saved : Option String) (s : SharedCapacity) → Keeps s (persist saved s).0
unfolding persist
persist-Keeps saved s = ground arith

pub acquired-Keeps :
    (now : ℕ) (ws key : String) (s : SharedCapacity) → Keeps s (writer_acquired now ws key s)
unfolding writer_acquired acquired_with bump
acquired-Keeps now ws key s = ground arith

pub released-Keeps :
    (now : ℕ) (ws key : String) (s : SharedCapacity) → Keeps s (writer_released now ws key s)
unfolding writer_released released_with bump
released-Keeps now ws key s = ground arith

pub remove-Keeps : (ws key : String) (s : SharedCapacity) → Keeps s (remove_waiter ws key s)
unfolding remove_waiter forget_record leave_queue
remove-Keeps ws key s = ground arith

pub register-Keeps :
    (key room name workflow p : String) (s : SharedCapacity)
    → Keeps s (register_writer key room name workflow p s)
unfolding register_writer
register-Keeps key room name workflow p s = (refl, refl, refl)

pub enter-Keeps : (ws key : String) (s : SharedCapacity) → Keeps s (enter_writer ws key s).0
unfolding enter_writer join_queue
enter-Keeps ws key s = ground arith
