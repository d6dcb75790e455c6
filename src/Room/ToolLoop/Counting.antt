-- ===== src/Room/ToolLoop/Counting.antt =====
-- internal/room/tool_loop.go: what the monitor counts, the running calls, the calls it tracks, the attempts it keeps.
use mohuddle.Base.{
  ℕ, zero, suc, ◌+◌, ◌-◌, ◌*◌, ◌≤◌, ◌<◌, ◌≡◌, refl, sym, ap, inl, inr, true, false, String, List,
  [], ◌∷◌, ◌++◌, Option, none, some, ltb, leb, if◌then◌else◌, arith, Bool-cases, Option-cases,
  length, length-drop, length-append, lookup, insert, map_values, str_eq, string_eq, ◌∙◌,
}
use mohuddle.Agent.Tools.{ToolObservation, same_observation, tool_completed}
use mohuddle.Room.ToolLoop.{
  ToolExecution, ToolAttempt, WorkflowLoopMonitor, Fingerprint, disable, reset_sequence, last_n,
  found, look, recent, add_attempt, counts, begin, overlap, mark_overlapped, complete_execution,
  observe, observe_complete, observe_start, observe_end, after_completion, new_monitor,
  max_tracked_tool_executions,
}

abbrev pub running : List (String × ToolExecution) → ℕ
running [] = 0
running ((k, e) ∷ m) = if e.done then running m else running m + 1

running-map :
    (m : List (String × ToolExecution)) → running (map_values mark_overlapped m) ≡ running m
unfolding map_values mark_overlapped
running-map [] = refl
running-map ((k, e) ∷ m) = ground (arith, running-map m)

length-map : (m : List (String × ToolExecution)) → length (map_values mark_overlapped m) ≡ length m
unfolding map_values
length-map [] = refl
length-map ((k, e) ∷ m) = ground (arith, length-map m)

lookup-map :
    (k : String) (m : List (String × ToolExecution))
    → lookup k m ≡ none
    → lookup k (map_values mark_overlapped m) ≡ none
unfolding map_values lookup
lookup-map k [] h = refl
lookup-map k ((j, e) ∷ m) h = ground (arith, lookup-map k m)

module _ (k : String) (e : ToolExecution) where
  -- A call that was not tracked.
  insert_new :
      (m : List (String × ToolExecution))
      → lookup k m ≡ none
      → e.done ≡ false
      → (length (insert k e m) ≡ length m + 1) × (running (insert k e m) ≡ running m + 1)
  unfolding lookup insert
  insert_new [] h q = (refl, ground arith)
  insert_new ((j, w) ∷ m) h q = ground (arith, insert_new m)

  -- A running call that ends.
  insert_end :
      (m : List (String × ToolExecution)) (old : ToolExecution)
      → lookup k m ≡ some old
      → old.done ≡ false
      → e.done ≡ true
      → (length (insert k e m) ≡ length m) × (running (insert k e m) + 1 ≡ running m)
  unfolding lookup insert
  insert_end [] old h q r = ground arith
  insert_end ((j, w) ∷ m) old h q r = ground (arith, insert_end m old)

-- The counter is the number of running calls, and both lists stay within their limits.
abbrev pub IsCounted : WorkflowLoopMonitor → Type 0
IsCounted m =
    (m.in_flight ≡ running m.executions)
    × (length m.executions ≤ max_tracked_tool_executions)
    × (length m.attempts ≤ 12)

disable-IsCounted : (m : WorkflowLoopMonitor) → IsCounted m → IsCounted (disable m)
unfolding disable reset_sequence
disable-IsCounted m h = (h.0, h.1, ground arith)

reset-IsCounted : (m : WorkflowLoopMonitor) → IsCounted m → IsCounted (reset_sequence m)
unfolding reset_sequence
reset-IsCounted m h = (h.0, h.1, ground arith)

overlap_same :
    (m : WorkflowLoopMonitor)
    → (running (overlap m).executions ≡ running m.executions)
      × (length (overlap m).executions ≡ length m.executions)
      × ((overlap m).in_flight ≡ m.in_flight)
      × (length (overlap m).attempts ≤ length m.attempts)
unfolding overlap reset_sequence
overlap_same m = ground (arith, running-map m.executions, length-map m.executions)

lookup-overlap :
    (k : String) (m : WorkflowLoopMonitor)
    → lookup k m.executions ≡ none
    → lookup k (overlap m).executions ≡ none
unfolding overlap reset_sequence
lookup-overlap k m h = ground (arith, lookup-map k m.executions h)

begin-IsCounted :
    (v : ToolObservation) (m : WorkflowLoopMonitor)
    → lookup v.invocation_id m.executions ≡ none
    → length m.executions < max_tracked_tool_executions
    → IsCounted m
    → IsCounted (begin v m)
unfolding begin
begin-IsCounted v m q room h =
    let (l, r) =
      insert_new v.invocation_id
        (record { start = v; finish = none; done = false; overlapped = ltb 0 m.in_flight })
        m.executions q refl in
    (ap (λ n. n + 1) h.0 ∙ sym r, omega (arith, l, room), h.2)

observe_start-IsCounted :
    (v : ToolObservation) (m : WorkflowLoopMonitor)
    → IsCounted m
    → IsCounted (observe_start (lookup v.invocation_id m.executions) v m).0
unfolding observe_start
observe_start-IsCounted v m h = elim (Option-cases (lookup v.invocation_id m.executions)) [
  | inr (x, known) ↦ rw known (elim (Bool-cases (same_observation x.start v)) [
    | inl same ↦ rw same h
    | inr differs ↦ rw differs (disable-IsCounted m h)
  ])
  | inl new ↦ rw new (elim (Bool-cases (leb max_tracked_tool_executions (length m.executions))) [
    | inl full ↦ rw full (disable-IsCounted m h)
    | inr room ↦ rw room (
        let (r, l, i, a) = overlap_same m in
        begin-IsCounted v (overlap m) (lookup-overlap v.invocation_id m new) (ground arith)
          (i ∙ h.0 ∙ sym r, omega (arith, l, h.1), omega (arith, a, h.2)))
  ])
]

found_same :
    (f : Fingerprint) (size : ℕ) (tail : List ToolAttempt) (m : WorkflowLoopMonitor)
    → IsCounted m
    → IsCounted (found f size tail m).0
unfolding found
found_same f size tail m h = ground arith

look-IsCounted :
    (f : Fingerprint) (k size : ℕ) (m : WorkflowLoopMonitor)
    → IsCounted m
    → IsCounted (look f k size m).0
unfolding look
look-IsCounted f zero size m h = h
look-IsCounted f (suc k) size m h =
    ground (
      arith,
      look-IsCounted f k (size + 1) m h,
      found_same f size (last_n (size * 3) m.attempts) m h,
    )

add-IsCounted :
    (a : ToolAttempt) (m : WorkflowLoopMonitor) → IsCounted m → IsCounted (add_attempt a m)
unfolding add_attempt recent last_n
add-IsCounted a m h = (
  h.0,
  h.1,
  ground (
    arith,
    length-append m.attempts (a ∷ []),
    length-drop (length (m.attempts ++ a ∷ []) - 12) (m.attempts ++ a ∷ []),
  ),
)

complete-IsCounted :
    (x : ToolExecution) (v : ToolObservation) (m : WorkflowLoopMonitor)
    → lookup v.invocation_id m.executions ≡ some x
    → x.done ≡ false
    → IsCounted m
    → IsCounted (complete_execution x v m)
unfolding complete_execution
complete-IsCounted x v m q fresh h =
    let (l, r) =
      insert_end v.invocation_id (record x { finish = some v; done = true }) m.executions x q fresh
        refl in
    (omega (arith, r, h.0), omega (arith, l, h.1), h.2)

after_completion-IsCounted :
    (f : Fingerprint) (x : ToolExecution) (v : ToolObservation) (m : WorkflowLoopMonitor)
    → IsCounted m
    → IsCounted (after_completion f x v m).0
unfolding after_completion
after_completion-IsCounted f x v m h = elim (Bool-cases (counts x v m)) [
  | inl hit ↦ rw hit (look-IsCounted f 4 1 _ (add-IsCounted _ m h))
  | inr miss ↦ rw miss (reset-IsCounted m h)
]

observe_end-IsCounted :
    (f : Fingerprint) (v : ToolObservation) (m : WorkflowLoopMonitor)
    → IsCounted m
    → IsCounted (observe_end f (lookup v.invocation_id m.executions) v m).0
unfolding observe_end
observe_end-IsCounted f v m h = elim (Option-cases (lookup v.invocation_id m.executions)) [
  | inl new ↦ rw new (disable-IsCounted m h)
  | inr (x, known) ↦ rw known (elim (Bool-cases (str_eq v.phase tool_completed)) [
    | inr other ↦ rw other (disable-IsCounted m h)
    | inl ends ↦ rw ends (elim (Bool-cases x.done) [
      | inr fresh ↦ simp fresh (
          after_completion-IsCounted f x v (complete_execution x v m)
            (complete-IsCounted x v m known fresh h))
      | inl again ↦ rw again (ground (arith, disable-IsCounted m h))
    ])
  ])
]

observe-IsCounted :
    (f : Fingerprint) (v : Option ToolObservation) (m : WorkflowLoopMonitor)
    → IsCounted m
    → IsCounted (observe f v m).0
unfolding observe observe_complete
observe-IsCounted f none m h = disable-IsCounted m h
observe-IsCounted f (some v) m h =
    ground
      (arith, disable-IsCounted m h, observe_start-IsCounted v m h, observe_end-IsCounted f v m h)

-- A turn: what it observes, in order, and whether any of it asked for recovery.
abbrev pub watch :
    Fingerprint → List (Option ToolObservation) → WorkflowLoopMonitor → WorkflowLoopMonitor
watch f [] m = m
watch f (v ∷ rest) m = watch f rest (observe f v m).0

watch-IsCounted :
    (f : Fingerprint) (vs : List (Option ToolObservation)) (m : WorkflowLoopMonitor)
    → IsCounted m
    → IsCounted (watch f vs m)
watch-IsCounted f [] m h = h
watch-IsCounted f (v ∷ vs) m h = watch-IsCounted f vs (observe f v m).0 (observe-IsCounted f v m h)

-- Whatever a turn observes, its monitor counts the running calls exactly and keeps at most 256 calls
-- and 12 attempts.
pub turn-IsCounted :
    (f : Fingerprint) (id : String) (vs : List (Option ToolObservation))
    → IsCounted (watch f vs (new_monitor id))
unfolding new_monitor
turn-IsCounted f id vs = watch-IsCounted f vs (new_monitor id) (refl, omega arith, omega arith)

observe-disabled :
    (f : Fingerprint) (v : Option ToolObservation) (m : WorkflowLoopMonitor)
    → m.disabled ≡ true
    → ((observe f v m).0.disabled ≡ true) × ((observe f v m).1.recover ≡ false)
unfolding observe disable reset_sequence
observe-disabled f none m h = (refl, refl)
observe-disabled f (some v) m h = ground arith

-- A monitor that has seen unsound evidence stays silent for the rest of the turn.
pub watch-disabled :
    (f : Fingerprint) (vs : List (Option ToolObservation)) (v : Option ToolObservation)
    (m : WorkflowLoopMonitor)
    → m.disabled ≡ true
    → (observe f v (watch f vs m)).1.recover ≡ false
watch-disabled f [] v m h = (observe-disabled f v m h).1
watch-disabled f (w ∷ vs) v m h =
    watch-disabled f vs v (observe f w m).0 (observe-disabled f w m h).0
