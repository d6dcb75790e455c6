-- ===== src/Room/ToolLoop.antt =====
-- internal/room/tool_loop.go: the monitor that looks for repeated tool failures in a turn.
pub mod Cycles
pub mod Counting
mod Tests
use Prim.Native.Nat.{Ordering}
use Prim.Native.String.{compare, ◌++◌ as append_text}
use mohuddle.Base.{
  ℕ, zero, suc, ◌+◌, ◌-◌, ◌*◌, ◌%◌, Bool, true, false, ◌&&◌, ◌||◌, not, String, List, [], ◌∷◌, ◌++◌,
  map, Option, none, some, ltb, leb, ◌==◌, str_eq, is_empty, if◌then◌else◌, length, drop, take,
  get_elem?, lookup, insert, map_values, string_eq,
}
use mohuddle.Agent.Tools.{
  ToolObservation, same_observation, tool_started, tool_completed, tool_failed,
}

abbrev pub max_tracked_tool_executions : ℕ
max_tracked_tool_executions = 256

pub record ToolExecution : Type 0 where
  pub start : ToolObservation
  -- The zero observation until the execution is done.
  pub finish : Option ToolObservation
  pub done : Bool
  pub overlapped : Bool

pub record ToolAttempt : Type 0 where
  pub signature : String
  pub eligible : Bool

pub record WorkflowLoopMonitor : Type 0 where
  pub workflow_id : String
  pub executions : List (String × ToolExecution)
  pub in_flight : ℕ
  pub attempts : List ToolAttempt
  pub warned : String
  pub disabled : Bool

pub record LoopDecision : Type 0 where
  pub recover : Bool
  pub reason : String

abbrev pub no_decision : LoopDecision
no_decision = record { recover = false; reason = "" }

unfoldable pub new_monitor : String → WorkflowLoopMonitor
new_monitor id = record {
  workflow_id = id;
  executions = [];
  in_flight = 0;
  attempts = [];
  warned = "";
  disabled = false;
}

-- agent.ToolFingerprint: canonical JSON under SHA-256.
pub record Fingerprint : Type 0 where
  pub of_failure : String → String → String → String
  pub of_cycle : List String → String

reset_sequence : WorkflowLoopMonitor → WorkflowLoopMonitor
reset_sequence m = record m { attempts = []; warned = "" }

disable : WorkflowLoopMonitor → WorkflowLoopMonitor
unfolding reset_sequence
disable m = reset_sequence (record m { disabled = true })

-- The last `n` of a list that has as many.
last_n : ℕ → List ToolAttempt → List ToolAttempt
last_n n xs = drop (length xs - n) xs

pub signature_at : List ToolAttempt → ℕ → String
signature_at base i = elim (get_elem? base i) [ none ↦ "" | some a ↦ a.signature ]

-- Every attempt from the i-th on has the signature of the one at its place in the first round.
repeats : ℕ → List ToolAttempt → ℕ → List ToolAttempt → Bool
repeats size base i [] = true
repeats size base i (a ∷ rest) =
    str_eq a.signature (signature_at base (i % size)) && repeats size base (i + 1) rest

all_eligible : List ToolAttempt → Bool
all_eligible [] = true
all_eligible (a ∷ rest) = a.eligible && all_eligible rest

is_less : Ordering → Bool
is_less Ordering.lt = true
is_less Ordering.eq = false
is_less Ordering.gt = false

smaller : String → String → String
unfolding is_less
smaller key warning = if is_less (compare key warning) then key else warning

-- The least fingerprint of a cycle and its rotations by `offset`, `offset + 1`, …, `k` of them.
least_rotation : Fingerprint → List String → ℕ → ℕ → String → String
unfolding smaller
least_rotation f keys zero offset warning = warning
least_rotation f keys (suc k) offset warning =
    least_rotation f keys k (offset + 1)
      (smaller (f.of_cycle (drop offset keys ++ take offset keys)) warning)

cycle_warning : Fingerprint → List String → String
unfolding least_rotation
cycle_warning f keys = least_rotation f keys (length keys - 1) 1 (f.of_cycle keys)

digit : ℕ → String
digit n = if n == 2 then "2" else if n == 3 then "3" else "4"

cycle_reason : ℕ → String
unfolding digit
cycle_reason size =
    if ltb 1 size
    then append_text (append_text "a cycle of " (digit size))
        " sequential completed failures repeated three times"
    else "three sequential completed attempts returned the same failure"

decide : ℕ → Bool → LoopDecision
unfolding cycle_reason
decide size true = record {
  recover = true;
  reason =
      append_text (cycle_reason size)
        "; structured protocol errors identify a non-transient failure";
}
decide size false = record {
  recover = false;
  reason = append_text (cycle_reason size) "; retry intent is uncertain, so work continues";
}

-- A cycle that was found: once for each set of rotations.
found :
    Fingerprint → ℕ → List ToolAttempt → WorkflowLoopMonitor → WorkflowLoopMonitor × LoopDecision
found f size tail m =
    let warning = cycle_warning f (map (λ a. a.signature) (take size tail)) in
    if str_eq m.warned warning
    then (m, no_decision)
    else (record m { warned = warning }, decide size (all_eligible tail))

is_cycle : ℕ → List ToolAttempt → Bool
is_cycle size attempts =
    leb (size * 3) (length attempts)
    && repeats size (last_n (size * 3) attempts) 0 (last_n (size * 3) attempts)

-- The sizes `size`, `size + 1`, …, `k` of them.
look : Fingerprint → ℕ → ℕ → WorkflowLoopMonitor → WorkflowLoopMonitor × LoopDecision
look f zero size m = (m, no_decision)
look f (suc k) size m =
    let rest = look f k (size + 1) m in
    if is_cycle size m.attempts then found f size (last_n (size * 3) m.attempts) m else rest

-- The twelve most recent attempts.
recent : List ToolAttempt → List ToolAttempt
recent attempts = if ltb 12 (length attempts) then last_n 12 attempts else attempts

add_attempt : ToolAttempt → WorkflowLoopMonitor → WorkflowLoopMonitor
unfolding recent
add_attempt a m = record m { attempts = recent (m.attempts ++ a ∷ []) }

mark_overlapped : ToolExecution → ToolExecution
mark_overlapped e = if e.done then e else record e { overlapped = true }

begin : ToolObservation → WorkflowLoopMonitor → WorkflowLoopMonitor
begin v m = record m {
  executions =
      insert v.invocation_id
        (record { start = v; finish = none; done = false; overlapped = ltb 0 m.in_flight })
        m.executions;
  in_flight = m.in_flight + 1;
}

overlap : WorkflowLoopMonitor → WorkflowLoopMonitor
unfolding reset_sequence
overlap m =
    if ltb 0 m.in_flight
    then record (reset_sequence m) { executions = map_values mark_overlapped m.executions }
    else m

limit_reason : String
limit_reason =
    "tool tracking limit reached; loop detection is advisory for this turn and work continues"

observe_start :
    Option ToolExecution
    → ToolObservation
    → WorkflowLoopMonitor
    → WorkflowLoopMonitor × LoopDecision
observe_start (some existing) v m =
    (if same_observation existing.start v then m else disable m, no_decision)
observe_start none v m =
    if leb max_tracked_tool_executions (length m.executions)
    then (disable m, record { recover = false; reason = limit_reason })
    else (begin v (overlap m), no_decision)

complete_execution : ToolExecution → ToolObservation → WorkflowLoopMonitor → WorkflowLoopMonitor
complete_execution existing v m = record m {
  executions =
      insert v.invocation_id (record existing { finish = some v; done = true }) m.executions;
  in_flight = m.in_flight - 1;
}

-- A failure that ran by itself, with a result to compare.
counts : ToolExecution → ToolObservation → WorkflowLoopMonitor → Bool
counts existing v m =
    str_eq existing.start.operation v.operation
    && not existing.overlapped
    && m.in_flight == 0
    && str_eq v.outcome tool_failed
    && not (is_empty v.result)

after_completion :
    Fingerprint
    → ToolExecution
    → ToolObservation
    → WorkflowLoopMonitor
    → WorkflowLoopMonitor × LoopDecision
after_completion f existing v m =
    if counts existing v m
    then look f 4 1 (
        add_attempt
          (record {
            signature = f.of_failure v.operation v.outcome v.result;
            eligible = v.non_transient;
          })
          m)
    else (reset_sequence m, no_decision)

conflicts : Option ToolObservation → ToolObservation → Bool
conflicts none v = true
conflicts (some end) v = not (same_observation end v)

observe_end :
    Fingerprint
    → Option ToolExecution
    → ToolObservation
    → WorkflowLoopMonitor
    → WorkflowLoopMonitor × LoopDecision
observe_end f none v m = (disable m, no_decision)
observe_end f (some existing) v m =
    if not (str_eq v.phase tool_completed)
    then (disable m, no_decision)
    else if existing.done
    then (if conflicts existing.finish v then disable m else m, no_decision)
    else after_completion f existing v (complete_execution existing v m)

observe_complete :
    Fingerprint → ToolObservation → WorkflowLoopMonitor → WorkflowLoopMonitor × LoopDecision
unfolding observe_start observe_end
observe_complete f v m =
    if str_eq v.phase tool_started
    then observe_start (lookup v.invocation_id m.executions) v m
    else observe_end f (lookup v.invocation_id m.executions) v m

pub observe :
    Fingerprint → Option ToolObservation → WorkflowLoopMonitor → WorkflowLoopMonitor × LoopDecision
observe f none m = (disable m, no_decision)
observe f (some v) m =
    if m.disabled
    then (m, no_decision)
    else if is_empty v.invocation_id || is_empty v.operation || not v.complete
    then (disable m, no_decision)
    else observe_complete f v m
