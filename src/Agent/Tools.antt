-- ===== src/Agent/Tools.antt =====
-- internal/agent/tool_observation.go and tool_tracker.go: what a provider's tool frames prove.
pub mod Provenance
mod Tests
use mohuddle.Base.{
  bool_eq, ℕ, Bool, true, false, ◌&&◌, ◌||◌, not, String, List, ◌∷◌, Option, none, some, ltb, leb,
  str_eq, is_empty, if◌then◌else◌, length, lookup, insert, string_eq,
}

-- A phase and an outcome are strings.
abbrev pub tool_started : String
tool_started = "started"

abbrev pub tool_completed : String
tool_completed = "completed"

abbrev pub tool_unknown : String
tool_unknown = "unknown"

abbrev pub tool_failed : String
tool_failed = "failed"

pub record ToolObservation : Type 0 where
  pub invocation_id : String
  pub operation : String
  pub phase : String
  pub outcome : String
  pub result : String
  pub complete : Bool
  pub non_transient : Bool

-- Go's `==` of two observations.
unfoldable pub same_observation : ToolObservation → ToolObservation → Bool
same_observation a b =
    str_eq a.invocation_id b.invocation_id
    && str_eq a.operation b.operation
    && str_eq a.phase b.phase
    && str_eq a.outcome b.outcome
    && str_eq a.result b.result
    && bool_eq a.complete b.complete
    && bool_eq a.non_transient b.non_transient

-- The arguments of a call as decoded JSON: a number by the whole part of its magnitude, and an
-- object by its values.
mutual
  pub data ToolValue : Type 0 where
    number : ℕ → ToolValue
    items fields : ToolValues → ToolValue
    other null : ToolValue

  pub data ToolValues : Type 0 where
    none_left : ToolValues
    value : ToolValue → ToolValues → ToolValues

mutual
  pub uncertain_tool_number : ToolValue → Bool
  uncertain_tool_number (number n) = leb 9_007_199_254_740_992 n
  uncertain_tool_number (items vs) = any_uncertain vs
  uncertain_tool_number (fields vs) = any_uncertain vs
  uncertain_tool_number other = false
  uncertain_tool_number null = false

  pub any_uncertain : ToolValues → Bool
  any_uncertain none_left = false
  any_uncertain (value v vs) = uncertain_tool_number v || any_uncertain vs

is_null : ToolValue → Bool
is_null null = true
is_null (number n) = false
is_null (items vs) = false
is_null (fields vs) = false
is_null other = false

-- The first observation of each call id.
pub record ToolTracker : Type 0 where
  pub starts : List (String × ToolObservation)

abbrev pub max_starts : ℕ
max_starts = 256

-- A call before it runs; `encoded` is whether its arguments encode, and `fingerprint` is the
-- ToolFingerprint of the call.
pub record ToolCall : Type 0 where
  pub id : String
  pub name : String
  pub encoded : Bool
  pub arguments : ToolValue
  pub fingerprint : String

operation_of : ToolCall → String
unfolding is_null
operation_of c =
    if not (is_empty c.name)
      && c.encoded
      && not (is_null c.arguments)
      && not (uncertain_tool_number c.arguments)
    then c.fingerprint
    else ""

pub started : ToolCall → ToolObservation
started c = record {
  invocation_id = c.id;
  operation = operation_of c;
  phase = tool_started;
  outcome = tool_unknown;
  result = "";
  complete = not (is_empty c.id) && not (is_empty (operation_of c));
  non_transient = false;
}

-- The first start of an id is kept; past the limit the evidence is incomplete.
start_with : Option ToolObservation → ToolCall → ToolTracker → ToolTracker × ToolObservation
start_with (some first) c t = (t, started c)
start_with none c t =
    if ltb (length t.starts) max_starts
    then (record { starts = insert c.id (started c) t.starts }, started c)
    else (t, record (started c) { complete = false })

pub start : ToolCall → ToolTracker → ToolTracker × ToolObservation
unfolding start_with
start c t = start_with (lookup c.id t.starts) c t

abbrev zero_observation : ToolObservation
zero_observation = record {
  invocation_id = "";
  operation = "";
  phase = "";
  outcome = "";
  result = "";
  complete = false;
  non_transient = false;
}

first_start : Option ToolObservation → ToolObservation
first_start none = zero_observation
first_start (some first) = first

result_of : Option String → ToolObservation → String
result_of none v = v.result
result_of (some r) v = r

-- `result` is the fingerprint of a result that is not nil.
pub finish : String → String → Option String → ToolTracker → ToolObservation
unfolding first_start result_of
finish id outcome result t =
    let v = first_start (lookup id t.starts) in
    record v {
      invocation_id = id;
      phase = tool_completed;
      outcome = outcome;
      result = result_of result v;
    }
