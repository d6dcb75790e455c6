-- ===== src/Room/ToolLoop/Tests.antt =====
-- A monitored turn in which one call fails the same way three times.
use mohuddle.Base.{◌≡◌, refl, true, false, String, [], ◌∷◌, Option, none, some, lookup, insert}
use mohuddle.Agent.Tools.{ToolObservation, tool_completed, tool_started, tool_failed, tool_unknown}
use mohuddle.Room.ToolLoop.{
  WorkflowLoopMonitor, Fingerprint, observe, new_monitor, observe_complete, begin, overlap,
  after_completion, counts, complete_execution, look, is_cycle, add_attempt, repeats, last_n,
  signature_at, found, cycle_warning, decide, all_eligible, observe_end, observe_start, recent,
  reset_sequence, least_rotation, smaller, disable,
}
use mohuddle.Room.ToolLoop.Cycles.{IsStuck, observe-recover}
use mohuddle.Room.ToolLoop.Counting.{watch}

abbrev prints : Fingerprint
prints = record { of_failure = λ operation outcome result. result; of_cycle = λ keys. "cycle" }

abbrev starts : String → Option ToolObservation
starts id = some (record {
  invocation_id = id;
  operation = "read";
  phase = tool_started;
  outcome = tool_unknown;
  result = "";
  complete = true;
  non_transient = false;
})

abbrev fails : String → Option ToolObservation
fails id = some (record {
  invocation_id = id;
  operation = "read";
  phase = tool_completed;
  outcome = tool_failed;
  result = "denied";
  complete = true;
  non_transient = true;
})

abbrev two_failures : WorkflowLoopMonitor
two_failures =
    watch prints (starts "a" ∷ fails "a" ∷ starts "b" ∷ fails "b" ∷ starts "c" ∷ [])
      (new_monitor "w")

failures_recover : (observe prints (fails "c") two_failures).1.recover ≡ true
unfolding observe new_monitor observe_complete lookup begin overlap insert after_completion counts
    complete_execution look is_cycle add_attempt repeats last_n signature_at found cycle_warning
    decide all_eligible observe_end observe_start recent reset_sequence least_rotation smaller
    disable
failures_recover = refl

observe-recover_example : IsStuck (observe prints (fails "c") two_failures).0.attempts
observe-recover_example = observe-recover prints (fails "c") two_failures failures_recover

abbrev unsound : WorkflowLoopMonitor
unsound = watch prints (none ∷ []) (new_monitor "w")
