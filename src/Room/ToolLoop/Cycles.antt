-- ===== src/Room/ToolLoop/Cycles.antt =====
-- internal/room/tool_loop.go: the cycles of failures.
use mohuddle.Base.{
  ℕ, zero, suc, ◌+◌, ◌-◌, ◌*◌, ◌%◌, ◌≤◌, ◌<◌, ◌≡◌, refl, sym, ap, subst, inl, inr, Bool, true,
  false, List, [], ◌∷◌, ◌++◌, Option, none, some, ◌&&◌, ◌||◌, not, is_empty, arith, Bool-cases,
  length, take, drop, take-append-drop, length-drop, All, eq_iff, ◌∙◌, lookup, str_eq, string_eq,
}
use native.Mathlib.Nat.{add-zero}
use mohuddle.Agent.Tools.{ToolObservation, tool_completed, tool_started}
use mohuddle.Room.ToolLoop.{
  ToolExecution, ToolAttempt, WorkflowLoopMonitor, LoopDecision, Fingerprint, last_n, repeats,
  signature_at, all_eligible, is_cycle, found, look, decide, add_attempt, counts,
  complete_execution, observe, observe_complete, observe_start, observe_end, after_completion,
}

-- The attempts end with three rounds of one cycle of at most four failures, and every one of them is
-- known not to pass.
abbrev pub IsStuck : List ToolAttempt → Type 0
IsStuck attempts =
    (size : ℕ) × (before : List ToolAttempt) × (tail : List ToolAttempt) × (1 ≤ size)
    × (size ≤ 4)
    × (attempts ≡ before ++ tail)
    × (length tail ≡ size * 3)
    × All (λ a. a.eligible ≡ true) tail
    × ((i : ℕ) → i < size * 3 → signature_at tail i ≡ signature_at tail (i % size))

all_eligible_lem :
    (xs : List ToolAttempt) → all_eligible xs ≡ true → All (λ a. a.eligible ≡ true) xs
unfolding all_eligible
all_eligible_lem [] e = tt
all_eligible_lem (a ∷ xs) e = (ground arith, all_eligible_lem xs (ground arith))

repeats_lem :
    (size : ℕ) (base : List ToolAttempt) (i : ℕ) (rest : List ToolAttempt)
    → repeats size base i rest ≡ true
    → (j : ℕ) → j < length rest
    → signature_at rest j ≡ signature_at base ((i + j) % size)
unfolding repeats signature_at
repeats_lem size base i [] e j h = absurd (omega arith)
repeats_lem size base i (a ∷ rest) e zero h =
    rw add-zero (ground (arith, eq_iff a.signature (signature_at base (i % size))))
repeats_lem size base i (a ∷ rest) e (suc j) h =
    repeats_lem size base (i + 1) rest (ground arith) j (omega arith)
    ∙ ap (λ n. signature_at base (n % size)) (omega arith)

found-IsStuck :
    (f : Fingerprint) (size : ℕ) (m : WorkflowLoopMonitor)
    → 1 ≤ size
    → size ≤ 4
    → is_cycle size m.attempts ≡ true
    → (found f size (last_n (size * 3) m.attempts) m).1.recover ≡ true
    → IsStuck m.attempts
unfolding found is_cycle last_n decide
found-IsStuck f size m h k c e = (
  size,
  take (length m.attempts - size * 3) m.attempts,
  tail,
  h,
  k,
  sym (take-append-drop (length m.attempts - size * 3) m.attempts),
  whole,
  all_eligible_lem tail (ground arith),
  λ i lt.
      repeats_lem size tail 0 tail (ground arith) i (omega (arith, whole))
      ∙ ap (λ n. signature_at tail (n % size)) (omega arith),
)
  where
    tail : List ToolAttempt
    tail = drop (length m.attempts - size * 3) m.attempts

    whole : length tail ≡ size * 3
    whole = ground (arith, length-drop (length m.attempts - size * 3) m.attempts)

look-IsStuck :
    (f : Fingerprint) (k size : ℕ) (m : WorkflowLoopMonitor)
    → 1 ≤ size
    → size + k ≤ 5
    → (look f k size m).1.recover ≡ true
    → IsStuck m.attempts
unfolding look
look-IsStuck f zero size m h k e = cc
look-IsStuck f (suc k) size m h n e = elim (Bool-cases (is_cycle size m.attempts)) [
  | inl cycle ↦ found-IsStuck f size m h (omega arith) cycle (ground arith)
  | inr none_here ↦ look-IsStuck f k (size + 1) m (omega arith) (omega arith) (ground arith)
]

look-attempts :
    (f : Fingerprint) (k size : ℕ) (m : WorkflowLoopMonitor)
    → (look f k size m).0.attempts ≡ m.attempts
unfolding look found
look-attempts f zero size m = refl
look-attempts f (suc k) size m = ground (arith, look-attempts f k (size + 1) m)

-- A decision to recover rests on a cycle.
Grounded : WorkflowLoopMonitor × LoopDecision → Type 0
Grounded r = r.1.recover ≡ true → IsStuck r.0.attempts

quiet : (r : WorkflowLoopMonitor × LoopDecision) → r.1.recover ≡ false → Grounded r
unfolding Grounded
quiet r e h = cc

after_completion-Grounded :
    (f : Fingerprint) (existing : ToolExecution) (v : ToolObservation) (m : WorkflowLoopMonitor)
    → Grounded (after_completion f existing v m)
unfolding after_completion Grounded
after_completion-Grounded f existing v m = elim (Bool-cases (counts existing v m)) [
  | inl yes_counts ↦ rw yes_counts (λ e.
      subst IsStuck (sym (look-attempts f 4 1 (add_attempt a m)))
        (look-IsStuck f 4 1 (add_attempt a m) (omega arith) (omega arith) e))
  | inr not_counts ↦ rw not_counts (λ e. cc)
]
  where
    a : ToolAttempt
    a = record {
      signature = f.of_failure v.operation v.outcome v.result;
      eligible = v.non_transient;
    }

observe_end-Grounded :
    (f : Fingerprint) (x : Option ToolExecution) (v : ToolObservation) (m : WorkflowLoopMonitor)
    → Grounded (observe_end f x v m)
unfolding observe_end
observe_end-Grounded f none v m = quiet _ refl
observe_end-Grounded f (some existing) v m =
    elim (Bool-cases (str_eq v.phase tool_completed && not existing.done)) [
      | inl fresh ↦
          subst Grounded (ground arith)
            (after_completion-Grounded f existing v (complete_execution existing v m))
      | inr stale ↦ quiet _ (ground arith)
    ]

observe_start_quiet :
    (x : Option ToolExecution) (v : ToolObservation) (m : WorkflowLoopMonitor)
    → (observe_start x v m).1.recover ≡ false
unfolding observe_start
observe_start_quiet none v m = ground arith
observe_start_quiet (some existing) v m = ground arith

-- The test that an observation ends here, or starts a call.
abbrev ends_early : ToolObservation → WorkflowLoopMonitor → Bool
ends_early v m =
    m.disabled
    || (is_empty v.invocation_id || is_empty v.operation || not v.complete)
    || str_eq v.phase tool_started

observe_early :
    (f : Fingerprint) (v : ToolObservation) (m : WorkflowLoopMonitor)
    → ends_early v m ≡ true
    → (observe f (some v) m).1.recover ≡ false
unfolding observe observe_complete
observe_early f v m h =
    ground (arith, observe_start_quiet (lookup v.invocation_id m.executions) v m)

observe_late :
    (f : Fingerprint) (v : ToolObservation) (m : WorkflowLoopMonitor)
    → ends_early v m ≡ false
    → observe f (some v) m ≡ observe_end f (lookup v.invocation_id m.executions) v m
unfolding observe observe_complete
observe_late f v m h = ground arith

observe_unstable :
    (f : Fingerprint) (m : WorkflowLoopMonitor) → (observe f none m).1.recover ≡ false
unfolding observe
observe_unstable f m = refl

observe-Grounded :
    (f : Fingerprint) (v : Option ToolObservation) (m : WorkflowLoopMonitor)
    → Grounded (observe f v m)
observe-Grounded f none m = quiet (observe f none m) (observe_unstable f m)
observe-Grounded f (some v) m = elim (Bool-cases (ends_early v m)) [
  | inl early ↦ quiet (observe f (some v) m) (observe_early f v m early)
  | inr late ↦
      subst Grounded (sym (observe_late f v m late))
        (observe_end-Grounded f (lookup v.invocation_id m.executions) v m)
]

-- The monitor asks for recovery only where the attempts that it keeps end with three rounds of one
-- cycle of one to four failures, each a structured error that is known not to pass.
pub observe-recover :
    (f : Fingerprint) (v : Option ToolObservation) (m : WorkflowLoopMonitor)
    → (observe f v m).1.recover ≡ true
    → IsStuck (observe f v m).0.attempts
unfolding Grounded
observe-recover f v m e = observe-Grounded f v m e
