-- ===== src/Room/Continuations/Final.antt =====
-- internal/room/continuation.go: when a review is dispatched, and when no more.
use Prim.Native.String.{◌++◌ as append_text}
use mathlib.Core.Option.{some_inj}
use mohuddle.Base.{
  ◌&&◌, ◌>>◌, ◌≢◌, ℕ, ◌≡◌, refl, subst, inl, inr, Bool, true, false, not, ◌||◌, String, len, List,
  [], ◌∷◌, Option, none, some, ok, err, map, All, ltb, leb, Bool-cases, if◌then◌else◌, str_eq, ◌==◌,
  is_empty, lookup, string_eq,
}
use mohuddle.Room.Continuations.{
  terminal, is_answered, WorkflowState, workflow_completed, workflow_queued, workflow_active,
  workflow_waiting, workflow_needs_attention, workflow_cancelled, workflow_interrupted,
  Continuation, Handoff, Run, RunState, Access, Message, ConversationJob, Orchestrator, Dispatch,
  continuation, find_continuation, update_found, is_pending, is_stopped, is_queued, pending_replies,
  find_routed,
}
use mohuddle.Room.Continuations.Advance.{
  decide, decide_in, decide_found, apply, Verdict, leaves, notes, ends, requests, reconcile,
  reconciled, account_as, account, unknown_outcome, of_queued, of_access, of_workflow, of_handoff,
  of_result, is_open, is_held, find_handoff, find_message, write, write_run, finish,
  cancel_continuations, call_off, or_called_off, review_task,
}
use mohuddle.Room.Continuations.Publish.{
  settle_published, can_continue, can_publish, connected, require, is_reply_class, none_of,
  bad_class, bad_effort, disconnected, Answer, admitted, accepted, Answers, publish,
  publish_admitted, publish_new, create,
}
use mohuddle.Room.Continuations.Steps.{
  Step, decides, publishes, settles, finishes, cancels, replies, works, grants, turns, shuts, step,
  run_steps,
}

-- A continuation of that workflow waits no more.
abbrev pub IsSettled : String → Continuation → Type 0
IsSettled parent c = str_eq c.parent_workflow parent ≡ true → is_queued c.state ≡ false

abbrev pub AllSettled : String → Option Run → Type 0
AllSettled parent none = Unit
AllSettled parent (some r) = All (IsSettled parent) r.continuations

account_as-IsSettled :
    (of_message ended answer : Bool) (c : Continuation)
    → is_queued c.state ≡ false
    → is_queued (account_as of_message ended answer c).state ≡ false
account_as-IsSettled false ended answer c h = h
account_as-IsSettled true false answer c h = refl
account_as-IsSettled true true true c h = refl
account_as-IsSettled true true false c h = refl

-- What was dispatched is accounted for as started, ended or blocked.
account-IsSettled :
    (m : Message) (c : Continuation) (jobs : List ConversationJob)
    → is_queued c.state ≡ false
    → is_queued (account m c jobs).state ≡ false
account-IsSettled m c [] h = h
account-IsSettled m c (j ∷ js) h =
    account-IsSettled m
      (account_as (j.source_sequence == m.sequence) (terminal j.state) (is_answered j.state) c) js
      (account_as-IsSettled (j.source_sequence == m.sequence) (terminal j.state)
        (is_answered j.state) c h)

reconcile-IsSettled :
    (o : Orchestrator) (c d : Continuation) → reconcile o c ≡ some d → is_queued d.state ≡ false
unfolding reconcile
reconcile-IsSettled o c d = of_message (find_routed c.id o.messages)
  where
    of_message :
        (m : Option Message) → reconciled m o.conversations c ≡ some d → is_queued d.state ≡ false
    of_message none e = cc
    of_message (some m) e =
        subst (λ d. is_queued d.state ≡ false) (some_inj.0 e)
          (account-IsSettled m (unknown_outcome c m) o.conversations refl)

update_found-IsSettled :
    (f : Continuation → Continuation) (parent changed : String) (cs : List Continuation)
    → ((c : Continuation) → IsSettled parent c → IsSettled parent (f c))
    → All (IsSettled parent) cs
    → All (IsSettled parent) (update_found f cs changed)
update_found-IsSettled f parent changed [] keep h = h
update_found-IsSettled f parent changed (c ∷ cs) keep (h, hs) =
    elim (Bool-cases (str_eq c.parent_workflow changed)) [
      | inl e ↦ rw e (keep c h, hs)
      | inr e ↦ rw e (h, update_found-IsSettled f parent changed cs keep hs)
    ]

write-AllSettled :
    (f : Continuation → Continuation) (parent changed : String) (o : Orchestrator)
    → ((c : Continuation) → IsSettled parent c → IsSettled parent (f c))
    → AllSettled parent o.run
    → AllSettled parent (write f changed o).run
unfolding write
write-AllSettled f parent changed o keep = in_run o.run
  where
    in_run :
        (r : Option Run)
        → AllSettled parent r
        → AllSettled parent
            (write_run (λ r. record r { continuations = update_found f r.continuations changed }) r)
    in_run none h = h
    in_run (some r) h = update_found-IsSettled f parent changed r.continuations keep h

find-IsSettled :
    (parent : String) (cs : List Continuation) (c : Continuation)
    → find_continuation cs parent ≡ some c
    → All (IsSettled parent) cs
    → is_queued c.state ≡ false
find-IsSettled parent [] c e h = cc
find-IsSettled parent (x ∷ cs) c e (h, hs) = elim (Bool-cases (str_eq x.parent_workflow parent)) [
  | inl q ↦ subst (λ c. is_queued c.state ≡ false) (some_inj.0 (rw q at e)) (h q)
  | inr q ↦ find-IsSettled parent cs c (rw q at e) hs
]

call_off-IsSettled :
    (o : Orchestrator) (reason : String) (c : Continuation)
    → is_queued (call_off o reason c).state ≡ false
call_off-IsSettled o reason c = waits (is_queued c.state) refl
  where
    found :
        (d : Option Continuation)
        → reconcile o c ≡ d
        → is_queued (or_called_off reason c d).state ≡ false
    found none e = refl
    found (some d) e = reconcile-IsSettled o c d e

    waits :
        (b : Bool)
        → is_queued c.state ≡ b
        → is_queued (if b then or_called_off reason c (reconcile o c) else c).state ≡ false
    waits true e = found (reconcile o c) refl
    waits false e = e

All-IsSettled :
    (parent : String) (o : Orchestrator) (reason : String) (cs : List Continuation)
    → All (IsSettled parent) (map (call_off o reason) cs)
All-IsSettled parent o reason [] = tt
All-IsSettled parent o reason (c ∷ cs) =
    (λ _. call_off-IsSettled o reason c, All-IsSettled parent o reason cs)

cancel_continuations-AllSettled :
    (parent reason : String) (o : Orchestrator)
    → AllSettled parent (cancel_continuations reason o).run
unfolding cancel_continuations
cancel_continuations-AllSettled parent reason o = in_run o.run
  where
    in_run :
        (r : Option Run)
        → AllSettled parent (
            write_run (λ r. record r { continuations = map (call_off o reason) r.continuations }) r)
    in_run none = tt
    in_run (some r) = All-IsSettled parent o reason r.continuations

-- A message of a continuation that waits no more is refused.
module _ (now : ℕ) (a : Answers) (d : Dispatch) (o : Orchestrator)
    (named : is_empty d.parent ≡ false) where
  can_continue-refused :
      (access : Access) (r : Option Run)
      → AllSettled d.parent r
      → can_continue now a o access r (continuation r d.parent) ≡ false
  can_continue-refused access none h = refl
  can_continue-refused access (some r) h =
      at_continuation (find_continuation r.continuations d.parent) refl
    where
      at_continuation :
          (c : Option Continuation)
          → find_continuation r.continuations d.parent ≡ c
          → can_continue now a o access (some r) c ≡ false
      at_continuation none e = refl
      at_continuation (some c) e = rw (find-IsSettled d.parent r.continuations c e h) refl

  can_publish-refused :
      (access : Access) → AllSettled d.parent o.run → can_publish now a o access d.parent ≡ false
  can_publish-refused access h = rw named (can_continue-refused access o.run h)

  connected-refused :
      (access : Option Access)
      → AllSettled d.parent o.run
      → connected now a o d.parent access ≡ false
  connected-refused none h = refl
  connected-refused (some access) h =
      no_one (not o.closed) (can_publish now a o access d.parent) (not access.paused) _
        (can_publish-refused access h)
    where
      no_one : (x y z u : Bool) → y ≡ false → (x && y && z && u) ≡ false
      no_one true true z u e = cc
      no_one true false z u e = refl
      no_one false y z u e = refl

  publish-refused :
      AllSettled d.parent o.run
      → ((publish now a d o).0 ≡ o) × ((r : ℕ × List String) → (publish now a d o).1 ≢ ok r)
  unfolding publish
  publish-refused h =
      at_checks
        (is_empty d.reply_class || not (none_of d.recipients) && is_reply_class d.reply_class)
        a.effort_normal (connected now a o d.parent o.access) (connected-refused o.access h)
    where
      at_checks :
          (x y z : Bool)
          → z ≡ false
          → let r =
              publish_admitted now a d o
                (require x bad_class >> (require y bad_effort >> require z disconnected)) in
            (r.0 ≡ o) × ((n : ℕ × List String) → r.1 ≢ ok n)
      at_checks false y z e = (refl, λ n q. cc)
      at_checks true false z e = (refl, λ n q. cc)
      at_checks true true false e = (refl, λ n q. cc)
      at_checks true true true e = cc

module _ (print : ℕ → String) where
  -- A verdict never puts a continuation back in the queue.
  abbrev Ends : Verdict → Type 0
  Ends (ends state reason) = is_queued state ≡ false
  Ends _ = Unit

  either : (b : Bool) (v w : Verdict) → Ends v → Ends w → Ends (if b then v else w)
  either true v w h k = h
  either false v w h k = k

  module _ (now : ℕ) (o : Orchestrator) (r : Run) (c : Continuation) where
    result-Ends : (h : Handoff) (m : Option Message) → Ends (of_result print now o r c h m)
    result-Ends h none = refl
    result-Ends h (some m) = either (m.sequence == 0) _ _ refl (
        either (leb 4 (pending_replies o.messages o.conversations)) _ _ tt
          (either (ltb 16_000 (len (review_task print c m))) _ _ refl tt))

    handoff-Ends : (h : Option Handoff) → Ends (of_handoff print now o r c h)
    handoff-Ends none = tt
    handoff-Ends (some h) =
        either (not (is_empty h.resolution)) _ _ refl
          (result-Ends h (find_message o.messages h.result_sequence))

    workflow-Ends : (w : Option WorkflowState) → Ends (of_workflow print now o r c w)
    workflow-Ends none = refl
    workflow-Ends (some workflow_completed) =
        handoff-Ends (find_handoff r.handoffs (append_text "work:" c.parent_workflow))
    workflow-Ends (some workflow_queued) = tt
    workflow-Ends (some workflow_active) = tt
    workflow-Ends (some workflow_waiting) = tt
    workflow-Ends (some workflow_needs_attention) = refl
    workflow-Ends (some workflow_cancelled) = refl
    workflow-Ends (some workflow_interrupted) = refl

    access-Ends : (a : Option Access) → Ends (of_access print now o r c a)
    access-Ends none = refl
    access-Ends (some a) = either (is_stopped r.state || not (is_open now a)) _ _ refl (
        either (is_held a || not (is_pending r.state)) _ _ tt
          (workflow-Ends (lookup c.parent_workflow o.workflows)))

    queued-Ends : Ends (of_queued print now o r c)
    queued-Ends = either (is_queued c.state) _ _ (access-Ends o.access) tt

  -- Whatever a step does, a continuation that waits no more is not put back in the queue.
  module _ (parent : String) where
    apply-AllSettled :
        (changed : String) (o : Orchestrator) (v : Verdict)
        → Ends v
        → AllSettled parent o.run
        → AllSettled parent (apply changed o v).0.run
    apply-AllSettled changed o leaves e h = h
    apply-AllSettled changed o (notes reason) e h =
        write-AllSettled (λ c. record c { reason = reason }) parent changed o (λ c k. k) h
    apply-AllSettled changed o (ends state reason) e h =
        write-AllSettled (λ c. record c { state = state; reason = reason }) parent changed o
          (λ c k _. e) h
    apply-AllSettled changed o (requests d) e h = h

    decide-AllSettled :
        (now : ℕ) (changed : String) (o : Orchestrator)
        → AllSettled parent o.run
        → AllSettled parent (decide print now changed o).0.run
    unfolding decide
    decide-AllSettled now changed o h = in_run o.run (continuation o.run changed)
      where
        at_found :
            (r : Run) (c : Continuation) (d : Option Continuation)
            → reconcile o c ≡ d
            → AllSettled parent (decide_found print now changed o r c d).0.run
        at_found r c (some d) e =
            write-AllSettled (λ _. d) parent changed o (λ c' k _. reconcile-IsSettled o c d e) h
        at_found r c none e =
            apply-AllSettled changed o (of_queued print now o r c) (queued-Ends now o r c) h

        at_open :
            (b : Bool) (r : Run) (c : Continuation)
            → AllSettled parent
                (if b
                  then (o, none)
                  else decide_found print now changed o r c (reconcile o c)).0.run
        at_open true r c = h
        at_open false r c = at_found r c (reconcile o c) refl

        in_run :
            (r : Option Run) (c : Option Continuation)
            → AllSettled parent (decide_in print now changed o r c).0.run
        in_run none none = h
        in_run none (some c) = h
        in_run (some r) none = h
        in_run (some r) (some c) = at_open o.closed r c

    publish-run :
        (now : ℕ) (a : Answers) (d : Dispatch) (o : Orchestrator)
        → (publish now a d o).0.run ≡ o.run
    unfolding publish
    publish-run now a d o = at_admitted (admitted now a d o)
      where
        created : (r : Answer (String × List String)) → (create now a d o r).0.run ≡ o.run
        created (err e) = refl
        created (ok (id, jobs)) = refl

        at_new : (m : Option Message) → (publish_new now a d o m).0.run ≡ o.run
        at_new (some m) = refl
        at_new none = created (accepted now a d o)

        at_admitted : (r : Answer Unit) → (publish_admitted now a d o r).0.run ≡ o.run
        at_admitted (err e) = refl
        at_admitted (ok u) = at_new (find_routed d.route_id o.messages)

    turned :
        (state : RunState) (r : Option Run)
        → AllSettled parent r
        → AllSettled parent (write_run (λ r. record r { state = state }) r)
    turned state none h = h
    turned state (some r) h = h

    step-AllSettled :
        (s : Step) (o : Orchestrator)
        → AllSettled parent o.run
        → AllSettled parent (step print s o).run
    unfolding finish settle_published
    step-AllSettled (decides now changed) o h = decide-AllSettled now changed o h
    step-AllSettled (publishes now a d) o h = rw (publish-run now a d o) h
    step-AllSettled (settles true p) o h = h
    step-AllSettled (settles false p) o h = h
    step-AllSettled (finishes changed none) o h =
        write-AllSettled _ parent changed o (λ c k _. refl) h
    step-AllSettled (finishes changed (some n)) o h =
        write-AllSettled _ parent changed o (λ c k _. refl) h
    step-AllSettled (cancels reason) o h = cancel_continuations-AllSettled parent reason o
    step-AllSettled (replies jobs) o h = h
    step-AllSettled (works w) o h = h
    step-AllSettled (grants a) o h = h
    step-AllSettled (turns st) o h = turned st o.run h
    step-AllSettled shuts o h = h

    run_steps-AllSettled :
        (steps : List Step) (o : Orchestrator)
        → AllSettled parent o.run
        → AllSettled parent (run_steps print steps o).run
    run_steps-AllSettled [] o h = h
    run_steps-AllSettled (s ∷ steps) o h =
        run_steps-AllSettled steps (step print s o) (step-AllSettled s o h)

    settled_quiet :
        (now : ℕ) (o : Orchestrator)
        → AllSettled parent o.run
        → (decide print now parent o).1 ≡ none
    unfolding decide
    settled_quiet now o = in_run o.run
      where
        at_found :
            (r : Run) (c : Continuation) (d : Option Continuation)
            → is_queued c.state ≡ false
            → (decide_found print now parent o r c d).1 ≡ none
        at_found r c (some d) e = refl
        at_found r c none e = rw e refl

        at_open :
            (b : Bool) (r : Run) (c : Continuation)
            → is_queued c.state ≡ false
            → (if b then (o, none) else decide_found print now parent o r c (reconcile o c)).1
              ≡ none
        at_open true r c e = refl
        at_open false r c e = at_found r c (reconcile o c) e

        at_continuation :
            (r : Run) (c : Option Continuation)
            → find_continuation r.continuations parent ≡ c
            → All (IsSettled parent) r.continuations
            → (decide_in print now parent o (some r) c).1 ≡ none
        at_continuation r none e h = refl
        at_continuation r (some c) e h =
            at_open o.closed r c (find-IsSettled parent r.continuations c e h)

        in_run :
            (r : Option Run)
            → AllSettled parent r
            → (decide_in print now parent o r (continuation r parent)).1 ≡ none
        in_run none h = refl
        in_run (some r) h = at_continuation r (find_continuation r.continuations parent) refl h

  -- Once a stop has called off what waits, no review of a continuation that there was is dispatched
  -- any more, whatever happens after, also where the access is renewed or the run resumed: the scheduler
  -- decides on none, and a review that it decided on before the stop is refused and changes nothing.
  pub stop-final :
      (d : Dispatch) (reason : String) (o : Orchestrator) (steps : List Step) (now : ℕ)
      (a : Answers)
      → is_empty d.parent ≡ false
      → let after = run_steps print steps (cancel_continuations reason o) in
        ((decide print now d.parent after).1 ≡ none)
        × ((publish now a d after).0 ≡ after)
        × ((r : ℕ × List String) → (publish now a d after).1 ≢ ok r)
  stop-final d reason o steps now a named =
      let after = run_steps print steps (cancel_continuations reason o) in
      let settled =
        run_steps-AllSettled d.parent steps (cancel_continuations reason o)
          (cancel_continuations-AllSettled d.parent reason o) in
      let refused = publish-refused now a d after named settled in
      (settled_quiet d.parent now after settled, refused.0, refused.1)
