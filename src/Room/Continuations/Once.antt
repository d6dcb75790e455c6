-- ===== src/Room/Continuations/Once.antt =====
-- internal/room/continuation.go, chatgpt.go: a review is dispatched once.
use mohuddle.Base.{
  ℕ, ◌≤◌, ◌≡◌, refl, subst, inl, inr, Bool, true, false, String, List, [], ◌∷◌, ◌++◌, Option, none,
  some, ok, err, arith, total, total-append, Bool-cases, if◌then◌else◌, str_eq, eq_iff,
}
use mohuddle.Room.Continuations.{
  Message, Orchestrator, Run, Continuation, routed, find_routed, Dispatch, continuation,
}
use mohuddle.Room.Continuations.Advance.{
  decide, decide_in, decide_found, apply, Verdict, leaves, notes, ends, requests, reconcile,
  of_queued, write, finish, cancel_continuations,
}
use mohuddle.Room.Continuations.Publish.{
  settle_published, Answers, Answer, publish, publish_admitted, publish_new, create, message_of,
  accepted, admitted,
}
use mohuddle.Room.Continuations.Steps.{
  Step, decides, publishes, settles, finishes, cancels, replies, works, grants, turns, shuts, step,
  run_steps,
}

-- How many messages have a route of that name.
abbrev pub one : String → Message → ℕ
one id m = if routed id m then 1 else 0

abbrev pub routes : String → List Message → ℕ
routes id ms = total (one id) ms

bit_le : (b : Bool) → (if b then 1 else 0) ≤ 1
bit_le true = omega arith
bit_le false = omega arith

abbrev pub IsOnce : Orchestrator → Type 0
IsOnce o = (id : String) → routes id o.messages ≤ 1

find_routed-none : (id : String) (ms : List Message) → find_routed id ms ≡ none → routes id ms ≡ 0
find_routed-none id [] h = refl
find_routed-none id (m ∷ ms) h = elim (Bool-cases (routed id m)) [
  | inl e ↦ cc (rw e at h)
  | inr e ↦ rw e (omega (arith, find_routed-none id ms (rw e at h)))
]

-- A message under a name that no message has.
append-once :
    (ms : List Message) (m : Message) (name : String)
    → m.route_id ≡ some name
    → find_routed name ms ≡ none
    → ((id : String) → routes id ms ≤ 1)
    → (id : String) → routes id (ms ++ m ∷ []) ≤ 1
append-once ms m name e free h id = elim (Bool-cases (str_eq name id)) [
  | inl s ↦
      let fresh : routes id ms ≡ 0 =
        subst (λ i. routes i ms ≡ 0) ((eq_iff name id).0 s) (find_routed-none name ms free) in
      omega (arith, total-append (one id) ms (m ∷ []), fresh, bit_le (routed id m))
  | inr s ↦
      let other : one id m ≡ 0 = rw (e, s) refl in
      omega (arith, total-append (one id) ms (m ∷ []), h id, other)
]

module _ (print : ℕ → String) where
  write-messages :
      (f : Continuation → Continuation) (parent : String) (o : Orchestrator)
      → (write f parent o).messages ≡ o.messages
  unfolding write
  write-messages f parent o = refl

  decide-messages :
      (now : ℕ) (parent : String) (o : Orchestrator)
      → (decide print now parent o).0.messages ≡ o.messages
  unfolding decide write
  decide-messages now parent o = in_run o.run (continuation o.run parent)
    where
      applied : (v : Verdict) → (apply parent o v).0.messages ≡ o.messages
      applied leaves = refl
      applied (notes reason) = refl
      applied (ends state reason) = refl
      applied (requests d) = refl

      at_found :
          (r : Run) (c : Continuation) (d : Option Continuation)
          → (decide_found print now parent o r c d).0.messages ≡ o.messages
      at_found r c (some d) = refl
      at_found r c none = applied (of_queued print now o r c)

      in_run :
          (r : Option Run) (c : Option Continuation)
          → (decide_in print now parent o r c).0.messages ≡ o.messages
      in_run none none = refl
      in_run none (some c) = refl
      in_run (some r) none = refl
      in_run (some r) (some c) = elim (Bool-cases o.closed) [
        | inl e ↦ simp e refl
        | inr e ↦ simp e (at_found r c (reconcile o c))
      ]

  publish-IsOnce :
      (now : ℕ) (a : Answers) (d : Dispatch) (o : Orchestrator)
      → IsOnce o
      → IsOnce (publish now a d o).0
  unfolding publish
  publish-IsOnce now a d o h = at_admitted (admitted now a d o)
    where
      created :
          (r : Answer (String × List String))
          → find_routed d.route_id o.messages ≡ none
          → IsOnce (create now a d o r).0
      created (err e) free = h
      created (ok (id, jobs)) free =
          append-once o.messages (message_of now a d o.next_sequence) d.route_id refl free h

      at_new :
          (m : Option Message)
          → find_routed d.route_id o.messages ≡ m
          → IsOnce (publish_new now a d o m).0
      at_new (some m) e = h
      at_new none e = created (accepted now a d o) e

      at_admitted : (r : Answer Unit) → IsOnce (publish_admitted now a d o r).0
      at_admitted (err e) = h
      at_admitted (ok u) = at_new (find_routed d.route_id o.messages) refl

  step-IsOnce : (s : Step) (o : Orchestrator) → IsOnce o → IsOnce (step print s o)
  unfolding finish write cancel_continuations settle_published
  step-IsOnce (decides now parent) o h = λ id. rw (decide-messages now parent o) (h id)
  step-IsOnce (publishes now a d) o h = publish-IsOnce now a d o h
  step-IsOnce (settles true p) o h = h
  step-IsOnce (settles false p) o h = h
  step-IsOnce (finishes parent none) o h = h
  step-IsOnce (finishes parent (some n)) o h = h
  step-IsOnce (cancels reason) o h = h
  step-IsOnce (replies jobs) o h = h
  step-IsOnce (works w) o h = h
  step-IsOnce (grants a) o h = h
  step-IsOnce (turns st) o h = h
  step-IsOnce shuts o h = h

  -- Whatever the scheduler decides, is answered or called off, and whatever else happens between, no
  -- name of a contribution is ever on two messages: a review is dispatched at most once. The condition
  -- is that it is so at the start.
  pub run_steps-IsOnce :
      (steps : List Step) (o : Orchestrator) → IsOnce o → IsOnce (run_steps print steps o)
  run_steps-IsOnce [] o h = h
  run_steps-IsOnce (s ∷ steps) o h = run_steps-IsOnce steps (step print s o) (step-IsOnce s o h)
