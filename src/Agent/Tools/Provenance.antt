-- ===== src/Agent/Tools/Provenance.antt =====
-- internal/agent/tool_tracker.go: the starts that a tracker keeps and what completions read of them.
use mohuddle.Base.{
  lookup-insert, ◌+◌, ◌≤◌, ◌<◌, ◌≡◌, inl, inr, String, List, [], ◌∷◌, Option, none, some, arith,
  Bool-cases, Option-cases, length, lookup, insert, string_eq, str_eq,
}
use mohuddle.Agent.Tools.{
  ToolObservation, ToolTracker, ToolCall, start, start_with, started, finish, first_start,
  result_of, max_starts,
}

length-insert :
    {V : Type 0} (k : String) (v : V) (m : List (String × V)) → length (insert k v m) ≤ length m + 1
unfolding insert
length-insert k v [] = omega arith
length-insert k v ((j, w) ∷ m) = ground (arith, length-insert k v m)

lookup-insert_keeps :
    {V : Type 0} (i k : String) (v : V) (m : List (String × V))
    → lookup k m ≡ none
    → (x : V) → lookup i m ≡ some x
    → lookup i (insert k v m) ≡ some x
unfolding lookup insert
lookup-insert_keeps i k v [] h x q = cc
lookup-insert_keeps i k v ((j, w) ∷ m) h x q = elim (Bool-cases (str_eq j k)) [
  | inl hit ↦ absurd (ground (arith, h, hit))
  | inr miss ↦ rw miss (elim (Bool-cases (str_eq j i)) [
    | inl here ↦ ground (arith, q, here)
    | inr later ↦
        rw later
          (lookup-insert_keeps i k v m (ground (arith, h, miss)) x (ground (arith, q, later)))
  ])
]

-- The calls that a turn starts, in order.
abbrev pub start_all : List ToolCall → ToolTracker → ToolTracker
start_all [] t = t
start_all (c ∷ rest) t = start_all rest (start c t).0

start_keeps :
    (c : ToolCall) (id : String) (t : ToolTracker) (first : ToolObservation)
    → lookup id t.starts ≡ some first
    → lookup id (start c t).0.starts ≡ some first
unfolding start start_with
start_keeps c id t first h = elim (Option-cases (lookup c.id t.starts)) [
  | inr (old, known) ↦ rw known h
  | inl new ↦ rw new (ground (arith, lookup-insert_keeps id c.id (started c) t.starts new first h))
]

start_all_keeps :
    (cs : List ToolCall) (id : String) (t : ToolTracker) (first : ToolObservation)
    → lookup id t.starts ≡ some first
    → lookup id (start_all cs t).starts ≡ some first
start_all_keeps [] id t first h = h
start_all_keeps (c ∷ cs) id t first h =
    start_all_keeps cs id (start c t).0 first (start_keeps c id t first h)

start_stores :
    (c : ToolCall) (t : ToolTracker)
    → lookup c.id t.starts ≡ none
    → length t.starts < max_starts
    → lookup c.id (start c t).0.starts ≡ some (started c)
unfolding start start_with
start_stores c t h room = rw h (ground (arith, lookup-insert c.id (started c) t.starts))

-- A completion reports the operation and the completeness of the first start of its id, whatever starts
-- in between, where the tracker had room for that start.
pub finish-first :
    (c : ToolCall) (cs : List ToolCall) (outcome : String) (result : Option String)
    (t : ToolTracker)
    → lookup c.id t.starts ≡ none
    → length t.starts < max_starts
    → ((finish c.id outcome result (start_all cs (start c t).0)).operation ≡ (started c).operation)
      × ((finish c.id outcome result (start_all cs (start c t).0)).complete ≡ (started c).complete)
unfolding finish first_start result_of
finish-first c cs outcome result t h room = (ground (arith, kept), ground (arith, kept))
  where
    kept : lookup c.id (start_all cs (start c t).0).starts ≡ some (started c)
    kept = start_all_keeps cs c.id (start c t).0 (started c) (start_stores c t h room)

start-bound :
    (c : ToolCall) (t : ToolTracker)
    → length t.starts ≤ max_starts
    → length (start c t).0.starts ≤ max_starts
unfolding start start_with
start-bound c t h = elim (Option-cases (lookup c.id t.starts)) [
  | inr (old, known) ↦ rw known h
  | inl new ↦ rw new (ground (arith, length-insert c.id (started c) t.starts))
]

-- A tracker with at most 256 calls never holds more than 256, whatever starts.
pub start_all-bound :
    (cs : List ToolCall) (t : ToolTracker)
    → length t.starts ≤ max_starts
    → length (start_all cs t).starts ≤ max_starts
start_all-bound [] t h = h
start_all-bound (c ∷ cs) t h = start_all-bound cs (start c t).0 (start-bound c t h)
