-- ===== src/Room/Writers/Journal/Restart.antt =====
-- internal/room/workspace_journal.go: the journal over a restart.
use mohuddle.Base.{
  if◌then◌else◌, is_empty, ℕ, ◌≡◌, refl, sym, ap, subst, ◌∙◌, inl, inr, String, List, [], ◌∷◌, none,
  some, str_eq, lookup, insert, string_eq, arith, Bool-cases, Option-cases, ◌⊎◌, lookup-insert,
  lookup-insert_other, eq_iff, All,
}
use mohuddle.Room.Writers.{
  SharedCapacity, WorkspaceActivity, WorkspaceWriter, or_zero, writer_of, new_shared_capacity,
}
use mohuddle.Room.Writers.Journal.{
  snapshot, add_snapshots, journal_of, load, load_one, hold_owner, configure_workspace_journal,
  configure_with, JournalJson, ReadsBack,
}
use mohuddle.Room.Writers.Runs.{Action, run}
use mohuddle.Room.Writers.Recovery.{IsUnconfirmed, IsHeld, run-IsHeld}

-- The journal has the checkout's snapshot.
abbrev Saves : String → SharedCapacity → List (String × WorkspaceActivity) → Type 0
Saves ws s saved = lookup ws saved ≡ some (snapshot ws s)

insert-Saves :
    (ws w : String) (s : SharedCapacity) (saved : List (String × WorkspaceActivity))
    → Saves ws s saved
    → Saves ws s (insert w (snapshot w s) saved)
insert-Saves ws w s saved h = elim (Bool-cases (str_eq w ws)) [
  | inr other ↦ lookup-insert_other ws w (snapshot w s) saved other ∙ h
  | inl same ↦
      subst (λ i. lookup ws (insert i (snapshot i s) saved) ≡ some (snapshot ws s))
        (sym ((eq_iff w ws).0 same)) (lookup-insert ws (snapshot ws s) saved)
]

module _ {A : Type 0} (ws : String) (s : SharedCapacity) where
  add-Saves :
      (xs : List (String × A)) (saved : List (String × WorkspaceActivity))
      → Saves ws s saved
      → Saves ws s (add_snapshots xs s saved)
  unfolding add_snapshots
  add-Saves [] saved h = h
  add-Saves ((w, a) ∷ xs) saved h =
      add-Saves xs (insert w (snapshot w s) saved) (insert-Saves ws w s saved h)

  adds-Saves :
      (xs : List (String × A)) (saved : List (String × WorkspaceActivity)) (a : A)
      → lookup ws xs ≡ some a
      → Saves ws s (add_snapshots xs s saved)
  unfolding add_snapshots lookup
  adds-Saves [] saved a h = cc
  adds-Saves ((w, b) ∷ xs) saved a h = elim (Bool-cases (str_eq w ws)) [
    | inr other ↦ adds-Saves xs (insert w (snapshot w s) saved) a (ground (arith, h, other))
    | inl same ↦ add-Saves xs (insert w (snapshot w s) saved) (
        subst (λ i. Saves ws s (insert i (snapshot i s) saved)) (sym ((eq_iff w ws).0 same))
          (lookup-insert ws (snapshot ws s) saved))
  ]

journal-Saves :
    (ws : String) (s : SharedCapacity) (n : ℕ)
    → lookup ws s.revisions ≡ some n
    → Saves ws s (journal_of s)
unfolding journal_of
journal-Saves ws s n h = add-Saves ws s s.recovery _ (adds-Saves ws s s.revisions [] n h)

-- A hold of some owner.
abbrev IsHold : String → SharedCapacity → Type 0
IsHold ws s = (r : WorkspaceWriter) × IsHeld ws r s

one-IsHold :
    (ws w : String) (a : WorkspaceActivity) (s : SharedCapacity)
    → IsHold ws s
    → IsHold ws (load_one w a s)
unfolding load_one hold_owner
one-IsHold ws w a s (r, h) = elim (Option-cases a.owner) [
  | inl none_left ↦ (r, (ground (arith, none_left, h), h.1))
  | inr (q, left) ↦ elim (Bool-cases (str_eq w ws)) [
    | inr other ↦ (r, (ground (arith, left, lookup-insert_other ws w q s.recovery other, h), h.1))
    | inl same ↦
        (q, (ground (arith, left, (eq_iff w ws).0 same, lookup-insert w q s.recovery), h.1))
  ]
]

load_keeps :
    (ws : String) (saved : List (String × WorkspaceActivity)) (s : SharedCapacity)
    → IsHold ws s
    → IsHold ws (load saved s)
unfolding load
load_keeps ws [] s h = h
load_keeps ws ((w, a) ∷ saved) s h = load_keeps ws saved (load_one w a s) (one-IsHold ws w a s h)

load_here :
    (ws : String) (a : WorkspaceActivity) (r : WorkspaceWriter) (s : SharedCapacity)
    → a.owner ≡ some r
    → lookup ws s.writers ≡ none
    → IsHold ws (load_one ws a s)
unfolding load_one hold_owner
load_here ws a r s o w = (r, (ground (arith, o, lookup-insert ws r s.recovery), w))

load_one-writers :
    (w : String) (a : WorkspaceActivity) (s : SharedCapacity) → (load_one w a s).writers ≡ s.writers
unfolding load_one
load_one-writers w a s = refl

first_entry :
    (ws k : String) (b a : WorkspaceActivity) (saved : List (String × WorkspaceActivity))
    → lookup ws ((k, b) ∷ saved) ≡ some a
    → ((k ≡ ws) × (b ≡ a)) ⊎ (lookup ws saved ≡ some a)
unfolding lookup
first_entry ws k b a saved h = elim (Bool-cases (str_eq k ws)) [
  | inr other ↦ inr (ground (arith, h, other))
  | inl same ↦ inl ((eq_iff k ws).0 same, ground (arith, h, same))
]

load-IsHold :
    (ws : String) (saved : List (String × WorkspaceActivity)) (s : SharedCapacity)
    (a : WorkspaceActivity) (r : WorkspaceWriter)
    → lookup ws saved ≡ some a
    → a.owner ≡ some r
    → lookup ws s.writers ≡ none
    → IsHold ws (load saved s)
unfolding load
load-IsHold ws [] s a r h o w = absurd (unfold lookup in cc)
load-IsHold ws ((k, b) ∷ saved) s a r h o w = elim (first_entry ws k b a saved h) [
  | inr later ↦
      load-IsHold ws saved (load_one k b s) a r later o
        (ap (lookup ws) (load_one-writers k b s) ∙ w)
  | inl (same, entry) ↦ load_keeps ws saved (load_one k b s) (
      subst (λ i. IsHold ws (load_one i b s)) (sym same)
        (load_here ws b r s (ap (λ c. c.owner) entry ∙ o) w))
]

-- The state after a restart from the journal that `s` saves.
abbrev pub restarted : JournalJson → SharedCapacity → SharedCapacity
restarted json s =
    (configure_workspace_journal json (json.marshal (journal_of s)) new_shared_capacity).0

restarted-IsHold :
    (json : JournalJson) (ws : String) (s : SharedCapacity) (n : ℕ) (r : WorkspaceWriter)
    → ReadsBack json (journal_of s)
    → lookup ws s.revisions ≡ some n
    → (snapshot ws s).owner ≡ some r
    → IsHold ws (restarted json s)
unfolding configure_workspace_journal configure_with new_shared_capacity lookup
restarted-IsHold json ws s n r (there, (back, read, same)) h o =
    let (q, held) =
      load-IsHold ws back new_shared_capacity (snapshot ws s) r (same ws ∙ journal-Saves ws s n h) o
        refl in
    let content = json.marshal (journal_of s) in
    let shown : (if is_empty content then some [] else json.unmarshal content) ≡ some back =
      rw (there, read) refl in
    subst (λ j. IsHold ws (configure_with j new_shared_capacity).0) (sym shown) (q, held)

-- When the process dies while the journal shows an owner of a checkout, then after the restart nobody
-- has the checkout, whatever all rooms do, until the host confirms that the owner stopped. The
-- condition: the journal is read back with the entries that were written.
pub restart_holds :
    (json : JournalJson) (ws : String) (s : SharedCapacity) (n : ℕ) (r : WorkspaceWriter)
    (acts : List Action)
    → ReadsBack json (journal_of s)
    → lookup ws s.revisions ≡ some n
    → (snapshot ws s).owner ≡ some r
    → All (IsUnconfirmed ws) acts
    → writer_of ws (run acts (restarted json s)) ≡ ""
restart_holds json ws s n r acts law h o u =
    let (q, held) = restarted-IsHold json ws s n r law h o in
    ap (or_zero "") (run-IsHeld ws q acts (restarted json s) u held).1
