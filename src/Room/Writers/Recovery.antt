-- ===== src/Room/Writers/Recovery.antt =====
-- internal/room/workspace_journal.go: a checkout that is held for recovery.
use mohuddle.Base.{
  ℕ, ◌≡◌, ap, subst, ◌∙◌, inl, inr, true, false, String, List, [], ◌∷◌, Option, none, some, str_eq,
  lookup, insert, delete, string_eq, arith, Bool-cases, lookup-insert_other, lookup-delete,
  lookup-delete_other, eq_iff, All,
}
use mohuddle.Room.Writers.{
  SharedCapacity, WorkspaceWriter, can_write, register_writer, enter_writer, try_writer,
  release_writer, retain_writer_turn, finish_writer_turn, free_writer,
}
use mohuddle.Room.Writers.Runs.{
  Action, registers, enters, tries, releases, retains, finishes, confirms, step, run, Keeps,
  register-Keeps, enter-Keeps,
}
use mohuddle.Room.Writers.Effects.{try-Tries, free-Keeps, confirm_same, confirm_other}

-- No host confirms this checkout.
abbrev pub IsUnconfirmed : String → Action → Type 0
IsUnconfirmed ws (registers k room name workflow p) = Unit
IsUnconfirmed ws (enters w k) = Unit
IsUnconfirmed ws (tries now saved ended w k) = Unit
IsUnconfirmed ws (releases now saved w k) = Unit
IsUnconfirmed ws (retains k) = Unit
IsUnconfirmed ws (finishes now saved w k) = Unit
IsUnconfirmed ws (confirms now saved w) = str_eq w ws ≡ false

module _ (ws : String) (r : WorkspaceWriter) where
  -- The checkout is held for recovery and nobody writes it.
  abbrev pub IsHeld : SharedCapacity → Type 0
  IsHeld s = (lookup ws s.recovery ≡ some r) × (lookup ws s.writers ≡ none)

  held_blocks :
      (w k : String) (s : SharedCapacity) → IsHeld s → can_write w k s ≡ true → str_eq w ws ≡ false
  unfolding can_write
  held_blocks w k s h free = elim (Bool-cases (str_eq w ws)) [
    | inr e ↦ e
    | inl e ↦ absurd (ground (arith, free, h.0, (eq_iff w ws).0 e))
  ]

  insert-IsHeld :
      (w k : String) (m : List (String × String))
      → str_eq w ws ≡ false
      → lookup ws m ≡ none
      → lookup ws (insert w k m) ≡ none
  insert-IsHeld w k m other h = lookup-insert_other ws w k m other ∙ h

  delete-IsHeld :
      (w : String) (m : List (String × String)) → lookup ws m ≡ none → lookup ws (delete w m) ≡ none
  delete-IsHeld w m h = elim (Bool-cases (str_eq w ws)) [
    | inr other ↦ lookup-delete_other ws w m other ∙ h
    | inl same ↦
        subst (λ i. lookup i (delete w m) ≡ none) ((eq_iff w ws).0 same) (lookup-delete w m)
  ]

  Keeps-IsHeld : (s k : SharedCapacity) → Keeps s k → IsHeld s → IsHeld k
  Keeps-IsHeld s k (a, b, c) h = (ap (lookup ws) c ∙ h.0, ap (lookup ws) a ∙ h.1)

  try-IsHeld :
      (now : ℕ) (saved ended : Option String) (w k : String) (s : SharedCapacity)
      → IsHeld s
      → IsHeld (try_writer now saved ended w k s).0
  try-IsHeld now saved ended w k s h =
      let (turns, holds, owners) = try-Tries now saved ended w k s in
      (
        ap (lookup ws) holds ∙ h.0,
        elim owners [
          | inl same ↦ ap (lookup ws) same ∙ h.1
          | inr (free, inl takes) ↦
              ap (lookup ws) takes ∙ insert-IsHeld w k s.writers (held_blocks w k s h free) h.1
          | inr (free, inr (bad, drops)) ↦
              ap (lookup ws) drops
              ∙ delete-IsHeld w (insert w k s.writers)
                  (insert-IsHeld w k s.writers (held_blocks w k s h free) h.1)
        ],
      )

  free-IsHeld :
      (now : ℕ) (saved : Option String) (w k : String) (s : SharedCapacity)
      → IsHeld s
      → IsHeld (free_writer now saved w k s)
  free-IsHeld now saved w k s h =
      Keeps-IsHeld (record s { writers = delete w s.writers }) (free_writer now saved w k s)
        (free-Keeps now saved w k s) (h.0, delete-IsHeld w s.writers h.1)

  release-IsHeld :
      (now : ℕ) (saved : Option String) (w k : String) (s : SharedCapacity)
      → IsHeld s
      → IsHeld (release_writer now saved w k s)
  unfolding release_writer
  release-IsHeld now saved w k s h = ground (arith, h, free-IsHeld now saved w k s h)

  finish-IsHeld :
      (now : ℕ) (saved : Option String) (w k : String) (s : SharedCapacity)
      → IsHeld s
      → IsHeld (finish_writer_turn now saved w k s)
  unfolding finish_writer_turn
  finish-IsHeld now saved w k s h =
      ground (
        arith,
        h,
        free-IsHeld now saved w k (record s { writer_turns = delete k s.writer_turns }) h,
      )

  step-IsHeld :
      (a : Action) (s : SharedCapacity) → IsUnconfirmed ws a → IsHeld s → IsHeld (step a s)
  unfolding retain_writer_turn
  step-IsHeld (registers k room name workflow p) s u h =
      Keeps-IsHeld s (register_writer k room name workflow p s)
        (register-Keeps k room name workflow p s) h
  step-IsHeld (enters w k) s u h = Keeps-IsHeld s (enter_writer w k s).0 (enter-Keeps w k s) h
  step-IsHeld (tries now saved ended w k) s u h = try-IsHeld now saved ended w k s h
  step-IsHeld (releases now saved w k) s u h = release-IsHeld now saved w k s h
  step-IsHeld (retains k) s u h = h
  step-IsHeld (finishes now saved w k) s u h = finish-IsHeld now saved w k s h
  step-IsHeld (confirms now saved w) s u h =
      (confirm_other now saved w ws s u ∙ h.0, ap (lookup ws) (confirm_same now saved w s).0 ∙ h.1)

  pub run-IsHeld :
      (acts : List Action) (s : SharedCapacity)
      → All (IsUnconfirmed ws) acts
      → IsHeld s
      → IsHeld (run acts s)
  run-IsHeld [] s u h = h
  run-IsHeld (a ∷ acts) s u h = run-IsHeld acts (step a s) u.1 (step-IsHeld a s u.0 h)
