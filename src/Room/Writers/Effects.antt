-- ===== src/Room/Writers/Effects.antt =====
-- internal/room/shared.go: what the rounds of acquireWriter and the end of a workflow do to the owners.
use mohuddle.Base.{
  ℕ, ◌≡◌, ◌≢◌, ◌⊎◌, refl, sym, ap, subst, ◌∙◌, inl, inr, true, false, String, List, Option, none,
  some, str_eq, lookup, insert, delete, string_eq, arith, Bool-cases, Option-cases,
  lookup-insert_other, lookup-delete_other,
}
use mohuddle.Room.Writers.{
  SharedCapacity, can_write, persist, try_writer, wake, bump, writer_released, take_writer,
  keep_writer, free_writer,
}
use mohuddle.Room.Writers.Journal.{
  confirm_workspace_stopped, confirm_result, clear_recovery, hold_owner,
}
use mohuddle.Room.Writers.Runs.{
  Keeps, Keeps-trans, persist-Keeps, acquired-Keeps, released-Keeps, remove-Keeps,
}

take_eq :
    (now : ℕ) (ws key : String) (s : SharedCapacity)
    → Keeps (record s { writers = insert ws key s.writers }) (take_writer now ws key s)
unfolding take_writer
take_eq now ws key s = acquired-Keeps now ws key (record s { writers = insert ws key s.writers })

-- The owners after a round that takes the checkout.
abbrev taken : Option String → String → String → SharedCapacity → List (String × String)
taken none ws key s = insert ws key s.writers
taken (some e) ws key s = delete ws (insert ws key s.writers)

-- What a round of acquireWriter does to the owners.
abbrev pub Tries : Option String → String → String → SharedCapacity → SharedCapacity → Type 0
Tries saved ws key s k =
    (k.writer_turns ≡ s.writer_turns)
    × (k.recovery ≡ s.recovery)
    × ((k.writers ≡ s.writers)
        ⊎ ((can_write ws key s ≡ true)
            × ((k.writers ≡ insert ws key s.writers)
                ⊎ ((saved ≢ none) × (k.writers ≡ delete ws (insert ws key s.writers))))))

keep_Tries :
    (saved : Option String) (ws key : String) (s k : SharedCapacity) (r : Option String)
    → can_write ws key s ≡ true
    → Keeps (record s { writers = insert ws key s.writers }) k
    → (r ≡ none) ⊎ (saved ≢ none)
    → Tries saved ws key s (keep_writer ws key (k, r)).0
unfolding keep_writer wake
keep_Tries saved ws key s k none c h w =
    let (a, b, d) = remove-Keeps ws key k in (b ∙ h.1, d ∙ h.2, inr (c, inl (a ∙ h.0)))
keep_Tries saved ws key s k (some e) c h w =
    let (a, b, d) = remove-Keeps ws key (record k { writers = delete ws k.writers }) in
    (
      b ∙ h.1,
      d ∙ h.2,
      inr (
        c,
        inr (elim w [ inl n ↦ absurd (ground (arith, n)) | inr n ↦ n ], a ∙ ap (delete ws) h.0),
      ),
    )

persisted :
    (saved : Option String) (s : SharedCapacity) → ((persist saved s).1 ≡ none) ⊎ (saved ≢ none)
unfolding persist
persisted none s = inl (ground arith)
persisted (some e) s = inr (λ q. cc)

try_free :
    (now : ℕ) (saved : Option String) (ws key : String) (s : SharedCapacity)
    → can_write ws key s ≡ true
    → try_writer now saved none ws key s
      ≡ keep_writer ws key (persist saved (take_writer now ws key s))
unfolding try_writer
try_free now saved ws key s h = simp h refl

pub try-Tries :
    (now : ℕ) (saved ended : Option String) (ws key : String) (s : SharedCapacity)
    → Tries saved ws key s (try_writer now saved ended ws key s).0
unfolding try_writer wake
try-Tries now saved (some e) ws key s = let (a, b, d) = remove-Keeps ws key s in (b, d, inl a)
try-Tries now saved none ws key s = elim (Bool-cases (can_write ws key s)) [
  | inr waits ↦ rw waits (refl, refl, inl refl)
  | inl free ↦
      subst (λ p. Tries saved ws key s p.0) (sym (try_free now saved ws key s free))
        (keep_Tries saved ws key s (persist saved took).0 (persist saved took).1 free
          (Keeps-trans (record s { writers = insert ws key s.writers }) took (persist saved took).0
            (take_eq now ws key s) (persist-Keeps saved took))
          (persisted saved took))
]
  where
    took : SharedCapacity
    took = take_writer now ws key s

pub free-Keeps :
    (now : ℕ) (saved : Option String) (ws key : String) (s : SharedCapacity)
    → Keeps (record s { writers = delete ws s.writers }) (free_writer now saved ws key s)
unfolding free_writer wake
free-Keeps now saved ws key s =
    let k = writer_released now ws key s in
    let freed = record k {
      writers = delete ws k.writers;
      writer_closing = delete key k.writer_closing;
    } in
    let (a, b, c) = released-Keeps now ws key s in
    let (d, e, f) = persist-Keeps saved freed in (d ∙ ap (delete ws) a, e ∙ b, f ∙ c)

pub confirm_same :
    (now : ℕ) (saved : Option String) (ws : String) (s : SharedCapacity)
    → ((confirm_workspace_stopped now saved ws s).0.writers ≡ s.writers)
      × ((confirm_workspace_stopped now saved ws s).0.writer_turns ≡ s.writer_turns)
unfolding confirm_workspace_stopped confirm_result clear_recovery persist wake bump
confirm_same now saved ws s = ground arith

pub confirm_other :
    (now : ℕ) (saved : Option String) (w ws : String) (s : SharedCapacity)
    → str_eq w ws ≡ false
    → lookup ws (confirm_workspace_stopped now saved w s).0.recovery ≡ lookup ws s.recovery
unfolding confirm_workspace_stopped confirm_result clear_recovery persist wake bump hold_owner
confirm_other now saved w ws s h = elim (Option-cases (lookup w s.recovery)) [
  | inl none_held ↦ ground (arith, none_held)
  | inr (r, held) ↦ ground (
    arith,
    held,
    lookup-delete_other ws w s.recovery h,
    lookup-insert_other ws w r (delete w s.recovery) h,
  )
]
