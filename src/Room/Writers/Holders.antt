-- ===== src/Room/Writers/Holders.antt =====
-- internal/room/shared.go: a workflow that has the checkout and runs turns in it, under each operation.
use mohuddle.Base.{
  ℕ, ◌+◌, ◌-◌, ◌≤◌, ◌<◌, ◌≡◌, ◌⊎◌, sym, ap, subst, ◌∙◌, inl, inr, true, false, ◌&&◌, String, List,
  Option, none, some, ltb, leb, str_eq, is_empty, if◌then◌else◌, lookup, insert, delete, string_eq,
  arith, Bool-cases, lookup-insert, lookup-insert_other, lookup-delete_other, eq_iff,
}
use mohuddle.Room.Writers.{
  SharedCapacity, or_zero, writer_of, turns_of, is_closing, can_write, try_writer, release_writer,
  retain_writer_turn, finish_writer_turn, free_writer,
}
use mohuddle.Room.Writers.Runs.{Keeps}
use mohuddle.Room.Writers.Effects.{try-Tries, free-Keeps}

module _ (ws key : String) (named : is_empty key ≡ false) where
  -- The key has the checkout, with at least `n` turns.
  abbrev pub Has : ℕ → SharedCapacity → Type 0
  Has n s = (writer_of ws s ≡ key) × (n ≤ turns_of key s)

  pub Keeps-Has : (n : ℕ) (s k : SharedCapacity) → Keeps s k → Has n s → Has n k
  Keeps-Has n s k (a, b, c) h = (
    ap (λ m. or_zero "" (lookup ws m)) a ∙ h.0,
    subst (λ m. n ≤ or_zero 0 (lookup key m)) (sym b) h.1,
  )

  can_write_other :
      (k : String) (s : SharedCapacity)
      → writer_of ws s ≡ key
      → str_eq k key ≡ false
      → can_write ws k s ≡ false
  unfolding can_write
  can_write_other k s h other = ground (arith, h, other, named, eq_iff k key, eq_iff key k)

  -- A round takes another checkout, or the key's own.
  allowed :
      (w k : String) (s : SharedCapacity)
      → writer_of ws s ≡ key
      → can_write w k s ≡ true
      → (str_eq w ws ≡ false) ⊎ (str_eq k key ≡ true)
  allowed w k s h free = elim (Bool-cases (str_eq w ws)) [
    | inr other ↦ inl other
    | inl same ↦ elim (Bool-cases (str_eq k key)) [
      | inl own ↦ inr own
      | inr not_own ↦
          absurd (ground (arith, can_write_other k s h not_own, free, (eq_iff w ws).0 same))
    ]
  ]

  insert-owner :
      (w k : String) (m : List (String × String))
      → or_zero "" (lookup ws m) ≡ key
      → (str_eq w ws ≡ false) ⊎ (str_eq k key ≡ true)
      → or_zero "" (lookup ws (insert w k m)) ≡ key
  insert-owner w k m h ok = elim (Bool-cases (str_eq w ws)) [
    | inr other ↦ ap (or_zero "") (lookup-insert_other ws w k m other) ∙ h
    | inl same ↦ ground (arith, ok, same, eq_iff w ws, eq_iff k key, lookup-insert w k m)
  ]

  delete-owner :
      (w : String) (m : List (String × String))
      → or_zero "" (lookup ws m) ≡ key
      → str_eq w ws ≡ false
      → or_zero "" (lookup ws (delete w m)) ≡ key
  delete-owner w m h other = ap (or_zero "") (lookup-delete_other ws w m other) ∙ h

  pub try-Has :
      (n now : ℕ) (saved ended : Option String) (w k : String) (s : SharedCapacity)
      → (str_eq k key ≡ true → saved ≡ none)
      → Has n s
      → Has n (try_writer now saved ended w k s).0
  try-Has n now saved ended w k s ok h =
      let (turns, holds, owners) = try-Tries now saved ended w k s in
      (
        elim owners [
          | inl same ↦ ap (λ m. or_zero "" (lookup ws m)) same ∙ h.0
          | inr (free, inl takes) ↦
              ap (λ m. or_zero "" (lookup ws m)) takes
              ∙ insert-owner w k s.writers h.0 (allowed w k s h.0 free)
          | inr (free, inr (bad, drops)) ↦
              ap (λ m. or_zero "" (lookup ws m)) drops
              ∙ (let other : str_eq w ws ≡ false = elim (allowed w k s h.0 free) [
                | inl o ↦ o
                | inr own ↦ absurd (bad (ok own))
              ] in
                  delete-owner w (insert w k s.writers) (insert-owner w k s.writers h.0 (inl other))
                    other)
        ],
        subst (λ m. n ≤ or_zero 0 (lookup key m)) (sym turns) h.1,
      )

  -- A checkout that is freed is another one.
  free-Has :
      (n now : ℕ) (saved : Option String) (w k : String) (s : SharedCapacity)
      → str_eq (writer_of w s) k ≡ true
      → str_eq k key ≡ false
      → Has n s
      → Has n (free_writer now saved w k s)
  free-Has n now saved w k s owner other h =
      Keeps-Has n (record s { writers = delete w s.writers }) (free_writer now saved w k s)
        (free-Keeps now saved w k s) (delete-owner w s.writers h.0 elsewhere, h.1)
    where
      elsewhere : str_eq w ws ≡ false
      elsewhere = elim (Bool-cases (str_eq w ws)) [
        | inr e ↦ e
        | inl e ↦ absurd (
            ground (
              arith,
              owner,
              other,
              h.0,
              (eq_iff w ws).0 e,
              eq_iff (writer_of w s) k,
              eq_iff key k,
              eq_iff k key,
            ))
      ]

  other_key :
      (n : ℕ) (k : String) (s : SharedCapacity) → turns_of k s < n → Has n s → str_eq k key ≡ false
  other_key n k s few h = elim (Bool-cases (str_eq k key)) [
    | inr e ↦ e
    | inl e ↦ absurd (ground (arith, few, h.1, (eq_iff k key).0 e))
  ]

  pub release-Has :
      (n now : ℕ) (saved : Option String) (w k : String) (s : SharedCapacity)
      → 1 ≤ n
      → Has n s
      → Has n (release_writer now saved w k s)
  unfolding release_writer
  release-Has n now saved w k s b h = elim (Bool-cases (str_eq (writer_of w s) k)) [
    | inr not_owner ↦ simp not_owner h
    | inl owner ↦ elim (Bool-cases (ltb 0 (turns_of k s))) [
      | inl runs ↦ simp (owner, runs) h
      | inr idle ↦
          simp (owner, idle)
            (free-Has n now saved w k s owner (other_key n k s (ground (arith, idle, b)) h) h)
    ]
  ]

  delete-turns :
      (n : ℕ) (k : String) (s : SharedCapacity)
      → str_eq k key ≡ false
      → Has n s
      → Has n (record s { writer_turns = delete k s.writer_turns })
  delete-turns n k s other h =
      (h.0, subst (λ o. n ≤ or_zero 0 o) (sym (lookup-delete_other key k s.writer_turns other)) h.1)

  insert-turns :
      (n m : ℕ) (k : String) (s : SharedCapacity)
      → (str_eq k key ≡ true → n ≤ m)
      → (str_eq k key ≡ false → Has n s)
      → writer_of ws s ≡ key
      → Has n (record s { writer_turns = insert k m s.writer_turns })
  insert-turns n m k s own other h = (
    h,
    elim (Bool-cases (str_eq k key)) [
      | inl e ↦
          subst (λ o. n ≤ or_zero 0 o)
            (sym (
              subst (λ i. lookup i (insert k m s.writer_turns) ≡ some m) ((eq_iff k key).0 e)
                (lookup-insert k m s.writer_turns)))
            (own e)
      | inr e ↦
          subst (λ o. n ≤ or_zero 0 o) (sym (lookup-insert_other key k m s.writer_turns e))
            (other e).1
    ],
  )

  pub retain-Has :
      (n : ℕ) (k : String) (s : SharedCapacity) → Has n s → Has n (retain_writer_turn k s)
  unfolding retain_writer_turn
  retain-Has n k s h =
      insert-turns n (turns_of k s + 1) k s (λ e. ground (arith, h.1, (eq_iff k key).0 e)) (λ e. h)
        h.0

  pub finish-Has :
      (n now : ℕ) (saved : Option String) (w k : String) (s : SharedCapacity)
      → 1 ≤ n
      → Has (n + (if str_eq k key then 1 else 0)) s
      → Has n (finish_writer_turn now saved w k s)
  unfolding finish_writer_turn
  finish-Has n now saved w k s b h = elim (Bool-cases (leb (turns_of k s) 1)) [
    | inr more ↦ simp more (
        insert-turns n (turns_of k s - 1) k s (λ e. ground (arith, h.1, e, (eq_iff k key).0 e))
          (λ e. (h.0, ground (arith, h.1, e))) h.0)
    | inl last ↦ elim (Bool-cases (is_closing k s && str_eq (writer_of w s) k)) [
      | inr stays ↦ simp (last, stays) (ended last)
      | inl frees ↦
          simp (last, frees)
            (free-Has n now saved w k _ (ground (arith, frees)) (other last) (ended last))
    ]
  ]
    where
      other : leb (turns_of k s) 1 ≡ true → str_eq k key ≡ false
      other few = elim (Bool-cases (str_eq k key)) [
        | inr e ↦ e
        | inl e ↦ absurd (ground (arith, few, b, h.1, e, (eq_iff k key).0 e))
      ]

      ended :
          leb (turns_of k s) 1 ≡ true → Has n (record s { writer_turns = delete k s.writer_turns })
      ended few = delete-turns n k s (other few) (h.0, ground (arith, h.1))
