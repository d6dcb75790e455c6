-- ===== src/Chat/Corrections/Sources.antt =====
-- internal/chat/types.go: the messages of a transcript that a correction of the ledger comes from.
use mohuddle.Base.{
  ℕ, ◌≤◌, ◌≡◌, refl, sym, subst, ◌∙◌, ◌⊎◌, inl, inr, true, List, [], ◌∷◌, some, ◌==◌, leb, lookup,
  insert, nat_eq, All, All-impl, arith, Bool-cases, lookup-insert, lookup-insert_other,
  if◌then◌else◌,
}
use mathlib.Core.Option.{some_inj}
use mohuddle.Chat.Corrections.{
  Message, sequence_count, place, sort_messages, is_unique, by_sequence,
}

abbrev pub Among : Message → List Message → Type 0
Among y [] = ⊥
Among y (x ∷ xs) = (y ≡ x) ⊎ Among y xs

-- The messages of a transcript with a sequence.
abbrev pub with_sequence : ℕ → List Message → List Message
with_sequence n [] = []
with_sequence n (m ∷ rest) =
    if m.sequence == n then m ∷ with_sequence n rest else with_sequence n rest

pub Among-All : (ms : List Message) → All (λ m. Among m ms) ms
Among-All [] = tt
Among-All (m ∷ ms) = (inl refl, All-impl (λ a h. inr h) ms (Among-All ms))

module _ (P : Message → Type 0) where
  place-All : (m : Message) (xs : List Message) → P m → All P xs → All P (place m xs)
  unfolding place
  place-All m [] p h = (p, tt)
  place-All m (x ∷ xs) p h = elim (Bool-cases (leb m.sequence x.sequence)) [
    | inl before ↦ rw before (p, h)
    | inr after ↦ rw after (h.0, place-All m xs p h.1)
  ]

  pub sort_messages-All : (ms : List Message) → All P ms → All P (sort_messages ms)
  unfolding sort_messages
  sort_messages-All [] h = tt
  sort_messages-All (m ∷ ms) h = place-All m (sort_messages ms) h.0 (sort_messages-All ms h.1)

-- What the map of the ledger says of a sequence.
abbrev pub IsKnown : List Message → ℕ → Message → Type 0
IsKnown all n k = (k.sequence ≡ n) × (is_unique all k ≡ true) × Among k all

pub known_lem :
    (n : ℕ) (all ms : List Message) (k : Message)
    → All (λ m. Among m all) ms
    → lookup n (by_sequence all ms) ≡ some k
    → IsKnown all n k
unfolding by_sequence lookup
known_lem n all [] k h found = cc
known_lem n all (m ∷ ms) k h found = elim (Bool-cases (is_unique all m)) [
  | inr other ↦ known_lem n all ms k h.1 (rw other at found)
  | inl unique ↦ elim (Bool-cases (m.sequence == n)) [
    | inl same ↦
        let e : m.sequence ≡ n = ground (arith, same) in
        let hit : some m ≡ some k =
          sym (lookup-insert n m (by_sequence all ms))
          ∙ subst (λ i. lookup n (insert i m (by_sequence all ms)) ≡ some k) e
              (rw unique at found) in
        subst (IsKnown all n) (some_inj.0 hit) (e, unique, h.0)
    | inr differs ↦ known_lem n all ms k h.1 (
        sym (lookup-insert_other n m.sequence m (by_sequence all ms) differs)
        ∙ (rw unique at found))
  ]
]

counted_none : (n : ℕ) (xs : List Message) → sequence_count n xs ≡ 0 → with_sequence n xs ≡ []
unfolding sequence_count
counted_none n [] h = refl
counted_none n (x ∷ xs) h = ground (arith, h, counted_none n xs)

Among-counted : (m : Message) (xs : List Message) → Among m xs → 1 ≤ sequence_count m.sequence xs
unfolding sequence_count
Among-counted m [] h = absurd h
Among-counted m (x ∷ xs) (inl e) =
    subst (λ y. 1 ≤ sequence_count y.sequence (x ∷ xs)) (sym e) (ground arith)
Among-counted m (x ∷ xs) (inr h) = ground (arith, Among-counted m xs h)

-- A sequence that is counted once is the one of the message that is there.
counted_once :
    (m : Message) (xs : List Message)
    → Among m xs
    → sequence_count m.sequence xs ≡ 1
    → with_sequence m.sequence xs ≡ m ∷ []
unfolding sequence_count
counted_once m [] h c = absurd h
counted_once m (x ∷ xs) (inl e) c =
    subst (λ y. with_sequence y.sequence (x ∷ xs) ≡ y ∷ []) (sym e)
      (let whole : sequence_count x.sequence (x ∷ xs) ≡ 1 =
          subst (λ y. sequence_count y.sequence (x ∷ xs) ≡ 1) e c in
        let once : sequence_count x.sequence xs ≡ 0 = ground (arith, whole) in
        ground (arith, counted_none x.sequence xs once))
counted_once m (x ∷ xs) (inr h) c = elim (Bool-cases (x.sequence == m.sequence)) [
  | inl same ↦ absurd (ground (arith, same, c, Among-counted m xs h))
  | inr differs ↦ ground (arith, differs, c, counted_once m xs h)
]

pub unique-sole :
    (all : List Message) (m : Message)
    → Among m all
    → is_unique all m ≡ true
    → with_sequence m.sequence all ≡ m ∷ []
unfolding is_unique
unique-sole all m h u = counted_once m all h (ground (arith, u))
