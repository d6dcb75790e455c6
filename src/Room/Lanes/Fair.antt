-- ===== src/Room/Lanes/Fair.antt =====
-- internal/room/shared.go: the order in which a lane serves the rooms.
use mohuddle.Base.{
  ℕ, zero, suc, ◌+◌, ◌≤◌, ◌≡◌, ◌⊎◌, inl, inr, refl, sym, ap, subst, ◌∙◌, true, false, String, List,
  [], ◌∷◌, ◌++◌, append_assoc, none, some, ltb, str_eq, eq_iff, if◌then◌else◌, length,
  length-append, get_elem?, string_eq, arith, Bool-cases, Option-cases,
}
use mohuddle.Room.Lanes.{
  SharedTicket, SharedLane, find_other, index_of_next, remove_at, admit, admit_next,
  dispatch_rounds, dispatch,
}

-- The tickets of one room, in order.
abbrev pub of_room : String → List SharedTicket → List SharedTicket
of_room r [] = []
of_room r (t ∷ q) = if str_eq t.room r then t ∷ of_room r q else of_room r q

of_room-append :
    (r : String) (xs ys : List SharedTicket) → of_room r (xs ++ ys) ≡ of_room r xs ++ of_room r ys
of_room-append r [] ys = refl
of_room-append r (t ∷ xs) ys = ground (arith, of_room-append r xs ys)

-- Taking the i-th ticket keeps the order of each room.
abbrev Takes : String → List SharedTicket → ℕ → SharedTicket → Type 0
Takes r q i t =
    (get_elem? q i ≡ some t)
    × (of_room r q ≡ of_room r (t ∷ []) ++ of_room r (remove_at i q))
    × (length q ≡ length (remove_at i q) + 1)

find_other_skip :
    (last : String) (x : SharedTicket) (q : List SharedTicket) (i : ℕ)
    → find_other last (x ∷ q) ≡ some (suc i)
    → (str_eq x.room last ≡ true) × (find_other last q ≡ some i)
unfolding find_other
find_other_skip last x q i h = elim (Bool-cases (str_eq x.room last)) [
  | inl same ↦ (same, ground (arith, h, same))
  | inr other ↦ absurd (ground (arith, h, other))
]

find_other_empty : (last : String) → find_other last [] ≡ none
unfolding find_other
find_other_empty last = refl

find_other_here :
    (last : String) (x : SharedTicket) (q : List SharedTicket)
    → find_other last (x ∷ q) ≡ some 0
    → str_eq x.room last ≡ false
unfolding find_other
find_other_here last x q h = ground (arith, h)

-- The ticket at the place found is of another room.
find_other-Takes :
    (r last : String) (q : List SharedTicket) (i : ℕ)
    → find_other last q ≡ some i
    → (t : SharedTicket) × (str_eq t.room last ≡ false) × Takes r q i t
unfolding remove_at
find_other-Takes r last [] i h = absurd (ground (arith, h, find_other_empty last))
find_other-Takes r last (x ∷ q) zero h =
    (x, find_other_here last x q h, (refl, ground arith, omega arith))
find_other-Takes r last (x ∷ q) (suc i) h =
    let (same, rest) = find_other_skip last x q i h in
    let (t, other, (found, keeps, len)) = find_other-Takes r last q i rest in
    (
      t,
      other,
      (
        found,
        ground (
          arith,
          same,
          other,
          keeps,
          eq_iff x.room last,
          eq_iff x.room r,
          eq_iff t.room r,
          eq_iff t.room last,
        ),
        omega (arith, len),
      ),
    )

index_none :
    (last : String) (q : List SharedTicket) → find_other last q ≡ none → index_of_next last q ≡ 0
unfolding index_of_next
index_none last q h = ground (arith, h)

index_some :
    (last : String) (q : List SharedTicket) (i : ℕ)
    → find_other last q ≡ some i
    → index_of_next last q ≡ i
unfolding index_of_next
index_some last q i h = ground (arith, h)

head-Takes : (r : String) (x : SharedTicket) (q : List SharedTicket) → Takes r (x ∷ q) 0 x
unfolding remove_at
head-Takes r x q = (refl, ground arith, omega arith)

-- What a round of the loop hands out, and how it leaves the queue.
next-Takes :
    (r last : String) (q : List SharedTicket)
    → 1 ≤ length q
    → (t : SharedTicket) × Takes r q (index_of_next last q) t
next-Takes r last [] h = absurd (omega arith)
next-Takes r last (x ∷ q) h = elim (Option-cases (find_other last (x ∷ q))) [
  | inl none_other ↦ (
    x,
    subst (λ i. Takes r (x ∷ q) i x) (sym (index_none last (x ∷ q) none_other)) (head-Takes r x q),
  )
  | inr (i, found) ↦
      let (t, other, takes) = find_other-Takes r last (x ∷ q) i found in
      (t, subst (λ i. Takes r (x ∷ q) i t) (sym (index_some last (x ∷ q) i found)) takes)
]

-- Every ticket that leaves the queue is granted, in the order of its room, and counted.
abbrev pub Moves : String → SharedLane → SharedLane → Type 0
Moves r l k =
    (of_room r (k.granted ++ k.queue) ≡ of_room r (l.granted ++ l.queue))
    × (length k.granted + length k.queue ≡ length l.granted + length l.queue)
    × (k.active + length k.queue ≡ l.active + length l.queue)
    × (k.limit ≡ l.limit)

admit-Moves :
    (r : String) (t : SharedTicket) (rest : List SharedTicket) (l : SharedLane)
    → of_room r l.queue ≡ of_room r (t ∷ []) ++ of_room r rest
    → length l.queue ≡ length rest + 1
    → Moves r l (admit t rest l)
unfolding admit
admit-Moves r t rest l order len = (
  ap (of_room r) (append_assoc l.granted (t ∷ []) rest)
      ∙ of_room-append r l.granted (t ∷ rest)
      ∙ ground (arith, order, of_room-append r l.granted l.queue),
  omega (arith, length-append l.granted (t ∷ []), len),
  omega (arith, len),
  refl,
)

admit_next_eq :
    (l : SharedLane) (t : SharedTicket)
    → get_elem? l.queue (index_of_next l.last l.queue) ≡ some t
    → admit_next l ≡ admit t (remove_at (index_of_next l.last l.queue) l.queue) l
unfolding admit_next
admit_next_eq l t h = ground (arith, h)

admit_next-Moves :
    (r : String) (l : SharedLane)
    → 1 ≤ length l.queue
    → Moves r l (admit_next l) × (length l.queue ≡ length (admit_next l).queue + 1)
unfolding admit
admit_next-Moves r l h =
    let (t, (found, order, len)) = next-Takes r l.last l.queue h in
    subst (λ k. Moves r l k × (length l.queue ≡ length k.queue + 1)) (sym (admit_next_eq l t found))
      (admit-Moves r t (remove_at (index_of_next l.last l.queue) l.queue) l order len, len)

Moves-trans : (r : String) (a b c : SharedLane) → Moves r a b → Moves r b c → Moves r a c
Moves-trans r a b c h k = (k.0 ∙ h.0, k.1 ∙ h.1, k.2 ∙ h.2, k.3 ∙ h.3)

-- The loop ends with no room for more, or nobody who waits; it hands out no place above the limit.
abbrev pub IsSettled : SharedLane → Type 0
IsSettled l = (l.limit ≤ l.active) ⊎ (length l.queue ≡ 0)

abbrev pub Settles : String → SharedLane → SharedLane → Type 0
Settles r l k = Moves r l k × IsSettled k × ((k.active ≤ k.limit) ⊎ (k.active ≡ l.active))

Settles-now : (r : String) (l : SharedLane) → IsSettled l → Settles r l l
Settles-now r l h = ((refl, refl, refl, refl), h, inr refl)

rounds_go :
    (n : ℕ) (l : SharedLane)
    → ltb l.active l.limit ≡ true
    → dispatch_rounds (suc n) l ≡ dispatch_rounds n (admit_next l)
unfolding dispatch_rounds
rounds_go n l h = ground (arith, h)

rounds_stop :
    (n : ℕ) (l : SharedLane) → ltb l.active l.limit ≡ false → dispatch_rounds (suc n) l ≡ l
unfolding dispatch_rounds
rounds_stop n l h = ground (arith, h)

rounds_none : (l : SharedLane) → dispatch_rounds 0 l ≡ l
unfolding dispatch_rounds
rounds_none l = refl

rounds-Settles :
    (r : String) (n : ℕ) (l : SharedLane) → length l.queue ≡ n → Settles r l (dispatch_rounds n l)
rounds-Settles r zero l h = subst (Settles r l) (sym (rounds_none l)) (Settles-now r l (inr h))
rounds-Settles r (suc n) l h = elim (Bool-cases (ltb l.active l.limit)) [
  | inr full ↦
      subst (Settles r l) (sym (rounds_stop n l full)) (Settles-now r l (inl (ground arith)))
  | inl free ↦ subst (Settles r l) (sym (rounds_go n l free)) (
      let (moves, len) = admit_next-Moves r l (omega (arith, h)) in
      let (more, settled, bound) = rounds-Settles r n (admit_next l) (omega (arith, h, len)) in
      (
        Moves-trans r l (admit_next l) (dispatch_rounds n (admit_next l)) moves more,
        settled,
        elim bound [ inl b ↦ inl b | inr e ↦ inl (ground (arith, e, len, free, moves, more)) ],
      ))
]

-- Dispatch hands out places until none is free or nobody waits, and no more than the limit; for every
-- room it grants the calls in the order in which they came.
pub dispatch-Settles : (r : String) (l : SharedLane) → Settles r l (dispatch l)
unfolding dispatch
dispatch-Settles r l = rounds-Settles r (length l.queue) l refl
