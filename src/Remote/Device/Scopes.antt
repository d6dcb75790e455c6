-- ===== src/Remote/Device/Scopes.antt =====
-- internal/remote/device/store.go: the scopes of a grant.
use mohuddle.Base.{
  ℕ, zero, suc, total, ◌+◌, ◌≤◌, ◌≡◌, refl, inl, inr, Bool, true, false, not, ◌&&◌, ◌||◌, List, [],
  ◌∷◌, ◌++◌, ok, err, ◌>>=◌, if◌then◌else◌, arith, Bool-cases, ◌↔◌, ap, sym, first_step,
}
use mohuddle.Remote.Device.{
  Scope, observe, participate, admin, other_scope, Answer, duplicate_scope, invalid_scope,
  incomplete_scopes,
}

-- Which of the three scopes the loop has seen.
pub record Seen : Type 0 where
  pub observes : Bool
  pub participates : Bool
  pub administers : Bool

see : Scope → Seen → Answer Seen
see observe s = if s.observes then err duplicate_scope else ok (record s { observes = true })
see participate s =
    if s.participates then err duplicate_scope else ok (record s { participates = true })
see admin s = if s.administers then err duplicate_scope else ok (record s { administers = true })
see (other_scope t) s = err invalid_scope

pub see_all : List Scope → Seen → Answer Seen
see_all [] s = ok s
see_all (x ∷ xs) s = do t ← see x s; see_all xs t

abbrev pub when : Bool → Scope → List Scope
when true x = x ∷ []
when false x = []

pub chosen : Seen → Answer (List Scope)
chosen s =
    if not s.observes || (s.administers && not s.participates)
    then err incomplete_scopes
    else ok (observe ∷ when s.participates participate ++ when s.administers admin)

abbrev pub unseen : Seen
unseen = record { observes = false; participates = false; administers = false }

unfoldable pub normalize_scopes : List Scope → Answer (List Scope)
unfolding see see_all chosen
normalize_scopes scopes = do seen ← see_all scopes unseen; chosen seen

-- How often a scope is asked for.
abbrev pub observes : Scope → ℕ
observes observe = 1
observes _ = 0

abbrev pub participates : Scope → ℕ
participates participate = 1
participates _ = 0

abbrev pub administers : Scope → ℕ
administers admin = 1
administers _ = 0

abbrev pub unknown : Scope → ℕ
unknown (other_scope t) = 1
unknown _ = 0

abbrev pub repeat : ℕ → Scope → List Scope
repeat zero x = []
repeat (suc n) x = x ∷ repeat n x

-- Every scope is known, observing is asked for once, the others at most once, and administering only
-- with participating.
abbrev pub IsLadder : List Scope → Type 0
IsLadder xs =
    (total unknown xs ≡ 0)
    × (total observes xs ≡ 1)
    × total participates xs ≤ 1
    × total administers xs ≤ total participates xs

abbrev pub ladder : List Scope → List Scope
ladder xs =
    observe ∷ repeat (total participates xs) participate ++ repeat (total administers xs) admin

abbrev bit : Bool → ℕ
bit true = 1
bit false = 0

-- What the loop has seen is what the list counts.
abbrev Counts : List Scope → Seen → Seen → Type 0
Counts xs s t =
    (total unknown xs ≡ 0)
    × (bit t.observes ≡ bit s.observes + total observes xs)
    × (bit t.participates ≡ bit s.participates + total participates xs)
    × (bit t.administers ≡ bit s.administers + total administers xs)

see_all-Counts : (xs : List Scope) (s t : Seen) → see_all xs s ≡ ok t → Counts xs s t
unfolding see see_all
see_all-Counts [] s t e = ground arith
see_all-Counts (observe ∷ xs) s t e = elim (Bool-cases s.observes) [
  | inl h ↦ cc (rw h at e)
  | inr h ↦
      let (u, o, p, a) = see_all-Counts xs (record s { observes = true }) t (rw h at e) in
      rw h (omega (arith, u), omega (arith, o), omega (arith, p), omega (arith, a))
]
see_all-Counts (participate ∷ xs) s t e = elim (Bool-cases s.participates) [
  | inl h ↦ cc (rw h at e)
  | inr h ↦
      let (u, o, p, a) = see_all-Counts xs (record s { participates = true }) t (rw h at e) in
      rw h (omega (arith, u), omega (arith, o), omega (arith, p), omega (arith, a))
]
see_all-Counts (admin ∷ xs) s t e = elim (Bool-cases s.administers) [
  | inl h ↦ cc (rw h at e)
  | inr h ↦
      let (u, o, p, a) = see_all-Counts xs (record s { administers = true }) t (rw h at e) in
      rw h (omega (arith, u), omega (arith, o), omega (arith, p), omega (arith, a))
]
see_all-Counts (other_scope x ∷ xs) s t e = cc

-- A list that asks for nothing twice is read to its end.
see_all-ok :
    (xs : List Scope) (s : Seen)
    → total unknown xs ≡ 0
    → bit s.observes + total observes xs ≤ 1
    → bit s.participates + total participates xs ≤ 1
    → bit s.administers + total administers xs ≤ 1
    → (t : Seen) × (see_all xs s ≡ ok t)
unfolding see see_all
see_all-ok [] s u o p a = (s, refl)
see_all-ok (observe ∷ xs) s u o p a = elim (Bool-cases s.observes) [
  | inl h ↦ absurd (omega (arith, rw h at o))
  | inr h ↦
      let at_start = rw h at o in
      rw h (
        see_all-ok xs (record s { observes = true }) (omega arith) (omega (arith, at_start))
          (omega arith) (omega arith))
]
see_all-ok (participate ∷ xs) s u o p a = elim (Bool-cases s.participates) [
  | inl h ↦ absurd (omega (arith, rw h at p))
  | inr h ↦
      let at_start = rw h at p in
      rw h (
        see_all-ok xs (record s { participates = true }) (omega arith) (omega arith)
          (omega (arith, at_start)) (omega arith))
]
see_all-ok (admin ∷ xs) s u o p a = elim (Bool-cases s.administers) [
  | inl h ↦ absurd (omega (arith, rw h at a))
  | inr h ↦
      let at_start = rw h at a in
      rw h (
        see_all-ok xs (record s { administers = true }) (omega arith) (omega arith) (omega arith)
          (omega (arith, at_start)))
]
see_all-ok (other_scope x ∷ xs) s u o p a = absurd (omega arith)

ladder_of : ℕ → ℕ → List Scope
ladder_of p a = observe ∷ repeat p participate ++ repeat a admin

bit-le : (b : Bool) → bit b ≤ 1
bit-le true = omega arith
bit-le false = omega arith

chosen_iff :
    (o p a : Bool) (ys : List Scope)
    → (chosen (record { observes = o; participates = p; administers = a }) ≡ ok ys)
      ↔ ((bit o ≡ 1) × bit a ≤ bit p × (ys ≡ ladder_of (bit p) (bit a)))
unfolding chosen ladder_of
chosen_iff false p a ys = (λ e. cc, λ (h, _, _). absurd (omega arith))
chosen_iff true true true ys = (λ e. (refl, omega arith, cc), λ (_, _, e). ap ok (sym e))
chosen_iff true true false ys = (λ e. (refl, omega arith, cc), λ (_, _, e). ap ok (sym e))
chosen_iff true false true ys = (λ e. cc, λ (_, h, _). absurd (omega arith))
chosen_iff true false false ys = (λ e. (refl, omega arith, cc), λ (_, _, e). ap ok (sym e))

-- The scopes of a grant are accepted in any order, exactly where observing is asked for once, the
-- others at most once, administering only with participating, and nothing else: then what is kept is
-- observing, then participating and administering as far as they were asked for.
pub normalize_scopes_iff :
    (xs ys : List Scope) → (normalize_scopes xs ≡ ok ys) ↔ (IsLadder xs × (ys ≡ ladder xs))
unfolding normalize_scopes ladder_of
normalize_scopes_iff xs ys = (forth, back)
  where
    forth : normalize_scopes xs ≡ ok ys → IsLadder xs × (ys ≡ ladder xs)
    forth e =
        let (t, chose, seen) = first_step (see_all xs unseen) chosen e in
        let (u, o, p, a) = see_all-Counts xs unseen t seen in
        let p' : bit t.participates ≡ total participates xs = omega (arith, p) in
        let a' : bit t.administers ≡ total administers xs = omega (arith, a) in
        let (one, below, same) = (chosen_iff t.observes t.participates t.administers ys).0 chose in
        (
          (u, omega (arith, o, one), omega (arith, bit-le t.participates), rw (p', a') at below),
          rw (p', a') at same,
        )

    back : IsLadder xs × (ys ≡ ladder xs) → normalize_scopes xs ≡ ok ys
    back ((u, o, p, a), same) =
        let (t, e) = see_all-ok xs unseen u (omega arith) (omega arith) (omega arith) in
        let (_, o', p', a') = see_all-Counts xs unseen t e in
        let p'' : bit t.participates ≡ total participates xs = omega (arith, p') in
        let a'' : bit t.administers ≡ total administers xs = omega (arith, a') in
        rw e (
          (chosen_iff t.observes t.participates t.administers ys).1
            (omega (arith, o'), rw (p'', a'') a, rw (p'', a'') same))
