-- ===== src/Chat/Corrections/Final.antt =====
-- internal/chat/types.go: corrections that are accepted or retracted.
use mohuddle.Base.{
  ℕ, zero, suc, ◌≡◌, refl, ap, inl, inr, true, ◌&&◌, List, [], ◌∷◌, ◌++◌, Option, none, some,
  get_elem?, set, lookup, nat_eq, arith, Bool-cases, Option-cases,
}
use mohuddle.Chat.Corrections.{
  CorrectionEvent, Correction, Message, Ledger, is_terminal, resolved, resolve_at, resolve,
  offer_for, offer, replay_message, replay, is_unique, is_said, only, events_of, is_offer,
  is_resolution, new_correction,
}

keep-set :
    (xs : List Correction) (j : ℕ) (v : Correction) (i : ℕ) (c : Correction)
    → get_elem? xs i ≡ some c
    → (i ≡ j → v ≡ c)
    → get_elem? (set xs j v) i ≡ some c
keep-set [] j v i c h e = cc
keep-set (x ∷ xs) zero v zero c h e = ap some (e refl)
keep-set (x ∷ xs) zero v (suc i) c h e = h
keep-set (x ∷ xs) (suc j) v zero c h e = h
keep-set (x ∷ xs) (suc j) v (suc i) c h e = keep-set xs j v i c h (λ q. e (ap suc q))

keep-append :
    (xs ys : List Correction) (i : ℕ) (c : Correction)
    → get_elem? xs i ≡ some c
    → get_elem? (xs ++ ys) i ≡ some c
keep-append [] ys i c h = cc
keep-append (x ∷ xs) ys zero c h = h
keep-append (x ∷ xs) ys (suc i) c h = keep-append xs ys i c h

module _ (i : ℕ) (c : Correction) (closed : is_terminal c.status ≡ true) where
  -- The correction stands at its place.
  abbrev Has : Ledger → Type 0
  Has l = get_elem? l.entries i ≡ some c

  same_or_other :
      (e : CorrectionEvent) (m : Message) (d : Correction) (j : ℕ) (xs : List Correction)
      → get_elem? xs i ≡ some c
      → get_elem? xs j ≡ some d
      → i ≡ j
      → resolved e m d ≡ c
  unfolding resolved
  same_or_other e m d j xs h k q = ground (arith, h, k, q, closed)

  resolve_at-Has :
      (o : Option ℕ) (e : CorrectionEvent) (m : Message) (l : Ledger)
      → Has l
      → Has (resolve_at o e m l)
  unfolding resolve_at
  resolve_at-Has none e m l h = h
  resolve_at-Has (some j) e m l h = elim (Option-cases (get_elem? l.entries j)) [
    | inl missing ↦ ground (arith, missing, h)
    | inr (d, found) ↦ ground (
      arith,
      found,
      h,
      keep-set l.entries j (resolved e m d) i c h (same_or_other e m d j l.entries h found),
    )
  ]

  resolve-Has :
      (o : Option CorrectionEvent) (m : Message) (l : Ledger) → Has l → Has (resolve o m l)
  unfolding resolve
  resolve-Has none m l h = h
  resolve-Has (some e) m l h = resolve_at-Has (lookup e.correction_sequence l.corrections) e m l h

  offer-Has :
      (o : Option CorrectionEvent) (known : List (ℕ × Message)) (m : Message) (l : Ledger)
      → Has l
      → Has (offer o known m l)
  unfolding offer offer_for
  offer-Has none known m l h = h
  offer-Has (some e) known m l h = elim (Option-cases (lookup e.corrected_sequence known)) [
    | inl missing ↦ ground (arith, missing, h)
    | inr (k, found) ↦
        ground (arith, found, h, keep-append l.entries (new_correction e m ∷ []) i c h)
  ]

  message-Has :
      (all : List Message) (known : List (ℕ × Message)) (m : Message) (l : Ledger)
      → Has l
      → Has (replay_message all known m l)
  unfolding replay_message
  message-Has all known m l h = elim (Bool-cases (is_unique all m && is_said m)) [
    | inr skipped ↦ rw skipped h
    | inl taken ↦ rw taken (
        offer-Has (only (events_of is_offer m.correction_events)) known m
          (resolve (only (events_of is_resolution m.correction_events)) m l)
          (resolve-Has (only (events_of is_resolution m.correction_events)) m l h))
  ]

  -- Once a correction is accepted or retracted, no later message changes anything of it.
  pub replay-final :
      (all : List Message) (known : List (ℕ × Message)) (ms : List Message) (l : Ledger)
      → get_elem? l.entries i ≡ some c
      → get_elem? (replay all known ms l).entries i ≡ some c
  unfolding replay
  replay-final all known [] l h = h
  replay-final all known (m ∷ ms) l h =
      replay-final all known ms (replay_message all known m l) (message-Has all known m l h)
