-- ===== src/Room/Lanes/Bounded.antt =====
-- internal/room/shared.go: histories of calls to the providers.
use mohuddle.Base.{
  ℕ, ◌+◌, ◌≤◌, ◌≡◌, ◌⊎◌, inl, inr, refl, true, String, List, [], ◌∷◌, ◌++◌, some, length, lookup,
  insert, string_eq, max, arith, Bool-cases, Option-cases, AllValues, AllValues-insert,
  AllValues-lookup,
}
use mohuddle.Room.Lanes.{
  SharedTicket, SharedLane, Lanes, new_lane, dispatch, enqueue, withdraw, release, set_limit,
  give_back, has_ticket, remove_ticket, lane_or, set_provider_limit, acquire_provider,
}
use mohuddle.Room.Lanes.Fair.{IsSettled, dispatch-Settles}

-- A lane under a bound on the limits: the places are counted, at most the bound are out, and none is
-- kept from a call that waits.
abbrev pub IsLane : ℕ → SharedLane → Type 0
IsLane bound l =
    (l.active ≡ length l.granted)
    × (1 ≤ l.limit)
    × (l.limit ≤ bound)
    × (l.active ≤ bound)
    × IsSettled l

dispatch-IsLane :
    (bound : ℕ) (l : SharedLane)
    → l.active ≡ length l.granted
    → 1 ≤ l.limit
    → l.limit ≤ bound
    → l.active ≤ bound
    → IsLane bound (dispatch l)
dispatch-IsLane bound l counted positive limited h =
    let ((order, sum, moved, limit), settled, places) = dispatch-Settles "" l in
    (
      omega (arith, sum, moved, counted),
      omega (arith, limit, positive),
      omega (arith, limit, limited),
      elim places [ inl b ↦ omega (arith, b, limit, limited) | inr e ↦ omega (arith, e, h) ],
      settled,
    )

remove-length :
    (id : ℕ) (q : List SharedTicket)
    → has_ticket id q ≡ true
    → length q ≡ length (remove_ticket id q) + 1
unfolding has_ticket remove_ticket
remove-length id [] h = cc
remove-length id (t ∷ q) h = ground (arith, remove-length id q)

give_back-IsLane :
    (bound id : ℕ) (l : SharedLane)
    → has_ticket id l.granted ≡ true
    → IsLane bound l
    → IsLane bound (dispatch (give_back id l))
unfolding give_back
give_back-IsLane bound id l held (counted, positive, limited, h, settled) =
    dispatch-IsLane bound (give_back id l) (omega (arith, counted, remove-length id l.granted held))
      positive limited (omega (arith, h))

enqueue-IsLane :
    (bound : ℕ) (t : SharedTicket) (l : SharedLane)
    → (l.active ≡ length l.granted) × (1 ≤ l.limit) × (l.limit ≤ bound) × (l.active ≤ bound)
    → IsLane bound (enqueue t l)
unfolding enqueue
enqueue-IsLane bound t l (counted, positive, limited, h) =
    dispatch-IsLane bound (record l { queue = l.queue ++ t ∷ [] }) counted positive limited h

set_limit-IsLane :
    (bound limit : ℕ) (l : SharedLane)
    → 1 ≤ bound
    → limit ≤ bound
    → (l.active ≡ length l.granted) × (l.active ≤ bound)
    → IsLane bound (set_limit limit l)
unfolding set_limit
set_limit-IsLane bound limit l b k (counted, h) =
    dispatch-IsLane bound (record l { limit = max 1 limit }) counted (omega arith) (omega arith) h

withdraw-IsLane :
    (bound id : ℕ) (l : SharedLane)
    → (has_ticket id l.queue ≡ true) ⊎ (has_ticket id l.granted ≡ true)
    → IsLane bound l
    → IsLane bound (withdraw id l)
unfolding withdraw
withdraw-IsLane bound id l waits (counted, positive, limited, h, settled) =
    elim (Bool-cases (has_ticket id l.queue)) [
      | inl queued ↦ rw queued (
          dispatch-IsLane bound (record l { queue = remove_ticket id l.queue }) counted positive
            limited h)
      | inr gone ↦ rw gone (
          give_back-IsLane bound id l
            (elim waits [ inl w ↦ absurd (ground (arith, w, gone)) | inr w ↦ w ])
            (counted, positive, limited, h, settled))
    ]

release-IsLane : (bound id : ℕ) (l : SharedLane) → IsLane bound l → IsLane bound (release id l)
unfolding release
release-IsLane bound id l h = elim (Bool-cases (has_ticket id l.granted)) [
  | inl held ↦ rw held (give_back-IsLane bound id l held h)
  | inr gone ↦ rw gone h
]

-- The rooms' calls, in the order in which the mutex lets them in. A call withdraws only while its
-- ticket waits or holds a place; `bound` is the greatest limit that is ever asked for.
pub data Step (bound : ℕ) : Lanes → Lanes → Type 0 where
  limits :
      (p : String) (limit : ℕ) (s : Lanes)
      → limit ≤ bound
      → Step bound s (set_provider_limit p limit s)
  acquires :
      (p : String) (t : SharedTicket) (limit : ℕ) (s : Lanes)
      → limit ≤ bound
      → Step bound s (acquire_provider p t limit s)
  withdraws :
      (p : String) (id : ℕ) (l : SharedLane) (s : Lanes)
      → lookup p s ≡ some l
      → (has_ticket id l.queue ≡ true) ⊎ (has_ticket id l.granted ≡ true)
      → Step bound s (insert p (withdraw id l) s)
  releases :
      (p : String) (id : ℕ) (l : SharedLane) (s : Lanes)
      → lookup p s ≡ some l
      → Step bound s (insert p (release id l) s)

pub data Reach (bound : ℕ) : Lanes → Type 0 where
  no_calls : Reach bound []
  after : (s k : Lanes) → Reach bound s → Step bound s k → Reach bound k

-- Before its dispatch a lane is counted and bounded; a missing one is new.
lane_or-counted :
    (bound : ℕ) (new : SharedLane) (p : String) (s : Lanes)
    → AllValues (IsLane bound) s
    → (new.active ≡ length new.granted) × (new.active ≤ bound)
    → ((lane_or new p s).active ≡ length (lane_or new p s).granted)
      × ((lane_or new p s).active ≤ bound)
unfolding lane_or
lane_or-counted bound new p s h fresh = elim (Option-cases (lookup p s)) [
  | inl missing ↦ rw missing fresh
  | inr (l, found) ↦ rw found (
      let (counted, positive, limited, k, settled) =
        AllValues-lookup (IsLane bound) p s l found h in
      (counted, k))
]

lane_or-limited :
    (bound limit : ℕ) (p : String) (s : Lanes)
    → 1 ≤ bound
    → limit ≤ bound
    → AllValues (IsLane bound) s
    → (1 ≤ (lane_or (new_lane (max 1 limit)) p s).limit)
      × ((lane_or (new_lane (max 1 limit)) p s).limit ≤ bound)
unfolding lane_or
lane_or-limited bound limit p s b k h = elim (Option-cases (lookup p s)) [
  | inl missing ↦ rw missing (omega arith, omega arith)
  | inr (l, found) ↦ rw found (
      let (counted, positive, limited, j, settled) =
        AllValues-lookup (IsLane bound) p s l found h in
      (positive, limited))
]

call-IsLane :
    (bound : ℕ) (s k : Lanes)
    → 1 ≤ bound
    → Step bound s k
    → AllValues (IsLane bound) s
    → AllValues (IsLane bound) k
unfolding set_provider_limit acquire_provider
call-IsLane bound _ _ b (limits p limit s le) h =
    AllValues-insert (IsLane bound) p _ s
      (set_limit-IsLane bound limit (lane_or (new_lane 0) p s) b le
        (lane_or-counted bound (new_lane 0) p s h (refl, omega arith)))
      h
call-IsLane bound _ _ b (acquires p t limit s le) h =
    let (counted, k) = lane_or-counted bound (new_lane (max 1 limit)) p s h (refl, omega arith) in
    let (positive, limited) = lane_or-limited bound limit p s b le h in
    AllValues-insert (IsLane bound) p _ s
      (enqueue-IsLane bound t (lane_or (new_lane (max 1 limit)) p s)
        (counted, positive, limited, k))
      h
call-IsLane bound _ _ b (withdraws p id l s found waits) h =
    AllValues-insert (IsLane bound) p _ s
      (withdraw-IsLane bound id l waits (AllValues-lookup (IsLane bound) p s l found h)) h
call-IsLane bound _ _ b (releases p id l s found) h =
    AllValues-insert (IsLane bound) p _ s
      (release-IsLane bound id l (AllValues-lookup (IsLane bound) p s l found h)) h

-- After any history whose limits are at most `bound`, every lane counts the places it handed out, has
-- handed out at most `bound`, and keeps no call waiting while a place is free.
pub history-IsLane :
    (bound : ℕ) (s : Lanes) → 1 ≤ bound → Reach bound s → AllValues (IsLane bound) s
history-IsLane bound _ b no_calls = tt
history-IsLane bound _ b (after s k before step) =
    call-IsLane bound s k b step (history-IsLane bound s b before)
