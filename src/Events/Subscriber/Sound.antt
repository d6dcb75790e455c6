-- ===== src/Events/Subscriber/Sound.antt =====
-- What holds of an open subscriber while the hub stands at a cursor.
use mohuddle.Base.{
  ℕ, ◌+◌, ◌-◌, ◌≤◌, ◌<◌, ◌≡◌, refl, ap, subst, ◌⊎◌, inl, inr, ◌≢◌, true, false, String, List, [],
  ◌∷◌, ◌++◌, map, append_assoc, ltb, leb, ◌||◌, Option, some, arith, length, length-append, total,
  total-append, Bool-cases,
}
use mathlib.Core.Path.{subst₂}
use mathlib.Core.List.{map-append}
use mohuddle.Events.Cursor.{
  Cursor, Gap, Record, Delivery, record_delivery, gap_delivery, Wire, Follows, Chain,
}
use mohuddle.Events.Subscriber.{
  QueuedDelivery, Subscriber, Phase, waiting, draining, sending, sent, stopped, Turn, on_notify,
  on_done, on_queue, on_output, on_lock, new_subscriber, enqueue_record, enqueue_gap, run, run_turn,
  take_front, wake, place_after, replace_with_gap, append_record,
}

module _ {E : Type 0} where
  -- The delivery in hand, or taken but not noted.
  abbrev pub in_flight : Phase E → List (Delivery E)
  in_flight (sending d) = d ∷ []
  in_flight (sent d) = d ∷ []
  in_flight waiting = []
  in_flight draining = []
  in_flight stopped = []

  abbrev pub deliveries : List (QueuedDelivery E) → List (Delivery E)
  deliveries = map λ q. q.delivery

  abbrev pub queue_bytes : List (QueuedDelivery E) → ℕ
  queue_bytes = total λ q. q.bytes

  -- A control gap that stands alone.
  abbrev pub IsGapAlone : List (QueuedDelivery E) → Type 0
  IsGapAlone qs = (g : Gap) × (b : ℕ) × (qs ≡ record { delivery = gap_delivery g; bytes = b } ∷ [])

  pub record IsSound (current : Cursor) (s : Subscriber E) : Type 0 where
    pub is_open : s.closed ≡ false
    pub running : s.phase ≢ stopped
    pub room : 0 < s.capacity
    pub stream : Chain s.delivered (in_flight s.phase ++ deliveries s.pending) current
    pub entries : length s.pending ≤ s.capacity
    pub bytes : s.pending_bytes ≡ queue_bytes s.pending
    pub budget : (s.pending_bytes ≤ s.max_bytes) ⊎ IsGapAlone s.pending
    -- No wake-up is lost.
    pub awake : (s.pending ≡ []) ⊎ ((s.notified ≡ true) ⊎ (s.phase ≢ waiting))

  pub new_subscriber-IsSound :
      (capacity max_bytes : ℕ) (current : Cursor)
      → 0 < capacity
      → IsSound current (new_subscriber capacity max_bytes current)
  unfolding new_subscriber
  new_subscriber-IsSound capacity max_bytes current h = ground arith

  Chain-snoc :
      (c d : Cursor) (ds : List (Delivery E)) (r : Record E)
      → Follows d r.cursor
      → Chain c ds d
      → Chain c (ds ++ record_delivery r ∷ []) r.cursor
  Chain-snoc c d [] r f h = ground arith
  Chain-snoc c d (record_delivery q ∷ ds) r f h = (h.0, Chain-snoc q.cursor d ds r f h.1)
  Chain-snoc c d (gap_delivery g ∷ ds) r f h = Chain-snoc g.current d ds r f h

  deliveries-append :
      (ps qs : List (QueuedDelivery E)) → deliveries (ps ++ qs) ≡ deliveries ps ++ deliveries qs
  deliveries-append = map-append _

  append-snoc :
      (c d : Cursor) (ds : List (Delivery E)) (qs : List (QueuedDelivery E)) (r : Record E) (b : ℕ)
      → Follows d r.cursor
      → Chain c (ds ++ deliveries qs) d
      → Chain c
          (ds ++ deliveries (qs ++ record { delivery = record_delivery r; bytes = b } ∷ []))
          r.cursor
  append-snoc c d ds qs r b f h =
      rw (deliveries-append qs _, ← append_assoc) (Chain-snoc c d (ds ++ deliveries qs) r f h)

  -- A gap may take the place of all that is queued behind the delivery in hand.
  Chain-gap :
      (p : Phase E) (c d : Cursor) (ds : List (Delivery E)) (g : Gap)
      → Chain c (in_flight p ++ ds) d
      → Chain c (in_flight p ++ gap_delivery g ∷ []) g.current
  Chain-gap waiting c d ds g h = (refl, refl)
  Chain-gap draining c d ds g h = (refl, refl)
  Chain-gap stopped c d ds g h = (refl, refl)
  Chain-gap (sending (record_delivery r)) c d ds g h = (h.0, (refl, refl))
  Chain-gap (sending (gap_delivery f)) c d ds g h = (refl, refl)
  Chain-gap (sent (record_delivery r)) c d ds g h = (h.0, (refl, refl))
  Chain-gap (sent (gap_delivery f)) c d ds g h = (refl, refl)

  module _ (w : Wire E) (oldest current : Cursor) (s : Subscriber E) (v : IsSound current s) where
    -- An overflow is never silent: the queue becomes one gap that ends at the hub's cursor.
    replace-IsSound :
        (reason : String) (next : Cursor)
        → IsSound next (wake (replace_with_gap w reason oldest next s))
    unfolding wake replace_with_gap
    replace-IsSound reason next = record {
      is_open = v.is_open;
      running = v.running;
      room = v.room;
      stream = Chain-gap s.phase s.delivered current _ _ v.stream;
      entries = omega (arith, v.room);
      bytes = omega arith;
      budget = inr (_, _, refl);
      awake = inr (inl refl);
    }

    append-IsSound :
        (r : Record E) (bytes : ℕ)
        → Follows current r.cursor
        → length s.pending < s.capacity
        → s.pending_bytes + bytes ≤ s.max_bytes
        → IsSound r.cursor (wake (append_record r bytes s))
    unfolding wake append_record
    append-IsSound r bytes f room budget = record {
      is_open = v.is_open;
      running = v.running;
      room = v.room;
      stream = append-snoc s.delivered current (in_flight s.phase) s.pending r bytes f v.stream;
      entries = omega (arith, length-append {0} s.pending);
      bytes =
          omega (arith, v.bytes, total-append {0} (λ (q : QueuedDelivery E). q.bytes) s.pending);
      budget = inl budget;
      awake = inr (inl refl);
    }

    pub enqueue_gap-IsSound :
        (reason : String) (next : Cursor) → IsSound next (enqueue_gap w reason oldest next s)
    unfolding enqueue_gap
    enqueue_gap-IsSound reason next = simp v.is_open (replace-IsSound reason next)

    pub enqueue_record-IsSound :
        (r : Record E) (bytes : ℕ)
        → Follows current r.cursor
        → IsSound r.cursor (enqueue_record w r bytes oldest r.cursor s)
    unfolding enqueue_record
    enqueue_record-IsSound r bytes f =
        elim (Bool-cases
          (leb s.capacity (length s.pending) || ltb s.max_bytes (s.pending_bytes + bytes))) [
            | inl full ↦ simp (v.is_open, full) (replace-IsSound _ r.cursor)
            | inr free ↦
                simp (v.is_open, free) (append-IsSound r bytes f (ground arith) (ground arith))
          ]

  pub Chain-delivered :
      (d : Delivery E) (c e : Cursor) (ds : List (Delivery E))
      → Chain c (d ∷ ds) e
      → Chain (place_after d) ds e
  Chain-delivered (record_delivery r) c e ds h = h.1
  Chain-delivered (gap_delivery g) c e ds h = h

  front_budget :
      {current : Cursor} (q : QueuedDelivery E) (qs : List (QueuedDelivery E)) (s : Subscriber E)
      → s.pending ≡ q ∷ qs
      → IsSound current s
      → s.pending_bytes - q.bytes ≤ s.max_bytes
  front_budget q qs s e v = elim v.budget [
    | inl h ↦ omega arith
    | inr (g, b, f) ↦
        let alone : qs ≡ [] = cc in omega (arith, v.bytes, ap queue_bytes e, ap queue_bytes alone)
  ]

  take_front-IsSound :
      (qs : List (QueuedDelivery E)) (current : Cursor) (s : Subscriber E)
      → s.pending ≡ qs
      → s.phase ≡ draining
      → IsSound current s
      → IsSound current (take_front qs s)
  unfolding take_front
  take_front-IsSound [] current s e p v = record {
    is_open = v.is_open;
    running = λ h. cc;
    room = v.room;
    stream =
        subst (λ q. Chain s.delivered (in_flight q ++ deliveries s.pending) current) p v.stream;
    entries = v.entries;
    bytes = v.bytes;
    budget = v.budget;
    awake = inl e;
  }
  take_front-IsSound (q ∷ qs) current s e p v = record {
    is_open = v.is_open;
    running = λ h. cc;
    room = v.room;
    stream = subst₂ (λ q l. Chain s.delivered (in_flight q ++ deliveries l) current) p e v.stream;
    entries = omega (arith, v.entries, ap length e);
    bytes = omega (arith, v.bytes, ap queue_bytes e);
    budget = inl (front_budget q qs s e v);
    awake = inr (inr (λ h. cc));
  }

  run_turn-IsSound :
      (p : Phase E) (turn : Turn) (current : Cursor) (s t : Subscriber E)
      (out : Option (Delivery E))
      → s.phase ≡ p
      → IsSound current s
      → run_turn p turn s ≡ some (t, out)
      → IsSound current t
  unfolding run_turn
  run_turn-IsSound waiting on_notify current s t out e v h = ground arith
  run_turn-IsSound waiting on_done current s t out e v h = ground arith
  run_turn-IsSound draining on_queue current s t out e v h =
      subst (IsSound current) (ground arith) (take_front-IsSound s.pending current s refl e v)
  run_turn-IsSound (sending d) on_output current s t out e v h = ground arith
  run_turn-IsSound (sent d) on_lock current s t out e v h =
      ground (arith, Chain-delivered d s.delivered current (deliveries s.pending))
  run_turn-IsSound (sending d) on_done current s t out e v h = ground arith
  run_turn-IsSound stopped turn current s t out e v h = cc
  run_turn-IsSound _ _ current s t out e v h = cc

  pub run-IsSound :
      (turn : Turn) (current : Cursor) (s t : Subscriber E) (out : Option (Delivery E))
      → IsSound current s
      → run turn s ≡ some (t, out)
      → IsSound current t
  unfolding run
  run-IsSound turn current s t out v h = run_turn-IsSound s.phase turn current s t out refl v h
