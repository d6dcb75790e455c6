-- ===== src/Events/Subscriber/Order.antt =====
-- What the delivery goroutine hands to the consumer, and that it can always go on.
use mohuddle.Base.{◌-◌, ◌≡◌, refl, false, List, [], ◌∷◌, ◌++◌, Option, none, some, arith}
use mohuddle.Events.Cursor.{Cursor, Delivery, Chain}
use mohuddle.Events.Subscriber.{
  QueuedDelivery, Subscriber, Phase, waiting, draining, sending, sent, stopped, Turn, on_notify,
  on_queue, on_output, on_lock, run, run_turn, place_after, take_front,
}
use mohuddle.Events.Subscriber.Sound.{in_flight, deliveries, IsSound, Chain-delivered}

module _ {E : Type 0} where
  abbrev pub in_hand : Phase E → List (Delivery E)
  in_hand (sending d) = d ∷ []
  in_hand _ = []

  -- All that is still to be handed over, oldest first.
  abbrev pub outstanding : Subscriber E → List (Delivery E)
  outstanding s = in_hand s.phase ++ deliveries s.pending

  abbrev pub position_at : Phase E → Cursor → Cursor
  position_at (sent d) c = place_after d
  position_at _ c = c

  -- Where the consumer stands with what it has taken.
  abbrev pub position : Subscriber E → Cursor
  position s = position_at s.phase s.delivered

  position-Chain :
      (p : Phase E) (c d : Cursor) (ds : List (Delivery E))
      → Chain c (in_flight p ++ ds) d
      → Chain (position_at p c) (in_hand p ++ ds) d
  position-Chain waiting c d ds h = h
  position-Chain draining c d ds h = h
  position-Chain stopped c d ds h = h
  position-Chain (sending x) c d ds h = h
  position-Chain (sent x) c d ds h = Chain-delivered x c d ds h

  pub outstanding-Chain :
      (current : Cursor) (s : Subscriber E)
      → IsSound current s
      → Chain (position s) (outstanding s) current
  outstanding-Chain current s v = position-Chain s.phase s.delivered current _ v.stream

  abbrev pub received : Option (Delivery E) → List (Delivery E)
  received none = []
  received (some d) = d ∷ []

  run_turn-outstanding :
      (p : Phase E) (turn : Turn) (s t : Subscriber E) (out : Option (Delivery E))
      → s.phase ≡ p
      → s.closed ≡ false
      → run_turn p turn s ≡ some (t, out)
      → outstanding s ≡ received out ++ outstanding t
  unfolding run_turn take_front
  run_turn-outstanding waiting on_notify s t out e c h = ground arith
  run_turn-outstanding draining on_queue s t out e c h = ground arith
  run_turn-outstanding (sending d) on_output s t out e c h = ground arith
  run_turn-outstanding (sent d) on_lock s t out e c h = ground arith
  run_turn-outstanding _ _ s t out e c h = ground arith

  -- A turn of the goroutine of an open subscriber neither drops, repeats nor reorders a delivery:
  -- what was outstanding is what the consumer receives in this turn, then what is outstanding.
  pub run-outstanding :
      (turn : Turn) (s t : Subscriber E) (out : Option (Delivery E))
      → s.closed ≡ false
      → run turn s ≡ some (t, out)
      → outstanding s ≡ received out ++ outstanding t
  unfolding run
  run-outstanding turn s t out c h = run_turn-outstanding s.phase turn s t out refl c h

  -- The turns that hand over what is outstanding, from each place of the goroutine.
  abbrev next_turns : Phase E → List Turn
  next_turns waiting = on_notify ∷ on_queue ∷ on_output ∷ []
  next_turns draining = on_queue ∷ on_output ∷ []
  next_turns (sending d) = on_output ∷ []
  next_turns (sent d) = on_lock ∷ on_queue ∷ on_output ∷ []
  next_turns stopped = []

  -- Several turns, with all that the consumer receives.
  pub run_all : List Turn → Subscriber E → Option (Subscriber E × List (Delivery E))
  run_all [] s = some (s, [])
  run_all (turn ∷ turns) s = elim (run turn s) [
    | none ↦ none
    | some (t, out) ↦ elim (run_all turns t) [
      | none ↦ none
      | some (u, ds) ↦ some (u, received out ++ ds)
    ]
  ]

  delivers_from :
      (p : Phase E) (qs : List (QueuedDelivery E)) (current : Cursor) (s : Subscriber E)
      (d : Delivery E) (ds : List (Delivery E))
      → s.phase ≡ p
      → s.pending ≡ qs
      → IsSound current s
      → outstanding s ≡ d ∷ ds
      → (t : Subscriber E) × (run_all (next_turns p) s ≡ some (t, d ∷ [])) × (outstanding t ≡ ds)
  unfolding run_all run run_turn take_front
  delivers_from (sending x) qs current s d ds e f v h =
      (record s { phase = sent x }, ground arith, ground arith)
  delivers_from stopped qs current s d ds e f v h = absurd (v.running e)
  delivers_from _ [] current s d ds e f v h = absurd (ground arith)
  delivers_from draining (q ∷ qs) current s d ds e f v h = (
    record s { pending = qs; pending_bytes = s.pending_bytes - q.bytes; phase = sent q.delivery },
    ground arith,
    ground arith,
  )
  delivers_from (sent x) (q ∷ qs) current s d ds e f v h = (
    record s {
      delivered = place_after x;
      pending = qs;
      pending_bytes = s.pending_bytes - q.bytes;
      phase = sent q.delivery;
    },
    ground arith,
    ground arith,
  )
  delivers_from waiting (q ∷ qs) current s d ds e f v h = (
    record s {
      notified = false;
      pending = qs;
      pending_bytes = s.pending_bytes - q.bytes;
      phase = sent q.delivery;
    },
    ground arith,
    ground arith,
  )

  -- While anything is outstanding at an open subscriber, the goroutine has turns that hand the
  -- oldest delivery, and it alone, to a consumer that takes it: no wake-up is ever lost.
  pub delivers :
      (current : Cursor) (s : Subscriber E) (d : Delivery E) (ds : List (Delivery E))
      → IsSound current s
      → outstanding s ≡ d ∷ ds
      → (turns : List Turn) × (t : Subscriber E) × (run_all turns s ≡ some (t, d ∷ []))
        × (outstanding t ≡ ds)
  delivers current s d ds v h =
      let (t, ran, left) = delivers_from s.phase s.pending current s d ds refl refl v h in
      (next_turns s.phase, t, ran, left)
