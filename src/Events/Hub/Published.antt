-- ===== src/Events/Hub/Published.antt =====
-- internal/remote/events/hub.go: what an event that is published leaves for each subscriber.
use Prim.Native.String.{len}
use mathlib.Core.List.{map-append}
use mohuddle.Base.{
  ℕ, ◌+◌, ◌≤◌, ◌<◌, ◌≡◌, refl, sym, ap, subst, ◌∙◌, ◌⊎◌, inl, inr, true, false, ◌||◌, List, [], ◌∷◌,
  ◌++◌, append_assoc, some, Result, ok, Bool-cases, ltb, leb, length, lookup, map_values, nat_eq,
  arith, ◌==◌,
}
use mohuddle.Events.Cursor.{
  Cursor, Gap, Wire, RoundTrips, Record, Bytes, record_delivery, gap_delivery,
}
use mohuddle.Events.Subscriber.{Subscriber, enqueue_record, replace_with_gap, append_record, wake}
use mohuddle.Events.Subscriber.Sound.{deliveries}
use mohuddle.Events.Subscriber.Order.{outstanding, in_hand}
use mohuddle.Events.Hub.{
  Hub, HubError, publish, publish_result, copy_event, advance, fan_out, retain, current, oldest,
}
use mohuddle.Events.Hub.Healthy.{publish_copied_lem, copy_event-decoded}

lookup-map_values {ℓ} :
    {V : Type ℓ} (f : V → V) (id : ℕ) (m : List (ℕ × V)) (v : V)
    → lookup id m ≡ some v
    → lookup id (map_values f m) ≡ some (f v)
unfolding lookup map_values
lookup-map_values f id [] v h = cc
lookup-map_values f id ((k, x) ∷ m) v h = elim (Bool-cases (k == id)) [
  | inl e ↦ ground (arith, h, e)
  | inr e ↦ ground (arith, h, e, lookup-map_values f id m v (ground (arith, h, e)))
]

module _ {E : Type 0} where
  -- The queue has no room for so many bytes more.
  abbrev pub IsFull : ℕ → Subscriber E → Type 0
  IsFull bytes s = (s.capacity ≤ length s.pending) ⊎ (s.max_bytes < s.pending_bytes + bytes)

  -- A gap up to the event takes the place of what waits.
  abbrev pub Overflows : Cursor → Subscriber E → Subscriber E → Type 0
  Overflows now s t =
      (g : Gap) × (outstanding t ≡ in_hand s.phase ++ gap_delivery g ∷ [])
      × (g.current ≡ now)
      × (g.requested ≡ s.delivered)

  -- The event is the last of what waits; or the queue is full, and a gap stands for it.
  abbrev pub Takes : Record E → ℕ → Subscriber E → Subscriber E → Type 0
  Takes r bytes s t =
      ((outstanding t ≡ outstanding s ++ record_delivery r ∷ [])
        × (length s.pending < s.capacity)
        × (s.pending_bytes + bytes ≤ s.max_bytes))
      ⊎ (IsFull bytes s × Overflows r.cursor s t)

  enqueue_record-Takes :
      (w : Wire E) (r : Record E) (bytes : ℕ) (from : Cursor) (s : Subscriber E)
      → s.closed ≡ false
      → Takes r bytes s (enqueue_record w r bytes from r.cursor s)
  unfolding enqueue_record replace_with_gap append_record wake
  enqueue_record-Takes w r bytes from s live =
      elim (Bool-cases
        (leb s.capacity (length s.pending) || ltb s.max_bytes (s.pending_bytes + bytes))) [
          | inl full ↦ simp (live, full) (inr (full_cases full, (_, refl, refl, refl)))
          | inr free ↦ simp (live, free) (inl (appended, ground arith, ground arith))
        ]
    where
      full_cases :
          (leb s.capacity (length s.pending) || ltb s.max_bytes (s.pending_bytes + bytes)) ≡ true
          → IsFull bytes s
      full_cases h = elim (Bool-cases (leb s.capacity (length s.pending))) [
        | inl e ↦ inl (ground arith)
        | inr e ↦ inr (ground arith)
      ]

      appended :
          in_hand s.phase
            ++ deliveries (s.pending ++ record { delivery = record_delivery r; bytes = bytes } ∷ [])
          ≡ (in_hand s.phase ++ deliveries s.pending) ++ record_delivery r ∷ []
      appended =
          ap (λ ds. in_hand s.phase ++ ds) (map-append _ s.pending _)
          ∙ sym (append_assoc (in_hand s.phase) (deliveries s.pending) (record_delivery r ∷ []))

  -- What a hub and the answer of a publication say of a subscriber.
  abbrev pub Reaches : (copied : E) → ℕ → Subscriber E → Hub E × Result HubError Cursor → Type 0
  Reaches copied id s (k, answer) =
      (b : Bytes) × (t : Subscriber E) × (lookup id k.subscribers ≡ some t)
      × (answer ≡ ok (current k))
      × Takes (record { cursor = current k; event = copied }) (len b) s t

  module _ (w : Wire E) (law : RoundTrips w) where
    fan_out-Reaches :
        (g : Hub E) (copied : E) (b : Bytes) (id : ℕ) (s : Subscriber E)
        → w.unmarshal_record b ≡ record { cursor = current g; event = copied }
        → lookup id g.subscribers ≡ some s
        → s.closed ≡ false
        → Reaches copied id s (
          fan_out w b (current g) (retain (record { cursor = current g; event = copied }) b g),
          ok (current g),
        )
    unfolding fan_out retain current
    fan_out-Reaches g copied b id s back found live =
        let r : Record E = record { cursor = current g; event = copied } in
        let from = oldest (retain r b g) in
        (
          b,
          enqueue_record w (w.unmarshal_record b) (len b) from (current g) s,
          lookup-map_values (enqueue_record w (w.unmarshal_record b) (len b) from (current g)) id
              g.subscribers s found,
          refl,
          subst (λ q. Takes r (len b) s (enqueue_record w q (len b) from (current g) s)) (sym back)
              (enqueue_record-Takes w r (len b) from s live),
        )

    pub publish-Takes :
        (h : Hub E) (e copied : E) (id : ℕ) (s : Subscriber E)
        → copy_event w e ≡ ok copied
        → h.closed ≡ false
        → lookup id h.subscribers ≡ some s
        → s.closed ≡ false
        → Reaches copied id s (publish w h e)
    unfolding publish publish_result advance
    publish-Takes h e copied id s copies live found s_live =
        let (d, decoded) = copy_event-decoded w e copied copies in
        let (b, back, done) = publish_copied_lem w law h copied d decoded live in
        subst (λ c. Reaches copied id s (publish_result w h c)) (sym copies)
          (subst (Reaches copied id s) (sym done)
            (fan_out-Reaches (advance w copied h) copied b id s back found s_live))
