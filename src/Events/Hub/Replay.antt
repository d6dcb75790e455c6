-- ===== src/Events/Hub/Replay.antt =====
-- The replay cut that a subscription starts from.
use mohuddle.Base.{
  ℕ, ◌+◌, ◌≤◌, ◌<◌, ◌≡◌, refl, inl, inr, true, false, List, [], ◌∷◌, none, arith, All, map,
  Bool-cases, ltb, u64_mod, eq_iff,
}
use mohuddle.Events.Cursor.{Cursor, is_zero, Record, Delivery, record_delivery, Wire, Chain}
use mohuddle.Events.Hub.{RetainedRecord, Hub, current, oldest, records_after, replay, has_expired}
use mohuddle.Events.Hub.Window.{IsWindow, Contiguous, Contiguous-length, Decodes}

module _ {E : Type 0} (w : Wire E) where
  abbrev pub as_deliveries : List (Record E) → List (Delivery E)
  as_deliveries = map λ r. record_delivery r

  -- From the place before the window on, all is kept.
  Chain-whole :
      (n lo : ℕ) (rs : List (RetainedRecord E)) (c d : Cursor)
      → n ≤ lo
      → c.event_sequence ≡ lo
      → c.boot_id ≡ d.boot_id
      → Contiguous d.boot_id lo rs d.event_sequence
      → All (Decodes w) rs
      → Chain c (as_deliveries (records_after w n rs)) d
  unfolding records_after
  Chain-whole n lo [] c d le s b h f = (b, ground arith)
  Chain-whole n lo (r ∷ rs) c d le s b h f =
      let later : ltb n r.kept.cursor.event_sequence ≡ true = ground arith in
      let rest = Chain-whole n (lo + 1) rs r.kept.cursor d (omega arith) h.1 h.0 h.2 f.1 in
      rw (later, f.0) ((ground arith, ground arith), rest)

  Chain-after :
      (lo : ℕ) (rs : List (RetainedRecord E)) (c d : Cursor)
      → lo ≤ c.event_sequence
      → c.event_sequence ≤ d.event_sequence
      → c.boot_id ≡ d.boot_id
      → Contiguous d.boot_id lo rs d.event_sequence
      → All (Decodes w) rs
      → Chain c (as_deliveries (records_after w c.event_sequence rs)) d
  unfolding records_after
  Chain-after lo [] c d low high b h f = (b, omega arith)
  Chain-after lo (r ∷ rs) c d low high b h f =
      elim (Bool-cases (ltb c.event_sequence r.kept.cursor.event_sequence)) [
        | inl later ↦
            Chain-whole c.event_sequence lo (r ∷ rs) c d (ground arith) (ground arith) b h f
        | inr before ↦ simp before (Chain-after (lo + 1) rs c d (ground arith) high b h.2 f.1)
      ]

  -- The test for an expired cursor is exact: the cursor lies before the window.
  expired_iff :
      (h : Hub E) (after : Cursor) (lo : ℕ) (rs : List (RetainedRecord E))
      → h.records ≡ rs
      → Contiguous h.boot_id lo rs h.event_sequence
      → after.event_sequence ≤ h.event_sequence
      → h.event_sequence < u64_mod
      → has_expired after h ≡ ltb after.event_sequence lo
  unfolding has_expired oldest current
  expired_iff h after lo [] e c le n = simp e (ground arith)
  expired_iff h after lo (r ∷ rs) e c le n =
      simp e (ground (arith, Contiguous-length h.boot_id (lo + 1) h.event_sequence rs c.2))

  module _ (h : Hub E) (after : Cursor) (v : IsWindow w h) where
    -- With no gap reported, a cursor that is not new lies in the window of the same boot.
    replay-inside :
        is_zero after ≡ false
        → (replay w h after).1 ≡ none
        → (after.boot_id ≡ h.boot_id)
          × (v.no_hole.0 ≤ after.event_sequence)
          × (after.event_sequence ≤ h.event_sequence)
          × ((replay w h after).0 ≡ records_after w after.event_sequence h.records)
    unfolding replay
    replay-inside z g = ground (
      arith,
      expired_iff h after v.no_hole.0 h.records refl v.no_hole.1,
      eq_iff after.boot_id h.boot_id,
      v.in_word,
    )

    -- Replay is complete: where a consumer that resumes from a cursor is given no gap, the replayed
    -- records are, one after the other, every event between its cursor and the hub's.
    pub replay-Chain :
        is_zero after ≡ false
        → (replay w h after).1 ≡ none
        → Chain after (as_deliveries (replay w h after).0) (current h)
    unfolding current
    replay-Chain z g =
        let (b, low, high, e) = replay-inside z g in
        rw e (Chain-after v.no_hole.0 h.records after (current h) low high b v.no_hole.1 v.faithful)

    -- No cursor of the window is refused: a gap is reported only for another boot, for a place that
    -- the hub has not reached, or for one that has left the window.
    pub replay-no_gap :
        after.boot_id ≡ h.boot_id
        → v.no_hole.0 ≤ after.event_sequence
        → after.event_sequence ≤ h.event_sequence
        → (replay w h after).1 ≡ none
    unfolding replay
    replay-no_gap b low high = ground (
      arith,
      expired_iff h after v.no_hole.0 h.records refl v.no_hole.1,
      eq_iff after.boot_id h.boot_id,
      v.in_word,
    )
