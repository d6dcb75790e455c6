-- ===== src/Events/Hub/Healthy.antt =====
-- What every method of the hub keeps: the window, and the stream of every registered subscriber.
use mohuddle.Base.{
  ℕ, zero, suc, ◌+◌, ◌<◌, ◌≡◌, refl, sym, subst, inl, inr, true, false, String, Option, some, arith,
  Bool-cases, u64_mod, Result, ok, err, or_fail, ℤ, pos, negsuc, nat_eq, first_step, or_fail-eq-ok,
  AllValues, map_values, AllValues-map_values,
}
use Prim.Native.String.{len}
use mohuddle.Events.Cursor.{Cursor, Record, Bytes, Wire, RoundTrips, Follows}
use mohuddle.Events.Subscriber.{enqueue_record}
use mohuddle.Events.Subscriber.Sound.{IsSound, enqueue_record-IsSound}
use mohuddle.Events.Hub.{
  Hub, Options, empty_hub, new, limit, boot, current, oldest, retain, fan_out, advance, publish,
  publish_copied, publish_record, publish_result, HubError, hub_closed, copy_event,
}
use mohuddle.Events.Hub.Window.{IsWindow, window_of, retain-IsWindow}

module _ {E : Type 0} (w : Wire E) where
  pub record IsHealthy (h : Hub E) : Type 0 where
    pub window : IsWindow w h
    pub streams : AllValues (IsSound (current h)) h.subscribers

  limit_pos : (n : ℤ) (fallback m : ℕ) → 0 < fallback → limit n fallback ≡ ok m → 0 < m
  unfolding limit
  limit_pos (pos zero) fallback m h e = ground arith
  limit_pos (pos (suc n)) fallback m h e = ground arith
  limit_pos (negsuc n) fallback m h e = cc

  empty_hub-IsHealthy :
      (boot_id : String) (n max_records max_bytes : ℕ)
      → IsHealthy (empty_hub boot_id n max_records max_bytes)
  unfolding empty_hub
  empty_hub-IsHealthy boot_id n max_records max_bytes = record {
    window = record {
      no_hole = (0, refl);
      counted = refl;
      few = omega arith;
      small = omega arith;
      faithful = tt;
      measured = tt;
      in_word = omega arith;
    };
    streams = tt;
  }

  empty_hub_positive :
      (boot_id : String) (n max_records max_bytes : ℕ)
      → 0 < max_records
      → 0 < max_bytes
      → let h = empty_hub boot_id n max_records max_bytes in
        IsHealthy h × (0 < h.max_records) × (0 < h.max_bytes)
  unfolding empty_hub
  empty_hub_positive boot_id n max_records max_bytes h k =
      (empty_hub-IsHealthy boot_id n max_records max_bytes, h, k)

  -- A new hub is healthy, and its limits are positive.
  pub new-IsHealthy :
      (o : Options) (drawn : Option String) (h : Hub E)
      → new o drawn ≡ ok h
      → IsHealthy h × (0 < h.max_records) × (0 < h.max_bytes)
  unfolding new
  new-IsHealthy o drawn h e =
      let (boot_id, e1, _) = first_step (boot o.boot_id drawn) _ e in
      let (max_records, e2, r) = first_step (limit o.max_records 4096) _ e1 in
      let (max_bytes, e3, b) = first_step (limit o.max_bytes 8_388_608) _ e2 in
      subst (λ h. IsHealthy h × (0 < h.max_records) × (0 < h.max_bytes)) (cc e3)
        (empty_hub_positive boot_id o.initial_message_sequence max_records max_bytes
          (limit_pos o.max_records 4096 max_records (omega arith) r)
          (limit_pos o.max_bytes 8_388_608 max_bytes (omega arith) b))

  pub copy_event-decoded :
      (e copied : E)
      → copy_event w e ≡ ok copied
      → (d : Bytes) × (w.unmarshal_event d ≡ some copied)
  unfolding copy_event
  copy_event-decoded e copied h =
      let (d, k, _) = first_step (or_fail (w.marshal_event e) _) _ h in
      (d, or_fail-eq-ok (w.unmarshal_event d) _ k)

  fan_out-retain-IsHealthy :
      (g : Hub E) (r : Record E) (b : Bytes) (before : Cursor)
      → IsWindow w (record g { event_sequence = before.event_sequence })
      → AllValues (IsSound before) g.subscribers
      → Follows before r.cursor
      → current g ≡ r.cursor
      → r.cursor.event_sequence < u64_mod
      → w.unmarshal_record b ≡ r
      → IsHealthy (fan_out w b r.cursor (retain r b g))
  unfolding fan_out retain current
  fan_out-retain-IsHealthy g r b before v s f c n back = record {
    window = window_of (retain r b g) _ _ _ _ kept;
    streams =
        subst (λ k. AllValues (IsSound {E = E} k) (fan_out w b r.cursor (retain r b g)).subscribers)
          (sym c) (fed (oldest (retain r b g)));
  }
    where
      kept : IsWindow w (retain r b g)
      kept =
          retain-IsWindow w g r b before.event_sequence v (ground arith) (ground arith)
            (ground arith) (ground arith) back

      fed :
          (o : Cursor)
          → AllValues (IsSound r.cursor) (
              map_values (enqueue_record w (w.unmarshal_record b) (len b) o r.cursor) g.subscribers)
      fed o = rw back (
          AllValues-map_values (IsSound before) (IsSound r.cursor)
            (enqueue_record w r (len b) o r.cursor)
            (λ t h. enqueue_record-IsSound w o before t h r (len b) f) g.subscribers s)

  advance_cursor :
      (h : Hub E) (e : E)
      → h.event_sequence + 1 < u64_mod
      → Follows (current h) (current (advance w e h))
  unfolding advance current
  advance_cursor h e n = (refl, omega arith)

  module _ (law : RoundTrips w) where
    -- What `Publish` does with a decoded event: it encodes, so the record is retained and fanned out.
    pub publish_copied_lem :
        (h : Hub E) (e : E) (d : Bytes)
        → w.unmarshal_event d ≡ some e
        → h.closed ≡ false
        → (b : Bytes) × (w.unmarshal_record b
            ≡ record { cursor = current (advance w e h); event = e })
          × (publish_copied w h e ≡ (
            fan_out w b
                (current (advance w e h))
                (retain (record { cursor = current (advance w e h); event = e }) b (advance w e h)),
            ok (current (advance w e h)),
          ))
    unfolding publish_copied publish_record
    publish_copied_lem h e d decoded c =
        let (b, encoded, back) = law.round_trip d e (current (advance w e h)) decoded in
        (b, back, ground arith)

    publish_closed :
        (h : Hub E) (e : E) → h.closed ≡ true → publish_copied w h e ≡ (h, err hub_closed)
    unfolding publish_copied
    publish_closed h e c = ground arith

    publish_open :
        (h : Hub E) (e : E) (d : Bytes)
        → w.unmarshal_event d ≡ some e
        → h.closed ≡ false
        → h.event_sequence + 1 < u64_mod
        → IsHealthy h
        → IsHealthy (publish_copied w h e).0
    unfolding current advance
    publish_open h e d decoded c n v =
        let (b, back, done) = publish_copied_lem h e d decoded c in
        subst (λ r. IsHealthy r.0) (sym done)
          (fan_out-retain-IsHealthy (advance w e h) _ b (current h) (window_of h _ _ _ _ v.window)
            v.streams (advance_cursor h e n) refl (omega arith) back)

    -- Publishing keeps a hub healthy, on every branch, while the 64-bit sequence does not wrap.
    pub publish-IsHealthy :
        (h : Hub E) (e : E)
        → h.event_sequence + 1 < u64_mod
        → IsHealthy h
        → IsHealthy (publish w h e).0
    unfolding publish publish_result
    publish-IsHealthy h e n v = go (copy_event w e) refl
      where
        go : (r : Result HubError E) → copy_event w e ≡ r → IsHealthy (publish_result w h r).0
        go (err x) q = v
        go (ok copied) q = elim (Bool-cases h.closed) [
          | inl shut ↦ subst (λ r. IsHealthy r.0) (sym (publish_closed h copied shut)) v
          | inr live ↦
              let (d, decoded) = copy_event-decoded e copied q in
              publish_open h copied d decoded live n v
        ]
