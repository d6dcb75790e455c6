-- ===== src/Events/Hub/Methods.antt =====
-- internal/remote/events/hub.go: the other methods of the hub.
use mohuddle.Base.{
  ℕ, ◌<◌, ◌≡◌, refl, sym, subst, ◌⊎◌, inl, inr, ◌||◌, String, Option, none, some, arith, Bool-cases,
  ℤ, pos, negsuc, nat_eq, AllValues-map_values, AllValues-insert, AllValues-delete,
  AllValues-lookup, ◌==◌, is_empty, lookup, insert,
}
use mohuddle.Events.Cursor.{Cursor, Delivery, Wire}
use mohuddle.Events.Subscriber.{Subscriber, enqueue_gap, Turn, run}
use mohuddle.Events.Subscriber.Sound.{
  IsSound, enqueue_gap-IsSound, new_subscriber-IsSound, run-IsSound,
}
use mohuddle.Events.Hub.{
  Hub, current, rotate, invalidate, register, subscribe, subscribe_open, cancel, close,
}
use mohuddle.Events.Hub.Window.{window_of}
use mohuddle.Events.Hub.Healthy.{IsHealthy}

module _ {E : Type 0} (w : Wire E) where
  rotate-IsHealthy :
      (reason boot_id : String) (h : Hub E)
      → IsHealthy w h
      → IsHealthy w (rotate w reason boot_id h)
  unfolding rotate current
  rotate-IsHealthy reason boot_id h v = record {
    window = record {
      no_hole = (0, refl);
      counted = refl;
      few = omega arith;
      small = omega arith;
      faithful = tt;
      measured = tt;
      in_word = omega arith;
    };
    streams =
        AllValues-map_values (IsSound (current h)) (IsSound now) (enqueue_gap w reason now now)
          (λ s k. enqueue_gap-IsSound w now (current h) s k reason now) h.subscribers v.streams;
  }
    where
      now : Cursor
      now = record { boot_id = boot_id; event_sequence = 0; message_sequence = h.message_sequence }

  pub invalidate_cases :
      (h : Hub E) (reason : String) (drawn : Option String)
      → ((invalidate w h reason drawn).0 ≡ h)
        ⊎ ((boot : String) × ((invalidate w h reason drawn).0 ≡ rotate w reason boot h))
  unfolding invalidate
  invalidate_cases h reason none = inl (ground arith)
  invalidate_cases h reason (some boot) = elim (Bool-cases (is_empty reason || h.closed)) [
    | inl refused ↦ inl (ground arith)
    | inr taken ↦ inr (boot, ground arith)
  ]

  pub invalidate-IsHealthy :
      (h : Hub E) (reason : String) (drawn : Option String)
      → IsHealthy w h
      → IsHealthy w (invalidate w h reason drawn).0
  invalidate-IsHealthy h reason drawn v = elim (invalidate_cases h reason drawn) [
    | inl same ↦ subst (IsHealthy w) (sym same) v
    | inr (boot, rotated) ↦ subst (IsHealthy w) (sym rotated) (rotate-IsHealthy reason boot h v)
  ]

  register-IsHealthy : (h : Hub E) (n : ℕ) → 0 < n → IsHealthy w h → IsHealthy w (register n h)
  unfolding register current
  register-IsHealthy h n p v = record {
    window = window_of h _ _ _ _ v.window;
    streams =
        AllValues-insert (IsSound (current h)) _ _ h.subscribers
          (new_subscriber-IsSound n h.max_bytes (current h) p) v.streams;
  }

  subscribe_cases :
      (h : Hub E) (after : Cursor) (capacity : ℤ)
      → ((subscribe w h after capacity).0 ≡ h)
        ⊎ ((n : ℕ) × (0 < n) × ((subscribe w h after capacity).0 ≡ register n h))
  unfolding subscribe subscribe_open
  subscribe_cases h after (negsuc n) = inl refl
  subscribe_cases h after (pos n) = elim (Bool-cases (n == 0 || h.closed)) [
    | inl refused ↦ inl (ground arith)
    | inr taken ↦ inr (n, ground arith, ground arith)
  ]

  pub subscribe-IsHealthy :
      (h : Hub E) (after : Cursor) (capacity : ℤ)
      → IsHealthy w h
      → IsHealthy w (subscribe w h after capacity).0
  subscribe-IsHealthy h after capacity v = elim (subscribe_cases h after capacity) [
    | inl same ↦ subst (IsHealthy w) (sym same) v
    | inr (n, p, added) ↦ subst (IsHealthy w) (sym added) (register-IsHealthy h n p v)
  ]

  pub cancel-IsHealthy : (h : Hub E) (id : ℕ) → IsHealthy w h → IsHealthy w (cancel h id).0
  unfolding cancel current
  cancel-IsHealthy h id v = record {
    window = window_of h _ _ _ _ v.window;
    streams = AllValues-delete (IsSound (current h)) id h.subscribers v.streams;
  }

  pub close-IsHealthy : (h : Hub E) → IsHealthy w h → IsHealthy w (close h).0
  unfolding close current
  close-IsHealthy h v = elim (Bool-cases h.closed) [
    | inl shut ↦ simp shut v
    | inr live ↦ simp live (record { window = window_of h _ _ _ _ v.window; streams = tt })
  ]

  pub turn-IsHealthy :
      (h : Hub E) (id : ℕ) (turn : Turn) (s t : Subscriber E) (out : Option (Delivery E))
      → lookup id h.subscribers ≡ some s
      → run turn s ≡ some (t, out)
      → IsHealthy w h
      → IsHealthy w (record h { subscribers = insert id t h.subscribers })
  unfolding current
  turn-IsHealthy h id turn s t out found ran v = record {
    window = window_of h _ _ _ _ v.window;
    streams =
        AllValues-insert (IsSound (current h)) id t h.subscribers
          (run-IsSound turn (current h) s t out
            (AllValues-lookup (IsSound (current h)) id h.subscribers s found v.streams) ran)
          v.streams;
  }
