-- ===== src/Events/Hub/History.antt =====
-- Histories of a hub: its methods and the turns of the delivery goroutines, in any order.
use mohuddle.Base.{
  ℕ, ◌+◌, ◌<◌, ◌≡◌, String, Option, some, ℤ, ok, u64_mod, nat_eq, AllValues-lookup, lookup, insert,
  List, [], ◌∷◌,
}
use mohuddle.Events.Cursor.{Cursor, Delivery, Wire, RoundTrips}
use mohuddle.Events.Subscriber.{Subscriber, Turn, run}
use mohuddle.Events.Subscriber.Sound.{IsSound}
use mohuddle.Events.Subscriber.Order.{outstanding, run_all, delivers}
use mohuddle.Events.Hub.{Hub, Options, new, current, publish, invalidate, subscribe, cancel, close}
use mohuddle.Events.Hub.Healthy.{IsHealthy, new-IsHealthy, publish-IsHealthy}
use mohuddle.Events.Hub.Methods.{
  invalidate-IsHealthy, subscribe-IsHealthy, cancel-IsHealthy, close-IsHealthy, turn-IsHealthy,
}

module _ {E : Type 0} where
  -- The hub after a registered subscriber has taken a turn.
  abbrev pub with_subscriber : ℕ → Subscriber E → Hub E → Hub E
  with_subscriber id s h = record h { subscribers = insert id s h.subscribers }

-- One method, or one turn. An epoch has fewer than 2^64 events.
pub data Step {E : Type 0} (w : Wire E) (h : Hub E) : Hub E → Type 0 where
  publishes : (e : E) → h.event_sequence + 1 < u64_mod → Step w h (publish w h e).0
  invalidates : (reason : String) (drawn : Option String) → Step w h (invalidate w h reason drawn).0
  subscribes : (after : Cursor) (capacity : ℤ) → Step w h (subscribe w h after capacity).0
  cancels : (id : ℕ) → Step w h (cancel h id).0
  closes : Step w h (close h).0
  turns :
      (id : ℕ) (turn : Turn) (s t : Subscriber E) (out : Option (Delivery E))
      → lookup id h.subscribers ≡ some s
      → run turn s ≡ some (t, out)
      → Step w h (with_subscriber id t h)

pub data Reach {E : Type 0} (w : Wire E) (h : Hub E) : Hub E → Type 0 where
  here : Reach w h h
  next : {g k : Hub E} → Reach w h g → Step w g k → Reach w h k

module _ {E : Type 0} (w : Wire E) (law : RoundTrips w) where
  Step-IsHealthy : {h k : Hub E} → Step w h k → IsHealthy w h → IsHealthy w k
  Step-IsHealthy {h} (publishes e n) v = publish-IsHealthy w law h e n v
  Step-IsHealthy {h} (invalidates reason drawn) v = invalidate-IsHealthy w h reason drawn v
  Step-IsHealthy {h} (subscribes after capacity) v = subscribe-IsHealthy w h after capacity v
  Step-IsHealthy {h} (cancels id) v = cancel-IsHealthy w h id v
  Step-IsHealthy {h} closes v = close-IsHealthy w h v
  Step-IsHealthy {h} (turns id turn s t out found ran) v =
      turn-IsHealthy w h id turn s t out found ran v

  Reach-IsHealthy : {h k : Hub E} → Reach w h k → IsHealthy w h → IsHealthy w k
  Reach-IsHealthy here v = v
  Reach-IsHealthy (next r st) v = Step-IsHealthy st (Reach-IsHealthy r v)

  -- After any history of a new hub, while anything is outstanding for a registered subscriber, its
  -- goroutine has turns that hand the oldest delivery, and it alone, to a consumer that takes it,
  -- and leave the others outstanding: no wake-up is lost.
  pub history_delivers :
      (o : Options) (drawn : Option String) (h k : Hub E) (id : ℕ) (s : Subscriber E)
      (d : Delivery E) (ds : List (Delivery E))
      → new o drawn ≡ ok h
      → Reach w h k
      → lookup id k.subscribers ≡ some s
      → outstanding s ≡ d ∷ ds
      → (turns : List Turn) × (t : Subscriber E) × (run_all turns s ≡ some (t, d ∷ []))
        × (outstanding t ≡ ds)
  history_delivers o drawn h k id s d ds made r found e =
      let v = Reach-IsHealthy r (new-IsHealthy w o drawn h made).0 in
      delivers (current k) s d ds
        (AllValues-lookup (IsSound (current k)) id k.subscribers s found v.streams) e
