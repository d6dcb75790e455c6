-- ===== src/Events/Subscriber.antt =====
-- internal/remote/events/hub.go: one subscriber, its bounded queue and its delivery goroutine.
pub mod Sound
pub mod Order
use mohuddle.Base.{
  ℕ, ◌+◌, ◌-◌, Bool, true, false, ◌||◌, String, List, [], ◌∷◌, ◌++◌, Option, none, some, leb, ltb,
  length, if◌then◌else◌,
}
use Prim.Native.String.{len}
use mohuddle.Events.Cursor.{
  Cursor, Gap, Record, Delivery, record_delivery, gap_delivery, Wire, gap_subscriber_overflow,
}

pub record QueuedDelivery (E : Type 0) : Type 0 where
  pub delivery : Delivery E
  pub bytes : ℕ

-- Where the goroutine of `run` stands: in the outer select, before it looks at the queue, in the
-- inner select with a delivery in hand, past it before it notes what the consumer took, or returned.
pub data Phase (E : Type 0) : Type 0 where
  waiting draining stopped : Phase E
  sending sent : Delivery E → Phase E

-- `notify` has room for one signal; `done` is closed with `closed`.
pub record Subscriber (E : Type 0) : Type 0 where
  pub capacity : ℕ
  pub max_bytes : ℕ
  pub pending : List (QueuedDelivery E)
  pub pending_bytes : ℕ
  pub delivered : Cursor
  pub notified : Bool
  pub closed : Bool
  pub phase : Phase E

module _ {E : Type 0} where
  unfoldable pub new_subscriber : ℕ → ℕ → Cursor → Subscriber E
  new_subscriber capacity max_bytes current = record {
    capacity = capacity;
    max_bytes = max_bytes;
    pending = [];
    pending_bytes = 0;
    delivered = current;
    notified = false;
    closed = false;
    phase = waiting;
  }

  unfoldable pub wake : Subscriber E → Subscriber E
  wake s = record s { notified = true }

  unfoldable pub replace_with_gap : Wire E → String → Cursor → Cursor → Subscriber E → Subscriber E
  replace_with_gap w reason oldest current s = record s {
    pending = record { delivery = gap_delivery gap; bytes = len (w.marshal_gap gap) } ∷ [];
    pending_bytes = len (w.marshal_gap gap);
  }
    where
      gap : Gap
      gap = record {
        reason = reason;
        requested = s.delivered;
        oldest_available = oldest;
        current = current;
      }

  unfoldable pub append_record : Record E → ℕ → Subscriber E → Subscriber E
  append_record r bytes s = record s {
    pending = s.pending ++ record { delivery = record_delivery r; bytes = bytes } ∷ [];
    pending_bytes = s.pending_bytes + bytes;
  }

  unfoldable pub enqueue_record :
      Wire E → Record E → ℕ → Cursor → Cursor → Subscriber E → Subscriber E
  enqueue_record w r bytes oldest current s =
      if s.closed
      then s
      else wake (
          if leb s.capacity (length s.pending) || ltb s.max_bytes (s.pending_bytes + bytes)
          then replace_with_gap w gap_subscriber_overflow oldest current s
          else append_record r bytes s)

  pub enqueue_gap : Wire E → String → Cursor → Cursor → Subscriber E → Subscriber E
  enqueue_gap w reason oldest current s =
      if s.closed then s else wake (replace_with_gap w reason oldest current s)

  pub close : Subscriber E → Subscriber E
  close s = record s { closed = true; pending = []; pending_bytes = 0 }

  -- What `delivered` becomes when the consumer has taken a delivery.
  abbrev pub place_after : Delivery E → Cursor
  place_after (record_delivery r) = r.cursor
  place_after (gap_delivery g) = g.current

-- What the scheduler lets the goroutine do next: take the signal of `notify`, see `done` closed,
-- look at the queue, hand its delivery to the consumer, or lock again to note that.
pub data Turn : Type 0 where
  on_notify on_done on_queue on_output on_lock : Turn

module _ {E : Type 0} where
  take_front : List (QueuedDelivery E) → Subscriber E → Subscriber E
  take_front [] s = record s { phase = waiting }
  take_front (q ∷ rest) s = record s {
    pending = rest;
    pending_bytes = s.pending_bytes - q.bytes;
    phase = sending q.delivery;
  }

  unfoldable pub run_turn :
      Phase E → Turn → Subscriber E → Option (Subscriber E × Option (Delivery E))
  unfolding take_front
  run_turn waiting on_notify s =
      if s.notified then some (record s { notified = false; phase = draining }, none) else none
  run_turn waiting on_done s = if s.closed then some (record s { phase = stopped }, none) else none
  run_turn draining on_queue s = some (take_front s.pending s, none)
  run_turn (sending d) on_output s = some (record s { phase = sent d }, some d)
  run_turn (sent d) on_lock s =
      some (record s { delivered = place_after d; phase = draining }, none)
  run_turn (sending d) on_done s =
      if s.closed then some (record s { phase = stopped }, none) else none
  run_turn _ _ s = none

  -- One turn of the goroutine, with what the consumer receives; `none` where it cannot be taken.
  unfoldable pub run : Turn → Subscriber E → Option (Subscriber E × Option (Delivery E))
  unfolding run_turn
  run turn s = run_turn s.phase turn s
