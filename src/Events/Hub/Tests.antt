-- ===== src/Events/Hub/Tests.antt =====
-- Runs of the hub on a small wire format, and the theorems at concrete inputs.
use Prim.Native.Char.{code}
use mohuddle.Base.{
  false, ℕ, ◌==◌, Bool, true, zero, suc, ◌≡◌, refl, String, List, [], ◌∷◌, Option, none, some, ok,
  arith, pos, nat_eq, map_values, insert, lookup,
}
use mohuddle.Events.Cursor.{Cursor, is_zero, Gap, gap_delivery, Chain, Record, Wire, RoundTrips}
use mohuddle.Events.Hub.{
  Hub, Options, empty_hub, new, current, register, subscribe, subscribe_open, copy_event, publish,
  publish_result, publish_copied, publish_record, advance, fan_out, retain, trim, oldest, oldest_of,
  RetainedRecord, replay, has_expired,
}
use mohuddle.Events.Subscriber.{
  Subscriber, waiting, Turn, new_subscriber, enqueue_record, wake, replace_with_gap, append_record,
}
use mohuddle.Events.Subscriber.Order.{outstanding, run_all}
use mohuddle.Events.Hub.Window.{IsWindow}
use mohuddle.Events.Hub.Replay.{as_deliveries, replay-Chain, replay-no_gap}
use mohuddle.Events.Hub.History.{Reach, here, next, publishes, subscribes, history_delivers}

-- A number in unary, ended by a dot, before a text.
put : ℕ → String → String
put zero s = String.◌∷◌ "." s
put (suc n) s = String.◌∷◌ "1" (put n s)

take_digit : Bool → ℕ × String → String → ℕ × String
take_digit true p s = (suc p.0, p.1)
take_digit false p s = (0, s)

take_number : String → ℕ × String
unfolding take_digit
take_number String.[] = (0, String.[])
take_number (String.◌∷◌ c s) = take_digit (code c == 49) (take_number s) s

take_number-put : (n : ℕ) (s : String) → take_number (put n s) ≡ (n, s)
unfolding take_number put
take_number-put zero s = refl
take_number-put (suc n) s = rw (take_number-put n s)

read_record : String → Record ℕ
read_record s =
    let (events, s1) = take_number s in
    let (messages, s2) = take_number s1 in
    let (event, boot) = take_number s2 in
    record {
      cursor = record { boot_id = boot; event_sequence = events; message_sequence = messages };
      event = event;
    }

-- An event is the message sequence that it carries, 0 for none.
abbrev mark : ℕ → Option ℕ
mark zero = none
mark (suc n) = some (suc n)

abbrev unary : Wire ℕ
unary = record {
  marshal_event = λ e. some (put e "");
  unmarshal_event = λ d. some (take_number d).0;
  message_sequence = mark;
  marshal_record = λ r.
      some (
        put r.cursor.event_sequence (put r.cursor.message_sequence (put r.event r.cursor.boot_id)));
  unmarshal_record = read_record;
  marshal_gap = λ g. put g.current.event_sequence g.reason;
}

unary-RoundTrips : RoundTrips unary
unfolding read_record
unary-RoundTrips = record { round_trip = λ d e c h. (_, refl, simp take_number-put) }

abbrev small : Options
small = record {
  boot_id = "boot";
  initial_message_sequence = 4;
  max_records = pos 3;
  max_bytes = pos 100;
}

abbrev started : Hub ℕ
started = record {
  boot_id = "boot";
  event_sequence = 0;
  message_sequence = 4;
  max_records = 3;
  max_bytes = 100;
  record_bytes = 0;
  records = [];
  next_subscriber = 0;
  subscribers = [];
  closed = false;
}

started_lem : new small none ≡ ok started
unfolding new empty_hub
started_lem = refl

abbrev at : ℕ → ℕ → Cursor
at n m = record { boot_id = "boot"; event_sequence = n; message_sequence = m }

abbrev first : RetainedRecord ℕ
first = record {
  kept = record { cursor = at 1 7; event = 7 };
  encoded = "1.1111111.1111111.boot";
  bytes = 22;
}

abbrev second : RetainedRecord ℕ
second = record {
  kept = record { cursor = at 2 7; event = 0 };
  encoded = "11.1111111..boot";
  bytes = 16;
}

-- Room for one delivery: the second event has turned the queue into a gap.
abbrev overflow : Gap
overflow = record {
  reason = "subscriber_overflow";
  requested = at 0 4;
  oldest_available = at 1 7;
  current = at 2 7;
}

abbrev overflowed : Subscriber ℕ
overflowed = record {
  capacity = 1;
  max_bytes = 100;
  pending = record { delivery = gap_delivery overflow; bytes = 22 } ∷ [];
  pending_bytes = 22;
  delivered = at 0 4;
  notified = true;
  closed = false;
  phase = waiting;
}

abbrev two_events : Hub ℕ
two_events = record {
  boot_id = "boot";
  event_sequence = 2;
  message_sequence = 7;
  max_records = 3;
  max_bytes = 100;
  record_bytes = 38;
  records = first ∷ second ∷ [];
  next_subscriber = 1;
  subscribers = (1, overflowed) ∷ [];
  closed = false;
}

-- A subscription, then two events.
two_events-Reach : Reach unary started two_events
unfolding subscribe subscribe_open register new_subscriber publish publish_result copy_event
    publish_copied publish_record advance fan_out retain trim oldest oldest_of current
    enqueue_record replace_with_gap append_record wake map_values insert read_record take_number put
two_events-Reach =
    next (next (next here (subscribes (at 0 4) (pos 1))) (publishes 7 (omega arith)))
      (publishes 0 (omega arith))

found : lookup 1 two_events.subscribers ≡ some overflowed
unfolding lookup
found = refl

two_events-IsWindow : IsWindow unary two_events
unfolding read_record take_number put
two_events-IsWindow = record {
  no_hole = (0, (refl, refl, (refl, refl, refl)));
  counted = refl;
  few = omega arith;
  small = omega arith;
  faithful = (refl, (refl, tt));
  measured = (refl, (refl, tt));
  in_word = omega arith;
}

abbrev listening : Subscriber ℕ
listening = record {
  capacity = 1;
  max_bytes = 100;
  pending = [];
  pending_bytes = 0;
  delivered = at 0 4;
  notified = false;
  closed = false;
  phase = waiting;
}

abbrev one_listens : Hub ℕ
one_listens = record started { next_subscriber = 1; subscribers = (1, listening) ∷ [] }

history_delivers_example :
    (turns : List Turn) × (t : Subscriber ℕ) × (run_all turns overflowed
      ≡ some (t, gap_delivery overflow ∷ []))
    × (outstanding t ≡ [])
history_delivers_example =
    history_delivers unary unary-RoundTrips small none started two_events 1 overflowed
      (gap_delivery overflow) [] started_lem two_events-Reach found refl

replay-Chain_example :
    Chain (at 1 7) (as_deliveries unary (replay unary two_events (at 1 7)).0) (current two_events)
unfolding replay is_zero has_expired oldest oldest_of
replay-Chain_example = replay-Chain unary two_events (at 1 7) two_events-IsWindow refl refl

replay-no_gap_example : (replay unary two_events (at 1 7)).1 ≡ none
unfolding two_events-IsWindow
replay-no_gap_example =
    replay-no_gap unary two_events (at 1 7) two_events-IsWindow refl (omega arith) (omega arith)
