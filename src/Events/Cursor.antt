-- ===== src/Events/Cursor.antt =====
-- internal/remote/events/hub.go: cursors, gaps, records and deliveries, and what the hub uses of
-- encoding/json.
use mohuddle.Base.{ℕ, ◌+◌, ◌≡◌, String, Bool, ◌&&◌, ◌==◌, is_empty, List, [], ◌∷◌, Option, some}

pub record Cursor : Type 0 where
  pub boot_id : String
  pub event_sequence : ℕ  -- uint64
  pub message_sequence : ℕ  -- uint64

unfoldable pub is_zero : Cursor → Bool
is_zero c = is_empty c.boot_id && c.event_sequence == 0 && c.message_sequence == 0

-- A gap reason is a string; `Invalidate` takes any but the empty one.
abbrev pub gap_boot_mismatch : String
gap_boot_mismatch = "boot_mismatch"

abbrev pub gap_cursor_expired : String
gap_cursor_expired = "cursor_expired"

abbrev pub gap_subscriber_overflow : String
gap_subscriber_overflow = "subscriber_overflow"

pub record Gap : Type 0 where
  pub reason : String
  pub requested : Cursor
  pub oldest_available : Cursor
  pub current : Cursor

pub record Record (E : Type 0) : Type 0 where
  pub cursor : Cursor
  pub event : E

-- Exactly one of the two pointers of `Delivery` is set.
pub data Delivery (E : Type 0) : Type 0 where
  record_delivery : Record E → Delivery E
  gap_delivery : Gap → Delivery E

-- JSON text; `len` counts its bytes.
abbrev pub Bytes : Type 0
Bytes = String

-- encoding/json as the hub calls it, and the one field of an event that the hub reads.
pub record Wire (E : Type 0) : Type 0 where
  pub marshal_event : E → Option Bytes
  pub unmarshal_event : Bytes → Option E
  pub message_sequence : E → Option ℕ
  pub marshal_record : Record E → Option Bytes
  -- The zero record where the bytes do not decode.
  pub unmarshal_record : Bytes → Record E
  pub marshal_gap : Gap → Bytes

-- A record whose event came out of `json.Unmarshal` encodes, and decodes to itself.
pub record RoundTrips {E : Type 0} (w : Wire E) : Type 0 where
  pub round_trip :
      (d : Bytes) (e : E) (c : Cursor)
      → w.unmarshal_event d ≡ some e
      → (b : Bytes) × (w.marshal_record (record { cursor = c; event = e }) ≡ some b)
        × (w.unmarshal_record b ≡ record { cursor = c; event = e })

-- Two cursors at the same place of the event stream. The message sequence is a separate mark.
abbrev pub SamePlace : Cursor → Cursor → Type 0
SamePlace c d = (c.boot_id ≡ d.boot_id) × (c.event_sequence ≡ d.event_sequence)

-- `d` is the place of the event right after `c`.
abbrev pub Follows : Cursor → Cursor → Type 0
Follows c d = (d.boot_id ≡ c.boot_id) × (d.event_sequence ≡ c.event_sequence + 1)

-- A consumer that stands at `c` and takes the deliveries in order ends at `d`, and between two
-- gaps it misses no event: each record is the one right after the place before it.
module _ {E : Type 0} where
  abbrev pub Chain : Cursor → List (Delivery E) → Cursor → Type 0
  Chain c [] d = SamePlace c d
  Chain c (record_delivery r ∷ ds) d = Follows c r.cursor × Chain r.cursor ds d
  Chain c (gap_delivery g ∷ ds) d = Chain g.current ds d
