-- ===== src/Events/Hub.antt =====
-- internal/remote/events/hub.go: the hub. Its mutex makes each method one step; the map of
-- subscribers is an association list by id.
pub mod Window
pub mod Healthy
pub mod Methods
pub mod Limits
pub mod Published
pub mod History
pub mod Replay
mod Tests
use mohuddle.Base.{
  ℕ, ◌+◌, ◌-◌, Bool, true, false, not, ◌&&◌, ◌||◌, String, List, [], ◌∷◌, ◌++◌, Option, none, some,
  ℤ, pos, negsuc, leb, ltb, ◌==◌, str_eq, is_empty, length, if◌then◌else◌, Result, ok, err, ◌>>=◌,
  or_fail, u64, nat_eq, lookup, insert, delete, map_values,
}
use Prim.Native.String.{len}
use mathlib.Core.Option
use mathlib.Core.List.{map}
use mohuddle.Events.Cursor.{
  Cursor, is_zero, Gap, Record, Bytes, Wire, gap_boot_mismatch, gap_cursor_expired,
}
use mohuddle.Events.Subscriber.{
  Subscriber, new_subscriber, enqueue_record, enqueue_gap, close as close_subscriber,
}

pub data HubError : Type 0 where
  no_boot_id bad_limits hub_closed encode_failed copy_failed measure_failed : HubError
  reason_required bad_capacity : HubError

pub record Options : Type 0 where
  pub boot_id : String
  pub initial_message_sequence : ℕ
  pub max_records : ℤ
  pub max_bytes : ℤ

pub record RetainedRecord (E : Type 0) : Type 0 where
  pub kept : Record E
  pub encoded : Bytes
  pub bytes : ℕ

pub record Hub (E : Type 0) : Type 0 where
  pub boot_id : String
  pub event_sequence : ℕ  -- uint64
  pub message_sequence : ℕ  -- uint64
  pub max_records : ℕ
  pub max_bytes : ℕ
  pub record_bytes : ℕ
  pub records : List (RetainedRecord E)
  pub next_subscriber : ℕ  -- uint64
  pub subscribers : List (ℕ × Subscriber E)
  pub closed : Bool

abbrev default_max_records : ℕ
default_max_records = 4096

abbrev default_max_bytes : ℕ
default_max_bytes = 8_388_608

-- A limit of 0 is the default, and a negative one is refused.
pub limit : ℤ → ℕ → Result HubError ℕ
limit (pos n) fallback = ok (if n == 0 then fallback else n)
limit (negsuc n) fallback = err bad_limits

-- What `newBootID` draws from crypto/rand is an argument, `none` where that fails.
boot : String → Option String → Result HubError String
boot chosen drawn = if is_empty chosen then or_fail drawn no_boot_id else ok chosen

module _ {E : Type 0} where
  empty_hub : String → ℕ → ℕ → ℕ → Hub E
  empty_hub boot_id message_sequence max_records max_bytes = record {
    boot_id = boot_id;
    event_sequence = 0;
    message_sequence = message_sequence;
    max_records = max_records;
    max_bytes = max_bytes;
    record_bytes = 0;
    records = [];
    next_subscriber = 0;
    subscribers = [];
    closed = false;
  }

  pub new : Options → Option String → Result HubError (Hub E)
  unfolding limit boot
  new options drawn = do
    boot_id ← boot options.boot_id drawn
    max_records ← limit options.max_records default_max_records
    max_bytes ← limit options.max_bytes default_max_bytes
    ok (empty_hub boot_id options.initial_message_sequence max_records max_bytes)

  pub current : Hub E → Cursor
  current h = record {
    boot_id = h.boot_id;
    event_sequence = h.event_sequence;
    message_sequence = h.message_sequence;
  }

  -- The records that `trimLocked` leaves, with their bytes.
  trim : ℕ → ℕ → List (RetainedRecord E) → ℕ → List (RetainedRecord E) × ℕ
  trim max_records max_bytes [] bytes = ([], bytes)
  trim max_records max_bytes (r ∷ rs) bytes =
      let rest = trim max_records max_bytes rs (bytes - r.bytes) in
      if ltb max_records (length (r ∷ rs)) || ltb max_bytes bytes then rest else (r ∷ rs, bytes)

  oldest_of : List (RetainedRecord E) → Cursor → Cursor
  oldest_of [] now = now
  oldest_of (r ∷ rs) now = r.kept.cursor

  pub oldest : Hub E → Cursor
  unfolding oldest_of
  oldest h = oldest_of h.records (current h)

  -- Append a record, drop what is over the limits.
  pub retain : Record E → Bytes → Hub E → Hub E
  retain r d h =
      let kept =
        trim h.max_records h.max_bytes
          (h.records ++ record { kept = r; encoded = d; bytes = len d } ∷ [])
          (h.record_bytes + len d) in
      record h { records = kept.0; record_bytes = kept.1 }

  pub fan_out : Wire E → Bytes → Cursor → Hub E → Hub E
  fan_out w d cursor h = record h {
    subscribers =
        map_values (enqueue_record w (w.unmarshal_record d) (len d) (oldest h) cursor)
          h.subscribers;
  }

  -- The sequences after an event: the message mark never falls.
  pub advance : Wire E → E → Hub E → Hub E
  advance w e h = record h {
    event_sequence = u64 (h.event_sequence + 1);
    message_sequence = elim (w.message_sequence e) [
      | none ↦ h.message_sequence
      | some n ↦ if ltb h.message_sequence n then n else h.message_sequence
    ];
  }

  publish_record : Wire E → Hub E → Record E → Hub E × Result HubError Cursor
  publish_record w h r = elim (w.marshal_record r) [
    | none ↦ (h, err measure_failed)
    | some d ↦ (fan_out w d r.cursor (retain r d h), ok r.cursor)
  ]

  -- The part of `Publish` under the mutex.
  pub publish_copied : Wire E → Hub E → E → Hub E × Result HubError Cursor
  publish_copied w h e =
      if h.closed
      then (h, err hub_closed)
      else publish_record w (advance w e h) (record { cursor = current (advance w e h); event = e })

  pub copy_event : Wire E → E → Result HubError E
  copy_event w e = do
    d ← or_fail (w.marshal_event e) encode_failed
    or_fail (w.unmarshal_event d) copy_failed

  publish_result : Wire E → Hub E → Result HubError E → Hub E × Result HubError Cursor
  publish_result w h (err x) = (h, err x)
  publish_result w h (ok copied) = publish_copied w h copied

  pub publish : Wire E → Hub E → E → Hub E × Result HubError Cursor
  publish w h e = publish_result w h (copy_event w e)

  pub rotate : Wire E → String → String → Hub E → Hub E
  rotate w reason boot_id h =
      let now : Cursor = record {
        boot_id = boot_id;
        event_sequence = 0;
        message_sequence = h.message_sequence;
      } in
      record h {
        boot_id = boot_id;
        event_sequence = 0;
        record_bytes = 0;
        records = [];
        subscribers = map_values (enqueue_gap w reason now now) h.subscribers;
      }

  pub invalidate : Wire E → Hub E → String → Option String → Hub E × Result HubError Cursor
  invalidate w h reason drawn = if is_empty reason then (h, err reason_required) else elim drawn [
    | none ↦ (h, err no_boot_id)
    | some boot_id ↦
        if h.closed
        then (h, err hub_closed)
        else (rotate w reason boot_id h, ok (current (rotate w reason boot_id h)))
  ]

  -- The records after a place, decoded anew for this consumer.
  records_after : Wire E → ℕ → List (RetainedRecord E) → List (Record E)
  records_after w n [] = []
  records_after w n (r ∷ rs) =
      let rest = records_after w n rs in
      if ltb n r.kept.cursor.event_sequence then w.unmarshal_record r.encoded ∷ rest else rest

  gap_for : String → Cursor → Hub E → Gap
  gap_for reason after h = record {
    reason = reason;
    requested = after;
    oldest_available = oldest h;
    current = current h;
  }

  pub has_expired : Cursor → Hub E → Bool
  has_expired after h =
      ltb after.event_sequence h.event_sequence
      && (length h.records == 0 || ltb (u64 (after.event_sequence + 1)) (oldest h).event_sequence)

  pub replay : Wire E → Hub E → Cursor → List (Record E) × Option Gap
  unfolding records_after gap_for has_expired
  replay w h after =
      if is_zero after
      then ([], none)
      else if not (str_eq after.boot_id h.boot_id)
      then ([], some (gap_for gap_boot_mismatch after h))
      else if ltb h.event_sequence after.event_sequence
      then ([], some (gap_for gap_cursor_expired after h))
      else if has_expired after h
      then ([], some (gap_for gap_cursor_expired after h))
      else (records_after w after.event_sequence h.records, none)

-- `Events` of a subscription is the output of its subscriber, and `cancel` is `cancel` of the id.
pub record Subscription (E : Type 0) : Type 0 where
  pub id : ℕ
  pub replayed : List (Record E)
  pub current : Cursor
  pub gap : Option Gap

module _ {E : Type 0} where
  register : ℕ → Hub E → Hub E
  register capacity h =
      let id = u64 (h.next_subscriber + 1) in
      record h {
        next_subscriber = id;
        subscribers = insert id (new_subscriber capacity h.max_bytes (current h)) h.subscribers;
      }

  subscribe_open : Wire E → Hub E → Cursor → ℕ → Hub E × Subscription E
  subscribe_open w h after capacity =
      let cut = replay w h after in
      (
        register capacity h,
        record {
          id = u64 (h.next_subscriber + 1);
          replayed = cut.0;
          current = current h;
          gap = cut.1;
        },
      )

  pub subscribe : Wire E → Hub E → Cursor → ℤ → Hub E × Result HubError (Subscription E)
  subscribe w h after (negsuc n) = (h, err bad_capacity)
  subscribe w h after (pos n) =
      if n == 0
      then (h, err bad_capacity)
      else if h.closed
      then (h, err hub_closed)
      else let opened = subscribe_open w h after n in (opened.0, ok opened.1)

  -- The subscriber leaves the map, and is closed.
  pub cancel : Hub E → ℕ → Hub E × Option (Subscriber E)
  cancel h id = (
    record h { subscribers = delete id h.subscribers },
    Option.map close_subscriber (lookup id h.subscribers),
  )

  pub close : Hub E → Hub E × List (Subscriber E)
  close h = if h.closed then (h, []) else (
    record h { closed = true; subscribers = [] },
    map (λ e. close_subscriber e.1) h.subscribers,
  )
