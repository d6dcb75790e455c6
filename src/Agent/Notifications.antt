-- ===== src/Agent/Notifications.antt =====
-- internal/agent/codex/event_queue.go: the bounded queue between the reader of the app server and
-- the consumer of a turn. Its mutex makes each method one step.
pub mod Refines
pub mod Wake
pub mod Text
mod Tests
use Prim.Native.String.{len, ◌++◌ as append_text}
use mohuddle.Base.{
  ℕ, zero, suc, ◌+◌, ◌-◌, ◌*◌, max, Bool, true, false, ◌&&◌, ◌||◌, not, String, List, [], ◌∷◌, ◌++◌,
  Option, none, some, Result, ok, err, ltb, leb, ◌==◌, str_eq, is_empty, if◌then◌else◌, length,
  drop, get_elem?, set, get_last?, set_last, u64,
}

-- Nothing of the queue reads the error object of a message.
pub record RpcMessage : Type 0 where
  pub id : String
  pub method : String
  pub params : String
  pub result : String
  pub error : Option String

abbrev pub blank : RpcMessage
blank = record { id = ""; method = ""; params = ""; result = ""; error = none }

pub data QueueError : Type 0 where
  event_queue_overflow : QueueError
  other : String → QueueError

-- `ready` has room for one signal.
pub record NotificationQueue : Type 0 where
  pub ready : Bool
  pub items : List RpcMessage
  pub head : ℕ
  pub bytes : ℕ
  pub failure : Option QueueError
  pub high_entries : ℕ
  pub high_bytes : ℕ
  pub coalesced : ℕ  -- uint64
  pub overflows : ℕ  -- uint64
  pub ended : Option QueueError

abbrev pub max_queued_events : ℕ
max_queued_events = 4096

abbrev pub max_queued_bytes : ℕ
max_queued_bytes = 16_777_216

abbrev pub max_delta_bytes : ℕ
max_delta_bytes = 65_536

unfoldable pub new_notification_queue : NotificationQueue
new_notification_queue = record {
  ready = false;
  items = [];
  head = 0;
  bytes = 0;
  failure = none;
  high_entries = 0;
  high_bytes = 0;
  coalesced = 0;
  overflows = 0;
  ended = none;
}

wake : NotificationQueue → NotificationQueue
wake q = record q { ready = true }

pub event_bytes : RpcMessage → ℕ
event_bytes m = len m.id + len m.method + len m.params + len m.result

pub record TextDelta : Type 0 where
  pub thread_id : String
  pub turn_id : String
  pub item_id : String
  pub text : String

-- encoding/json on the parameters of a delta.
pub record DeltaJson : Type 0 where
  pub unmarshal : String → Option TextDelta
  pub marshal : TextDelta → String

abbrev pub delta_method : String
delta_method = "item/agentMessage/delta"

pub is_delta : RpcMessage → Bool
is_delta m = is_empty m.id && str_eq m.method delta_method

-- The same item, named in full, and small enough together.
fits : TextDelta → TextDelta → Bool
fits a b =
    str_eq a.thread_id b.thread_id
    && str_eq a.turn_id b.turn_id
    && str_eq a.item_id b.item_id
    && not (is_empty a.thread_id)
    && not (is_empty a.turn_id)
    && not (is_empty a.item_id)
    && leb (len a.text + len b.text) max_delta_bytes

module _ (json : DeltaJson) where
  join : Option TextDelta → Option TextDelta → Option String
  join none b = none
  join (some a) none = none
  join (some a) (some b) =
      if fits a b then some (json.marshal (record a { text = append_text a.text b.text })) else none

  -- The parameters of the last queued message with this one merged in, where the two may merge.
  merged_params : RpcMessage → RpcMessage → Option String
  merged_params last m =
      if is_delta m && is_delta last
      then join (json.unmarshal last.params) (json.unmarshal m.params)
      else none

overflow : NotificationQueue → NotificationQueue × Option QueueError
unfolding wake
overflow q = (
  wake (record q { failure = some event_queue_overflow; overflows = u64 (q.overflows + 1) }),
  some event_queue_overflow,
)

accept : List RpcMessage → ℕ → NotificationQueue → NotificationQueue × Option QueueError
unfolding wake
accept items bytes q = (
  wake (record q {
    items = items;
    bytes = bytes;
    high_entries = max q.high_entries (length items - q.head);
    high_bytes = max q.high_bytes bytes;
  }),
  none,
)

push_new : NotificationQueue → RpcMessage → NotificationQueue × Option QueueError
push_new q m =
    if ltb max_queued_bytes (q.bytes + event_bytes m)
      || leb max_queued_events (length q.items - q.head)
    then overflow q
    else accept (q.items ++ m ∷ []) (q.bytes + event_bytes m) q

-- `added` is negative where the merged parameters are the shorter ones.
push_merged : NotificationQueue → RpcMessage → String → NotificationQueue × Option QueueError
push_merged q last encoded =
    let bytes = q.bytes + len encoded - len last.params in
    if ltb max_queued_bytes bytes
    then overflow q
    else accept (set_last q.items (record last { params = encoded })) bytes
        (record q { coalesced = u64 (q.coalesced + 1) })

-- The last message, where one is queued.
last_queued : NotificationQueue → Option RpcMessage
last_queued q = if ltb q.head (length q.items) then get_last? q.items else none

module _ (json : DeltaJson) where
  push_after :
      Option RpcMessage → NotificationQueue → RpcMessage → NotificationQueue × Option QueueError
  push_after none q m = push_new q m
  push_after (some last) q m = elim (merged_params json last m) [
    | none ↦ push_new q m
    | some encoded ↦ push_merged q last encoded
  ]

  pub push : NotificationQueue → RpcMessage → NotificationQueue × Option QueueError
  push q m = elim q.failure [ some e ↦ (q, some e) | none ↦ push_after (last_queued q) q m ]

-- What follows the read of the first queued message.
advance : RpcMessage → NotificationQueue → NotificationQueue
unfolding wake
advance m q =
    let items = set q.items q.head blank in
    let bytes = q.bytes - event_bytes m in
    if q.head + 1 == length items
    then elim q.ended [
      | none ↦ record q { items = []; head = 0; bytes = bytes }
      | some e ↦ wake (record q { items = []; head = 0; bytes = bytes })
    ]
    else if leb 1024 (q.head + 1)
    then wake (record q { items = drop (q.head + 1) items; head = 0; bytes = bytes })
    else wake (record q { items = items; head = q.head + 1; bytes = bytes })

-- The message where there is one; none with no error where the queue is empty and has not ended.
pub pop : NotificationQueue → NotificationQueue × Result QueueError (Option RpcMessage)
pop q = elim q.failure [
  | some e ↦ (q, err e)
  | none ↦ elim (get_elem? q.items q.head) [
    | some m ↦ (advance m q, ok (some m))
    | none ↦ (q, elim q.ended [ none ↦ ok none | some e ↦ err e ])
  ]
]

pub fail : QueueError → NotificationQueue → NotificationQueue
unfolding wake
fail e q = elim q.failure [ none ↦ wake (record q { failure = some e }) | some _ ↦ wake q ]

pub end : QueueError → NotificationQueue → NotificationQueue
unfolding wake
end e q = wake (record q { ended = some e })

-- The consumer takes the signal before it pops.
pub take_ready : NotificationQueue → NotificationQueue
take_ready q = record q { ready = false }
