-- ===== src/Agent/Notifications/Tests.antt =====
-- Runs of the queue, and its theorems at concrete inputs.
use Prim.Native.String.{◌++◌ as append_text}
use mohuddle.Base.{◌≡◌, refl, String, [], ◌∷◌, none, some, arith}
use mohuddle.Agent.Notifications.{
  RpcMessage, NotificationQueue, DeltaJson, delta_method, new_notification_queue, push, push_after,
  push_new, push_merged, accept, last_queued, merged_params, join, fits, is_delta, event_bytes, pop,
}
use mohuddle.Agent.Notifications.Refines.{
  queued, IsQueue, Pops, pop-Pops, new_notification_queue-IsQueue,
}
use mohuddle.Agent.Notifications.Refines.Push.{Pushes, push-Pushes}
use mohuddle.Agent.Notifications.Text.{DeltaRoundTrips, spoken, said, push-said}

-- One item, whose parameters are its text.
abbrev plain : DeltaJson
plain = record {
  unmarshal = λ p. some (record { thread_id = "t"; turn_id = "u"; item_id = "i"; text = p });
  marshal = λ d. d.text;
}

plain-DeltaRoundTrips : DeltaRoundTrips plain
plain-DeltaRoundTrips = record { round_trip = λ p a t h. ground arith }

abbrev delta : String → RpcMessage
delta p = record { id = ""; method = delta_method; params = p; result = ""; error = none }

-- Two deltas are one message.
abbrev two_deltas : NotificationQueue
two_deltas = (push plain (push plain new_notification_queue (delta "ab")).0 (delta "c")).0

two_deltas-queued : queued two_deltas ≡ delta "abc" ∷ []
unfolding push push_after push_new push_merged accept last_queued merged_params join fits is_delta
    event_bytes new_notification_queue
two_deltas-queued = refl

two_deltas-IsQueue : IsQueue two_deltas
two_deltas-IsQueue =
    (push-Pushes plain _ (delta "c")
      (push-Pushes plain _ (delta "ab") new_notification_queue-IsQueue).0).0

push-Pushes_example :
    IsQueue (push plain two_deltas (delta "d")).0
    × Pushes plain two_deltas
        (delta "d")
        (push plain two_deltas (delta "d")).1
        (push plain two_deltas (delta "d")).0
push-Pushes_example = push-Pushes plain two_deltas (delta "d") two_deltas-IsQueue

pop-Pops_example :
    IsQueue (pop two_deltas).0 × Pops two_deltas (pop two_deltas).1 (pop two_deltas).0
pop-Pops_example = pop-Pops two_deltas two_deltas-IsQueue

push-said_example :
    said plain (queued (push plain two_deltas (delta "d")).0)
    ≡ append_text (said plain (queued two_deltas)) (spoken plain (delta "d"))
unfolding push push_after push_new push_merged accept last_queued merged_params join fits is_delta
    event_bytes new_notification_queue
push-said_example =
    push-said plain two_deltas (delta "d") plain-DeltaRoundTrips two_deltas-IsQueue refl
