-- ===== src/Agent/Notifications/Wake.antt =====
-- internal/agent/codex/event_queue.go: the signal to the consumer.
use mohuddle.Base.{◌≡◌, ◌⊎◌, true, [], none, some, ok, arith}
use mohuddle.Agent.Notifications.{
  RpcMessage, NotificationQueue, DeltaJson, push, push_after, push_new, push_merged, overflow,
  accept, pop, advance,
}
use mohuddle.Agent.Notifications.Refines.{queued}

-- After a push to a queue that has not failed the signal is up, also where the push overflows it.
pub push_ready :
    (json : DeltaJson) (q : NotificationQueue) (m : RpcMessage)
    → q.failure ≡ none
    → (push json q m).0.ready ≡ true
unfolding push push_after push_new push_merged overflow accept
push_ready json q m f = ground arith

-- After a pop of a message the consumer is signalled again, unless nothing is queued and no end has
-- been reported.
pub pop_ready :
    (q : NotificationQueue) (m : RpcMessage)
    → (pop q).1 ≡ ok (some m)
    → ((queued (pop q).0 ≡ []) × ((pop q).0.ended ≡ none)) ⊎ ((pop q).0.ready ≡ true)
unfolding pop advance
pop_ready q m e = ground arith
