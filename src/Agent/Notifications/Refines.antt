-- ===== src/Agent/Notifications/Refines.antt =====
-- internal/agent/codex/event_queue.go: the queue as an abstract list, and `pop` on it.
pub mod Push
use Prim.Native.String.{len, ◌++◌ as append_text}
use mohuddle.Base.{
  ℕ, suc, ◌+◌, ◌-◌, ◌≤◌, ◌<◌, ◌≡◌, refl, sym, ap, subst, ◌∙◌, ◌⊎◌, inl, inr, Bool, true, List, [],
  ◌∷◌, ◌++◌, Option, none, some, Result, ok, err, ltb, leb, ◌||◌, length, drop, get_elem?, set_last,
  total, total-append, arith, length-append, length-drop, drop-append, drop-set, length-set,
  drop-length, drop_last, split_last, drop-get_elem?, length-set_last, u64, Bool-cases,
  Option-cases, lt_of_get_elem?, le_of_get_elem?, String, eq_iff,
}
use mohuddle.Agent.Notifications.{
  RpcMessage, NotificationQueue, QueueError, event_queue_overflow, max_queued_events,
  max_queued_bytes, event_bytes, DeltaJson, TextDelta, is_delta, join, fits, blank, push,
  push_after, new_notification_queue, push_new, push_merged, overflow, accept, last_queued,
  merged_params, pop, advance,
}

-- The abstract queue.
abbrev pub queued : NotificationQueue → List RpcMessage
queued q = drop q.head q.items

pub record IsQueue (q : NotificationQueue) : Type 0 where
  pub in_items : q.head ≤ length q.items
  pub compact : q.head < 1024
  pub entries : length (queued q) ≤ max_queued_events
  pub counted : q.bytes ≡ total event_bytes (queued q)
  pub within : q.bytes ≤ max_queued_bytes

-- What is left, whichever way the slice is kept short.
queued-advance :
    (m : RpcMessage) (q : NotificationQueue)
    → q.head < length q.items
    → queued (advance m q) ≡ drop (suc q.head) q.items
unfolding advance
queued-advance m q h = ground (
  arith,
  drop-set q.head q.items blank,
  length-set q.head q.items blank,
  drop-length (suc q.head) q.items,
)

advance-fields :
    (m : RpcMessage) (q : NotificationQueue)
    → q.head < length q.items
    → q.head < 1024
    → ((advance m q).bytes ≡ q.bytes - event_bytes m)
      × ((advance m q).head ≤ length (advance m q).items)
      × ((advance m q).head < 1024)
unfolding advance
advance-fields m q h k = ground (arith, length-set q.head q.items blank)

advance-IsQueue :
    (m : RpcMessage) (q : NotificationQueue)
    → q.head < length q.items
    → queued q ≡ m ∷ drop (suc q.head) q.items
    → IsQueue q
    → IsQueue (advance m q)
advance-IsQueue m q h e v = record {
  in_items = (advance-fields m q h v.compact).1;
  compact = (advance-fields m q h v.compact).2;
  entries = rw (queued-advance m q h) (omega (arith, v.entries, ap length e));
  counted =
      rw (queued-advance m q h)
        (omega (arith, v.counted, ap (total event_bytes) e, (advance-fields m q h v.compact).0));
  within = omega (arith, v.within, (advance-fields m q h v.compact).0);
}

-- `pop` on the abstract queue: its failure first, else its oldest message, which leaves it; an
-- empty queue stays as it is and gives the error of its end, if it has ended.
abbrev pub Pops :
    NotificationQueue → Result QueueError (Option RpcMessage) → NotificationQueue → Type 0
Pops q r t =
    ((e : QueueError) × (q.failure ≡ some e) × (r ≡ err e) × (t ≡ q))
    ⊎ (((q.failure ≡ none)
          × (queued q ≡ [])
          × (t ≡ q)
          × (r ≡ elim q.ended [ none ↦ ok none | some e ↦ err e ]))
        ⊎ ((m : RpcMessage) × (q.failure ≡ none) × (r ≡ ok (some m)) × (queued q ≡ m ∷ queued t)))

pop_failed : (q : NotificationQueue) (e : QueueError) → q.failure ≡ some e → pop q ≡ (q, err e)
unfolding pop
pop_failed q e f = ground arith

pop_empty :
    (q : NotificationQueue)
    → q.failure ≡ none
    → get_elem? q.items q.head ≡ none
    → pop q ≡ (q, elim q.ended [ none ↦ ok none | some e ↦ err e ])
unfolding pop
pop_empty q f g = ground arith

pop_first :
    (q : NotificationQueue) (m : RpcMessage)
    → q.failure ≡ none
    → get_elem? q.items q.head ≡ some m
    → pop q ≡ (advance m q, ok (some m))
unfolding pop
pop_first q m f g = ground arith

-- `pop` keeps the queue sound and does, on every branch, what `Pops` says.
pub pop-Pops : (q : NotificationQueue) → IsQueue q → IsQueue (pop q).0 × Pops q (pop q).1 (pop q).0
pop-Pops q v = go q.failure (get_elem? q.items q.head) refl refl
  where
    Goal : NotificationQueue × Result QueueError (Option RpcMessage) → Type 0
    Goal r = IsQueue r.0 × Pops q r.1 r.0

    go :
        (f : Option QueueError) (i : Option RpcMessage)
        → q.failure ≡ f
        → get_elem? q.items q.head ≡ i
        → Goal (pop q)
    go (some e) i f g = subst Goal (sym (pop_failed q e f)) (v, inl (e, f, refl, refl))
    go none none f g = subst Goal (sym (pop_empty q f g)) (
      v,
      inr (inl (f, drop-length q.head q.items (le_of_get_elem? q.head q.items g), refl, refl)),
    )
    go none (some m) f g =
        let h = lt_of_get_elem? q.head q.items m g in
        let e = drop-get_elem? q.head q.items m g in
        subst Goal (sym (pop_first q m f g)) (
          advance-IsQueue m q h e v,
          inr (inr (m, f, refl, e ∙ ap (λ l. m ∷ l) (sym (queued-advance m q h)))),
        )

pub new_notification_queue-IsQueue : IsQueue new_notification_queue
unfolding new_notification_queue
new_notification_queue-IsQueue = ground arith
