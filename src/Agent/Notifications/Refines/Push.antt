-- ===== src/Agent/Notifications/Refines/Push.antt =====
-- internal/agent/codex/event_queue.go: `push` on the abstract list.
use Prim.Native.String.{len, ◌++◌ as append_text}
use mohuddle.Base.{
  ℕ, ◌+◌, ◌-◌, ◌≤◌, ◌<◌, ◌≡◌, refl, sym, ap, subst, ◌∙◌, ◌⊎◌, inl, inr, Bool, true, List, [], ◌∷◌,
  ◌++◌, Option, none, some, ltb, leb, ◌||◌, length, drop, set_last, total, total-append, arith,
  length-append, length-drop, drop-append, drop_last, split_last, length-set_last, u64, Bool-cases,
  Option-cases, String, eq_iff,
}
use mohuddle.Agent.Notifications.{
  RpcMessage, NotificationQueue, QueueError, event_queue_overflow, max_queued_events,
  max_queued_bytes, event_bytes, DeltaJson, TextDelta, is_delta, join, fits, push, push_after,
  push_new, push_merged, overflow, accept, last_queued, merged_params,
}
use mohuddle.Agent.Notifications.Refines.{queued, IsQueue}

-- The parameters of a message that takes another one in: two deltas of one item, text after text.
abbrev pub Merges : DeltaJson → RpcMessage → RpcMessage → String → Type 0
Merges json last m encoded =
    (a : TextDelta) × (b : TextDelta) × (json.unmarshal last.params ≡ some a)
    × (json.unmarshal m.params ≡ some b)
    × (is_delta last ≡ true)
    × (is_delta m ≡ true)
    × (a.thread_id ≡ b.thread_id)
    × (a.turn_id ≡ b.turn_id)
    × (a.item_id ≡ b.item_id)
    × (encoded ≡ json.marshal (record a { text = append_text a.text b.text }))

-- `push` on the abstract queue: a failed queue refuses; a message that does not fit fails the queue
-- and leaves what is queued; else the message is queued last, or merged into the last one.
abbrev pub Pushes :
    DeltaJson → NotificationQueue → RpcMessage → Option QueueError → NotificationQueue → Type 0
Pushes json q m r t =
    ((e : QueueError) × (q.failure ≡ some e) × (r ≡ some e) × (t ≡ q))
    ⊎ (((q.failure ≡ none)
          × (r ≡ some event_queue_overflow)
          × (t.failure ≡ r)
          × (queued t ≡ queued q))
        ⊎ (((q.failure ≡ none) × (r ≡ none) × (t.failure ≡ none) × (queued t ≡ queued q ++ m ∷ []))
            ⊎ ((last : RpcMessage) × (encoded : String) × (before : List RpcMessage) × (q.failure
                  ≡ none)
                × (r ≡ none)
                × (t.failure ≡ none)
                × Merges json last m encoded
                × (queued q ≡ before ++ last ∷ [])
                × (queued t ≡ before ++ record last { params = encoded } ∷ []))))

module _ (json : DeltaJson) (q : NotificationQueue) (m : RpcMessage) where
  join-Merges :
      (last : RpcMessage) (encoded : String) (x y : Option TextDelta)
      → json.unmarshal last.params ≡ x
      → json.unmarshal m.params ≡ y
      → is_delta last ≡ true
      → is_delta m ≡ true
      → join json x y ≡ some encoded
      → Merges json last m encoded
  unfolding join fits
  join-Merges last encoded none y f g p r e = cc
  join-Merges last encoded (some a) none f g p r e = cc
  join-Merges last encoded (some a) (some b) f g p r e = (
    a,
    b,
    f,
    g,
    p,
    r,
    ground (arith, eq_iff a.thread_id b.thread_id),
    ground (arith, eq_iff a.turn_id b.turn_id),
    ground (arith, eq_iff a.item_id b.item_id),
    ground arith,
  )

  merged_params-Merges :
      (last : RpcMessage) (encoded : String)
      → merged_params json last m ≡ some encoded
      → Merges json last m encoded
  unfolding merged_params
  merged_params-Merges last encoded e =
      join-Merges last encoded (json.unmarshal last.params) (json.unmarshal m.params) refl refl
        (ground arith) (ground arith) (ground arith)

  overflow-Pushes :
      q.failure ≡ none
      → IsQueue q
      → IsQueue (overflow q).0 × Pushes json q m (overflow q).1 (overflow q).0
  unfolding overflow
  overflow-Pushes f v = (
    record {
      in_items = v.in_items;
      compact = v.compact;
      entries = v.entries;
      counted = v.counted;
      within = v.within;
    },
    inr (inl (f, refl, refl, refl)),
  )

  accept-IsQueue :
      (items now : List RpcMessage) (bytes : ℕ) (r : NotificationQueue)
      → r.head ≤ length items
      → r.head < 1024
      → drop r.head items ≡ now
      → length now ≤ max_queued_events
      → bytes ≡ total event_bytes now
      → bytes ≤ max_queued_bytes
      → IsQueue (accept items bytes r).0
  unfolding accept
  accept-IsQueue items now bytes r h k e n b w = record {
    in_items = h;
    compact = k;
    entries = rw e n;
    counted = rw e b;
    within = w;
  }

  push_new-Pushes :
      q.failure ≡ none
      → IsQueue q
      → IsQueue (push_new q m).0 × Pushes json q m (push_new q m).1 (push_new q m).0
  unfolding push_new
  push_new-Pushes f v = elim (Bool-cases full) [
    | inl over ↦ rw over (overflow-Pushes f v)
    | inr free ↦ rw free (
        unfold accept in
        (
          accept-IsQueue (q.items ++ m ∷ []) (queued q ++ m ∷ []) (q.bytes + event_bytes m) q
              (omega (arith, v.in_items, length-append q.items (m ∷ []))) v.compact appended
              (ground (arith, length-append (queued q) (m ∷ []), length-drop q.head q.items))
              (omega (arith, v.counted, total-append event_bytes (queued q) (m ∷ [])))
              (ground arith),
          inr (inr (inl (f, refl, f, appended))),
        ))
  ]
    where
      full : Bool
      full =
          ltb max_queued_bytes (q.bytes + event_bytes m)
          || leb max_queued_events (length q.items - q.head)

      appended : drop q.head (q.items ++ m ∷ []) ≡ queued q ++ m ∷ []
      appended = drop-append q.head q.items (m ∷ []) v.in_items

  -- The last message stands behind the others that are queued, and a write to it stays there.
  last_queued_lem :
      (last : RpcMessage)
      → last_queued q ≡ some last
      → (before : List RpcMessage) × (queued q ≡ before ++ last ∷ [])
        × ((v : RpcMessage) → drop q.head (set_last q.items v) ≡ before ++ v ∷ [])
  unfolding last_queued
  last_queued_lem last e =
      let inside : q.head < length q.items = ground arith in
      let same = drop_last q.head q.items inside in
      let (before, split, written) = split_last (queued q) last (same.0 ∙ ground arith) in
      (before, split, λ v. same.1 v ∙ written v)

  push_merged-Pushes :
      (last : RpcMessage) (encoded : String)
      → q.failure ≡ none
      → last_queued q ≡ some last
      → merged_params json last m ≡ some encoded
      → IsQueue q
      → IsQueue (push_merged q last encoded).0
        × Pushes json q m (push_merged q last encoded).1 (push_merged q last encoded).0
  unfolding push_merged event_bytes
  push_merged-Pushes last encoded f l e v = elim (Bool-cases (ltb max_queued_bytes bytes)) [
    | inl over ↦ rw over (overflow-Pushes f v)
    | inr free ↦ rw free (
        unfold accept in
        (
          accept-IsQueue items now bytes (record q { coalesced = u64 (q.coalesced + 1) })
              (omega (arith, v.in_items, length-set_last q.items new)) v.compact (found.2 new)
              shorter counted (ground arith),
          inr (
              inr (
                inr (
                  last,
                  encoded,
                  found.0,
                  f,
                  refl,
                  f,
                  merged_params-Merges last encoded e,
                  found.1,
                  found.2 new,
                ))),
        ))
  ]
    where
      found :
          (before : List RpcMessage) × (queued q ≡ before ++ last ∷ [])
          × ((w : RpcMessage) → drop q.head (set_last q.items w) ≡ before ++ w ∷ [])
      found = last_queued_lem last l

      new : RpcMessage
      new = record last { params = encoded }

      items : List RpcMessage
      items = set_last q.items new

      now : List RpcMessage
      now = found.0 ++ new ∷ []

      bytes : ℕ
      bytes = q.bytes + len encoded - len last.params

      shorter : length now ≤ max_queued_events
      shorter = omega (
        arith,
        v.entries,
        ap length found.1,
        length-append found.0 (last ∷ []),
        length-append found.0 (new ∷ []),
      )

      counted : bytes ≡ total event_bytes now
      counted = omega (
        arith,
        v.counted,
        ap (total event_bytes) found.1,
        total-append event_bytes found.0 (last ∷ []),
        total-append event_bytes found.0 (new ∷ []),
      )

  Goal : NotificationQueue × Option QueueError → Type 0
  Goal r = IsQueue r.0 × Pushes json q m r.1 r.0

  push_after_apart :
      (last : RpcMessage)
      → merged_params json last m ≡ none
      → push_after json (some last) q m ≡ push_new q m
  unfolding push_after
  push_after_apart last e = ground arith

  push_after_merged :
      (last : RpcMessage) (encoded : String)
      → merged_params json last m ≡ some encoded
      → push_after json (some last) q m ≡ push_merged q last encoded
  unfolding push_after
  push_after_merged last encoded e = ground arith

  push_after-Pushes :
      (last : Option RpcMessage)
      → last_queued q ≡ last
      → q.failure ≡ none
      → IsQueue q
      → Goal (push_after json last q m)
  unfolding push_after Goal
  push_after-Pushes none l f v = push_new-Pushes f v
  push_after-Pushes (some last) l f v = elim (Option-cases (merged_params json last m)) [
    | inl e ↦ subst Goal (sym (push_after_apart last e)) (push_new-Pushes f v)
    | inr (encoded, e) ↦
        subst Goal (sym (push_after_merged last encoded e))
          (push_merged-Pushes last encoded f l e v)
  ]

  push_failed : (e : QueueError) → q.failure ≡ some e → push json q m ≡ (q, some e)
  unfolding push
  push_failed e f = ground arith

  push_live : q.failure ≡ none → push json q m ≡ push_after json (last_queued q) q m
  unfolding push
  push_live f = ground arith

  -- `push` keeps the queue sound and does, on every branch, what `Pushes` says.
  pub push-Pushes :
      IsQueue q → IsQueue (push json q m).0 × Pushes json q m (push json q m).1 (push json q m).0
  unfolding Goal
  push-Pushes v = elim (Option-cases q.failure) [
    | inl f ↦ subst Goal (sym (push_live f)) (push_after-Pushes (last_queued q) refl f v)
    | inr (e, f) ↦ subst Goal (sym (push_failed e f)) (v, inl (e, f, refl, refl))
  ]
