-- ===== src/Agent/Notifications/Text.antt =====
-- internal/agent/codex/event_queue.go: the text of the queued deltas.
use Prim.Native.String.{◌++◌ as append_text}
use text.Mathlib.TextLemmas.{
  append-nil as text_append-nil, append_assoc as text_append_assoc, nil-append,
}
use mohuddle.Base.{
  ◌≡◌, sym, ◌∙◌, inl, inr, String, List, [], ◌∷◌, ◌++◌, Option, none, some, arith, if◌then◌else◌,
}
use mohuddle.Agent.Notifications.{
  RpcMessage, NotificationQueue, TextDelta, DeltaJson, is_delta, push,
}
use mohuddle.Agent.Notifications.Refines.{queued, IsQueue}
use mohuddle.Agent.Notifications.Refines.Push.{Merges, push-Pushes}

-- A delta with another text encodes to parameters that decode to it.
pub record DeltaRoundTrips (json : DeltaJson) : Type 0 where
  pub round_trip :
      (p : String) (a : TextDelta) (t : String)
      → json.unmarshal p ≡ some a
      → json.unmarshal (json.marshal (record a { text = t })) ≡ some (record a { text = t })

module _ (json : DeltaJson) where
  abbrev text_of : Option TextDelta → String
  text_of none = ""
  text_of (some d) = d.text

  -- The text that a message adds to the answer.
  pub spoken : RpcMessage → String
  spoken m = if is_delta m then text_of (json.unmarshal m.params) else ""

  pub said : List RpcMessage → String
  said [] = ""
  said (m ∷ ms) = append_text (spoken m) (said ms)

  said-snoc :
      (ms : List RpcMessage) (m : RpcMessage)
      → said (ms ++ m ∷ []) ≡ append_text (said ms) (spoken m)
  unfolding said
  said-snoc [] m = text_append-nil (spoken m) ∙ sym (nil-append (spoken m))
  said-snoc (x ∷ ms) m = rw (said-snoc ms m, text_append_assoc)

  spoken-Merges :
      (last m : RpcMessage) (encoded : String)
      → DeltaRoundTrips json
      → Merges json last m encoded
      → spoken (record last { params = encoded }) ≡ append_text (spoken last) (spoken m)
  unfolding spoken is_delta
  spoken-Merges last m encoded law (a, b, f, g, p, r, _, _, _, e) =
      ground (arith, law.round_trip last.params a (append_text a.text b.text) f)

  -- A push that succeeds adds the text of its message at the end of what the queue says, merged or
  -- not.
  pub push-said :
      (q : NotificationQueue) (m : RpcMessage)
      → DeltaRoundTrips json
      → IsQueue q
      → (push json q m).1 ≡ none
      → said (queued (push json q m).0) ≡ append_text (said (queued q)) (spoken m)
  push-said q m law v e = elim (push-Pushes json q m v).1 [
    | inl (x, f, r, _) ↦ cc
    | inr (inl (f, r, _, _)) ↦ cc
    | inr (inr (inl (f, r, _, new))) ↦ rw new (said-snoc (queued q) m)
    | inr (inr (inr (last, encoded, before, f, r, _, merges, was, now))) ↦
        rw (was, now, said-snoc before last, said-snoc before (record last { params = encoded }))
          (rw (spoken-Merges last m encoded law merges)
            (sym (text_append_assoc (said before) (spoken last) (spoken m))))
  ]
