-- ===== src/Room/FollowUps/Budget.antt =====
-- internal/room/followups.go: the allowance of automatic follow-ups, and the time between notifications.
use mohuddle.Base.{
  ℕ, ◌+◌, ◌*◌, ◌≤◌, ◌<◌, ◌≡◌, ◌⊎◌, inl, inr, refl, true, String, List, [], ◌∷◌, Option, none, some,
  Result, ok, err, arith, Option-cases,
}
use mohuddle.Chat.Coordination.{second}
use mohuddle.Chat.FollowUps.{FollowUps, FollowUpClaim, FollowUpUpdate, limits_of}
use mohuddle.Chat.FollowUps.Limit.{IsPlainPause, view-remaining}
use mohuddle.Room.FollowUps.{
  FollowUpRoom, ensure_follow_ups, control, set_control, panel_status, begin_allowance, known_claim,
  claim_error, automatic_error, add_claim, unless_error, notify_with, apply_stage, apply_follow_ups,
  saved_view, observe_follow_ups, ensure_with, find_claim,
}

-- A predicate on what an accepted update leaves.
abbrev pub IfOk : {A : Type 0} → (A → Type 0) → Result String A → Type 0
IfOk P (ok a) = P a
IfOk P (err e) = Unit

abbrev pub limit_of : FollowUpRoom → ℕ
limit_of room = (limits_of room.chatgpt).follow_ups

-- The attempts stay within the limit; the last notification is the same, or one at least 20 seconds
-- later.
abbrev pub Spends : ℕ → ℕ → FollowUps → FollowUps → Type 0
Spends limit now f g =
    (f.attempts ≤ limit → g.attempts ≤ limit)
    × ((g.last_notification_at ≡ f.last_notification_at)
        ⊎ ((f.last_notification_at + 20 * second ≤ now) × (g.last_notification_at ≡ now)))

control-Spends :
    (limit : ℕ) (u : FollowUpUpdate) (now : ℕ) (f : FollowUps)
    → IfOk (Spends limit now f) (control u now f)
unfolding control set_control
control-Spends limit u now f = ground arith

panel-Spends :
    (limit : ℕ) (u : FollowUpUpdate) (now : ℕ) (f : FollowUps)
    → IfOk (Spends limit now f) (panel_status u now f)
unfolding panel_status begin_allowance
panel-Spends limit u now f = ground arith

known-Spends :
    (limit : ℕ) (c : FollowUpClaim) (u : FollowUpUpdate) (now : ℕ) (f : FollowUps)
    → IfOk (Spends limit now f) (known_claim c u f)
unfolding known_claim
known-Spends limit c u now f = ground arith

add-Spends :
    (limit : ℕ) (u : FollowUpUpdate) (now : ℕ) (f : FollowUps)
    → (u.automatic ≡ true → f.attempts < limit)
    → f.last_notification_at + 20 * second ≤ now
    → Spends limit now f (add_claim u now f)
unfolding add_claim begin_allowance
add-Spends limit u now f h k = (ground (arith, h), inr (k, refl))

automatic-attempts :
    (u : FollowUpUpdate) (now : ℕ) (f : FollowUps) (room : FollowUpRoom)
    → IsPlainPause room.chatgpt
    → automatic_error u now f room ≡ none
    → f.attempts < limit_of room
unfolding automatic_error
automatic-attempts u now f room plain h =
    view-remaining now f room.chatgpt room.coordination plain (ground (arith, h))

-- A claim that is let through is within the allowance and 20 seconds after the last one.
claim-allowed :
    (u : FollowUpUpdate) (now : ℕ) (key : String) (f : FollowUps) (room : FollowUpRoom)
    → IsPlainPause room.chatgpt
    → claim_error u now key f room ≡ none
    → (u.automatic ≡ true → f.attempts < limit_of room)
      × (f.last_notification_at + 20 * second ≤ now)
unfolding claim_error
claim-allowed u now key f room plain h =
    (λ a. automatic-attempts u now f room plain (ground (arith, h, a)), ground (arith, h))

claim-Spends :
    (u : FollowUpUpdate) (now : ℕ) (key : String) (f : FollowUps) (room : FollowUpRoom)
    → IsPlainPause room.chatgpt
    → IfOk
        (Spends (limit_of room) now f)
        (unless_error (claim_error u now key f room) (add_claim u now f))
claim-Spends u now key f room plain = elim (Option-cases (claim_error u now key f room)) [
  | inr (e, refused) ↦ rw refused tt
  | inl allowed ↦ rw allowed (
      let (a, b) = claim-allowed u now key f room plain allowed in
      add-Spends (limit_of room) u now f a b)
]

notify-Spends :
    (o : Option FollowUpClaim) (u : FollowUpUpdate) (now : ℕ) (key : String) (f : FollowUps)
    (room : FollowUpRoom)
    → IsPlainPause room.chatgpt
    → IfOk (Spends (limit_of room) now f) (notify_with o u now key f room)
unfolding notify_with
notify-Spends (some c) u now key f room plain = known-Spends (limit_of room) c u now f
notify-Spends none u now key f room plain = ground (arith, claim-Spends u now key f room plain)

stage-Spends :
    (u : FollowUpUpdate) (now : ℕ) (key : String) (f : FollowUps) (room : FollowUpRoom)
    → IsPlainPause room.chatgpt
    → IfOk (Spends (limit_of room) now f) (apply_stage u now key f room)
unfolding apply_stage
stage-Spends u now key f room plain = ground (
  arith,
  control-Spends (limit_of room) u now f,
  panel-Spends (limit_of room) u now f,
  notify-Spends (find_claim u.event_id f.claims) u now key f room plain,
)

-- An accepted update keeps automatic attempts that are within the limit within it, and any new
-- notification is at least 20 seconds after the last one, where the host's reason for a pause is not
-- spelled like the outcome of a delivery.
apply-Spends :
    (u : FollowUpUpdate) (now : ℕ) (key : String) (room : FollowUpRoom)
    → IsPlainPause room.chatgpt
    → IfOk (Spends (limit_of room) now (ensure_follow_ups room)) (apply_follow_ups u now key room)
unfolding apply_follow_ups
apply-Spends u now key room plain =
    ground (arith, stage-Spends u now key (ensure_follow_ups room) room plain)

-- The observations of all panels, in the order in which the mutex lets them in.
pub record Observation : Type 0 where
  pub update : FollowUpUpdate
  pub now : ℕ
  pub key : String
  pub saved : Option String

abbrev pub observe_all : List Observation → FollowUpRoom → FollowUpRoom
observe_all [] room = room
observe_all (o ∷ rest) room =
    observe_all rest (observe_follow_ups o.update o.now o.key o.saved room).0

-- The allowance holds, and the host's settings are as they were.
abbrev pub Within : FollowUpRoom → FollowUpRoom → Type 0
Within room k =
    ((ensure_follow_ups room).attempts ≤ limit_of room
      → (ensure_follow_ups k).attempts ≤ limit_of k)
    × (k.chatgpt ≡ room.chatgpt)

saved-Within :
    (r : Result String FollowUps) (saved : Option String) (now : ℕ) (room : FollowUpRoom)
    → IfOk (Spends (limit_of room) now (ensure_follow_ups room)) r
    → Within room (saved_view r saved now room).0
unfolding saved_view ensure_follow_ups ensure_with
saved-Within (err e) saved now room h = (λ k. k, refl)
saved-Within (ok f) (some e) now room h = (λ k. k, refl)
saved-Within (ok f) none now room h = (h.0, refl)

pub observe-Within :
    (o : Observation) (room : FollowUpRoom)
    → IsPlainPause room.chatgpt
    → Within room (observe_follow_ups o.update o.now o.key o.saved room).0
unfolding observe_follow_ups
observe-Within o room plain =
    saved-Within (apply_follow_ups o.update o.now o.key room) o.saved o.now room
      (apply-Spends o.update o.now o.key room plain)
