-- ===== src/Room/FollowUps/Spaced.antt =====
-- internal/room/followups.go: the time between two notifications of a room.
use mohuddle.Base.{
  ℕ, ◌+◌, ◌*◌, ◌≤◌, ◌≡◌, refl, sym, ap, subst, Bool, true, false, not, ◌&&◌, String, List, [], ◌∷◌,
  none, arith, if◌then◌else◌,
}
use mohuddle.Chat.Coordination.{second}
use mohuddle.Chat.FollowUps.{FollowUps, FollowUpUpdate}
use mohuddle.Room.FollowUps.{
  FollowUpRoom, ensure_follow_ups, claim_error, add_claim, observe_follow_ups, find_claim,
}
use mohuddle.Room.FollowUps.Accepted.{is_there, has_claim, IsKept, observe-Keeps}
use mohuddle.Room.FollowUps.Budget.{Observation}
use mohuddle.Room.FollowUps.Claims.{add-found}

-- An update left a claim that was not there before.
abbrev pub is_new : FollowUpUpdate → FollowUps → FollowUps → Bool
is_new u f g = not (has_claim u.event_id f) && has_claim u.event_id g

abbrev pub Pace : Bool → ℕ → ℕ → ℕ → Type 0
Pace true now last next = (last + 20 * second ≤ now) × (next ≡ now)
Pace false now last next = next ≡ last

-- A new claim comes 20 seconds after the last notification and is the last one then.
abbrev pub Paces : FollowUpUpdate → ℕ → FollowUps → FollowUps → Type 0
Paces u now f g = Pace (is_new u f g) now f.last_notification_at g.last_notification_at

none_new : (x : Bool) → (not x && x) ≡ false
none_new true = refl
none_new false = refl

same-Paces :
    (u : FollowUpUpdate) (now : ℕ) (f g : FollowUps)
    → g.claims ≡ f.claims
    → g.last_notification_at ≡ f.last_notification_at
    → Paces u now f g
same-Paces u now f g e last =
    let old : is_new u f g ≡ false =
      subst (λ cs. (not (has_claim u.event_id f) && is_there (find_claim u.event_id cs)) ≡ false)
        (sym e) (none_new (has_claim u.event_id f)) in
    subst (λ b. Pace b now f.last_notification_at g.last_notification_at) (sym old) last

known-Paces :
    (u : FollowUpUpdate) (now : ℕ) (f g : FollowUps)
    → has_claim u.event_id f ≡ true
    → g.last_notification_at ≡ f.last_notification_at
    → Paces u now f g
known-Paces u now f g k last =
    subst
      (λ b.
        Pace (not b && has_claim u.event_id g) now f.last_notification_at g.last_notification_at)
      (sym k) last

waited :
    (u : FollowUpUpdate) (now : ℕ) (key : String) (f : FollowUps) (room : FollowUpRoom)
    → claim_error u now key f room ≡ none
    → f.last_notification_at + 20 * second ≤ now
unfolding claim_error
waited u now key f room h = ground (arith, h)

add-Paces :
    (u : FollowUpUpdate) (now : ℕ) (key : String) (f : FollowUps) (room : FollowUpRoom)
    → find_claim u.event_id f.claims ≡ none
    → claim_error u now key f room ≡ none
    → Paces u now f (add_claim u now f)
add-Paces u now key f room e allowed =
    let before : has_claim u.event_id f ≡ false = ap is_there e in
    let after : has_claim u.event_id (add_claim u now f) ≡ true =
      ap is_there (add-found u now f e) in
    let made : is_new u f (add_claim u now f) ≡ true = simp (before, after) refl in
    subst (λ b. Pace b now f.last_notification_at (add_claim u now f).last_notification_at)
      (sym made) (waited u now key f room allowed, taken)
  where
    taken : (add_claim u now f).last_notification_at ≡ now
    taken = unfold add_claim in refl

paces : IsKept Paces
paces = record {
  same = λ u now f g claims last attempts. same-Paces u now f g claims last;
  known = λ u now f g k last attempts. known-Paces u now f g k last;
  added = add-Paces;
}

-- The times at which observations left new claims, one after the other.
abbrev pub notified : List Observation → FollowUpRoom → List ℕ
notified [] room = []
notified (o ∷ os) room =
    let next = (observe_follow_ups o.update o.now o.key o.saved room).0 in
    let rest = notified os next in
    if is_new o.update (ensure_follow_ups room) (ensure_follow_ups next) then o.now ∷ rest else rest

-- Each time is at least 20 seconds after the one before it.
abbrev pub IsSpaced : ℕ → List ℕ → Type 0
IsSpaced last [] = Unit
IsSpaced last (n ∷ ns) = (last + 20 * second ≤ n) × IsSpaced n ns

Pace-IsSpaced :
    (b : Bool) (now last next : ℕ) (ns : List ℕ)
    → Pace b now last next
    → IsSpaced next ns
    → IsSpaced last (if b then now ∷ ns else ns)
Pace-IsSpaced true now last next ns (waits, same) h = (waits, subst (λ n. IsSpaced n ns) same h)
Pace-IsSpaced false now last next ns same h = subst (λ n. IsSpaced n ns) same h

-- Whatever all panels observe, automatic or not, the claims that the room newly accepts are at least 20
-- seconds apart, and the first one is 20 seconds after the last notification that there was before.
pub notified-IsSpaced :
    (os : List Observation) (room : FollowUpRoom)
    → IsSpaced (ensure_follow_ups room).last_notification_at (notified os room)
notified-IsSpaced [] room = tt
notified-IsSpaced (o ∷ os) room =
    let next = (observe_follow_ups o.update o.now o.key o.saved room).0 in
    Pace-IsSpaced (is_new o.update (ensure_follow_ups room) (ensure_follow_ups next)) o.now
      (ensure_follow_ups room).last_notification_at (ensure_follow_ups next).last_notification_at
      (notified os next) (observe-Keeps Paces paces o room) (notified-IsSpaced os next)
