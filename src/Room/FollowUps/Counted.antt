-- ===== src/Room/FollowUps/Counted.antt =====
-- internal/room/followups.go: automatic follow-ups that the room accepts are counted, and limited.
use mohuddle.Base.{
  ℕ, ◌+◌, ◌≤◌, ◌≡◌, refl, sym, ap, subst, Bool, true, false, not, ◌&&◌, List, [], ◌∷◌, none, All,
  if◌then◌else◌, str_eq, arith,
}
use mohuddle.Chat.FollowUps.{FollowUps, FollowUpUpdate, limits_of}
use mohuddle.Chat.FollowUps.Limit.{IsPlainPause}
use mohuddle.Room.FollowUps.{
  FollowUpRoom, ensure_follow_ups, add_claim, observe_follow_ups, find_claim,
}
use mohuddle.Room.FollowUps.Accepted.{is_there, has_claim, IsKept, observe-Keeps}
use mohuddle.Room.FollowUps.Budget.{limit_of, Observation, observe_all, observe-Within}
use mohuddle.Room.FollowUps.Claims.{add-found}

abbrev pub counted : Bool → ℕ
counted true = 1
counted false = 0

-- One where an update left a new automatic claim: it was not there before, and is after.
abbrev pub spent : FollowUpUpdate → FollowUps → FollowUps → ℕ
spent u f g = counted (u.automatic && not (has_claim u.event_id f) && has_claim u.event_id g)

abbrev pub Counts : FollowUpUpdate → FollowUps → FollowUps → Type 0
Counts u f g = str_eq u.stage "renew" ≡ false → g.attempts ≡ f.attempts + spent u f g

no_new : (a x : Bool) → counted (a && not x && x) ≡ 0
no_new true true = refl
no_new true false = refl
no_new false true = refl
no_new false false = refl

known_before : (a x y : Bool) → x ≡ true → counted (a && not x && y) ≡ 0
known_before true true y h = refl
known_before false true y h = refl
known_before a false y h = cc

-- Where the claims are the same nothing is spent.
same-Counts :
    (u : FollowUpUpdate) (f g : FollowUps)
    → g.claims ≡ f.claims
    → (str_eq u.stage "renew" ≡ false → g.attempts ≡ f.attempts)
    → Counts u f g
same-Counts u f g e h r =
    let zero_spent : spent u f g ≡ 0 =
      subst
        (λ cs.
          counted
            (u.automatic && not (has_claim u.event_id f) && is_there (find_claim u.event_id cs))
          ≡ 0)
        (sym e) (no_new u.automatic (has_claim u.event_id f)) in
    let kept = h r in omega arith

known-Counts :
    (u : FollowUpUpdate) (f g : FollowUps)
    → has_claim u.event_id f ≡ true
    → g.attempts ≡ f.attempts
    → Counts u f g
known-Counts u f g k e r =
    let zero_spent = known_before u.automatic (has_claim u.event_id f) (has_claim u.event_id g) k in
    omega arith

add-Counts :
    (u : FollowUpUpdate) (now : ℕ) (f : FollowUps)
    → find_claim u.event_id f.claims ≡ none
    → Counts u f (add_claim u now f)
unfolding add_claim
add-Counts u now f e r =
    let before : has_claim u.event_id f ≡ false = ap is_there e in
    let after : has_claim u.event_id (add_claim u now f) ≡ true =
      ap is_there (add-found u now f e) in
    attempts_of u.automatic (has_claim u.event_id f) (has_claim u.event_id (add_claim u now f))
      before after
  where
    added : (add_claim u now f).attempts ≡ (if u.automatic then f.attempts + 1 else f.attempts)
    added = unfold add_claim in refl

    attempts_of :
        (a x y : Bool)
        → x ≡ false
        → y ≡ true
        → (if a then f.attempts + 1 else f.attempts) ≡ f.attempts + counted (a && not x && y)
    attempts_of true false true h k = refl
    attempts_of false false true h k = omega arith
    attempts_of a true y h k = cc
    attempts_of a false false h k = cc

counts : IsKept (λ u now f g. Counts u f g)
counts = record {
  same = λ u now f g claims last attempts. same-Counts u f g claims attempts;
  known = λ u now f g k last attempts. known-Counts u f g k attempts;
  added = λ u now key f room e allowed. add-Counts u now f e;
}

-- The new automatic claims that observations leave, one after the other.
abbrev pub spent_all : List Observation → FollowUpRoom → ℕ
spent_all [] room = 0
spent_all (o ∷ os) room =
    let next = (observe_follow_ups o.update o.now o.key o.saved room).0 in
    spent o.update (ensure_follow_ups room) (ensure_follow_ups next) + spent_all os next

abbrev pub RenewsNot : Observation → Type 0
RenewsNot o = str_eq o.update.stage "renew" ≡ false

-- Whatever all panels observe without a renewal, the automatic claims that the room has accepted, those
-- that its counter has from before included, never exceed the limit, where they did not before, and
-- the counter says how many they are. The host's reason for a pause may not be spelled like the
-- outcome of a delivery.
pub observe_all-spent :
    (os : List Observation) (room : FollowUpRoom)
    → IsPlainPause room.chatgpt
    → All RenewsNot os
    → (ensure_follow_ups room).attempts ≤ limit_of room
    → ((ensure_follow_ups room).attempts + spent_all os room ≤ limit_of room)
      × ((ensure_follow_ups (observe_all os room)).attempts
          ≡ (ensure_follow_ups room).attempts + spent_all os room)
observe_all-spent [] room plain renews h = (omega arith, omega arith)
observe_all-spent (o ∷ os) room plain (not_renewed, renews) h =
    let k = (observe_follow_ups o.update o.now o.key o.saved room).0 in
    let (within, same) = observe-Within o room plain in
    let more = observe-Keeps (λ u now f g. Counts u f g) counts o room not_renewed in
    let rest = observe_all-spent os k (subst IsPlainPause (sym same) plain) renews (within h) in
    let limits : limit_of k ≡ limit_of room = ap (λ c. (limits_of c).follow_ups) same in
    (omega arith, omega arith)
