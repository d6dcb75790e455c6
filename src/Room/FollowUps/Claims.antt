-- ===== src/Room/FollowUps/Claims.antt =====
-- internal/room/followups.go: requests that a panel repeats.
use mohuddle.Base.{
  bool_eq, ℕ, zero, suc, ◌-◌, ◌≤◌, ◌≡◌, inl, inr, refl, sym, subst, Bool, true, false, not, ◌||◌,
  String, List, [], ◌∷◌, ◌++◌, none, some, Result, ok, ltb, ◌==◌, str_eq, length, drop, arith,
  Bool-cases, Option-cases, eq_refl, length-append,
}
use mohuddle.Chat.FollowUps.{FollowUps, FollowUpClaim, FollowUpUpdate}
use mohuddle.Room.FollowUps.{
  FollowUpRoom, control, set_control, known_claim, claim_error, add_claim, notify_with, find_claim,
  recent_claims, new_claim, same_claim,
}

abbrev accepted : FollowUps → Result String FollowUps
accepted f = ok f

ok_inj : (a b : FollowUps) → accepted a ≡ accepted b → a ≡ b
ok_inj a b h = cc

-- The control that a state remembers.
abbrev Remembers : FollowUpUpdate → FollowUps → Type 0
Remembers u g =
    (str_eq g.last_control_id u.event_id ≡ true)
    × (str_eq g.last_control u.stage ≡ true)
    × ((g.last_control_revision == u.revision) ≡ true)

set-Remembers : (u : FollowUpUpdate) (now : ℕ) (f : FollowUps) → Remembers u (set_control u now f)
unfolding set_control
set-Remembers u now f = (eq_refl u.event_id, eq_refl u.stage, ground arith)

control-Remembers :
    (u : FollowUpUpdate) (now : ℕ) (f g : FollowUps) → control u now f ≡ ok g → Remembers u g
unfolding control
control-Remembers u now f g h = elim (Bool-cases (str_eq f.last_control_id u.event_id)) [
  | inl known ↦
      elim (Bool-cases
        (not (str_eq f.last_control u.stage) || not (f.last_control_revision == u.revision))) [
          | inl differs ↦ absurd (ground (arith, h, known, differs))
          | inr same ↦
              subst (Remembers u) (ok_inj f g (ground (arith, h, known, same)))
                (known, ground (arith, same), ground (arith, same))
        ]
  | inr new ↦ elim (Bool-cases (u.revision == f.revision)) [
    | inr stale ↦ absurd (ground (arith, h, new, stale))
    | inl current ↦
        subst (Remembers u) (ok_inj (set_control u now f) g (ground (arith, h, new, current)))
          (set-Remembers u now f)
  ]
]

-- A control that is accepted and repeated changes nothing the second time.
pub control-control :
    (u : FollowUpUpdate) (now later : ℕ) (f g : FollowUps)
    → control u now f ≡ ok g
    → control u later g ≡ ok g
unfolding control
control-control u now later f g h =
    let (a, b, c) = control-Remembers u now f g h in ground (arith, a, b, c)

find-drop :
    (id : String) (n : ℕ) (cs : List FollowUpClaim)
    → find_claim id cs ≡ none
    → find_claim id (drop n cs) ≡ none
unfolding find_claim
find-drop id zero cs h = h
find-drop id (suc n) [] h = h
find-drop id (suc n) (c ∷ cs) h = find-drop id n cs (ground (arith, h))

find-append :
    (id : String) (c : FollowUpClaim) (cs : List FollowUpClaim)
    → find_claim id cs ≡ none
    → str_eq c.id id ≡ true
    → find_claim id (cs ++ c ∷ []) ≡ some c
unfolding find_claim
find-append id c [] h e = rw e refl
find-append id c (x ∷ cs) h e = ground (arith, h, find-append id c cs)

drop-append-last :
    (n : ℕ) (cs : List FollowUpClaim) (c : FollowUpClaim)
    → n ≤ length cs
    → drop n (cs ++ c ∷ []) ≡ drop n cs ++ c ∷ []
drop-append-last zero cs c h = refl
drop-append-last (suc n) [] c h = absurd (omega arith)
drop-append-last (suc n) (x ∷ cs) c h = drop-append-last n cs c (omega arith)

find-recent :
    (id : String) (c : FollowUpClaim) (cs : List FollowUpClaim)
    → find_claim id cs ≡ none
    → str_eq c.id id ≡ true
    → find_claim id (recent_claims (cs ++ c ∷ [])) ≡ some c
unfolding recent_claims
find-recent id c cs h e = elim (Bool-cases (ltb 256 (length (cs ++ c ∷ [])))) [
  | inr short ↦ rw short (find-append id c cs h e)
  | inl long ↦ rw long (
      subst (λ xs. find_claim id xs ≡ some c)
        (sym (
          drop-append-last (length (cs ++ c ∷ []) - 256) cs c
            (omega (arith, length-append cs (c ∷ [])))))
        (find-append id c (drop (length (cs ++ c ∷ []) - 256) cs)
          (find-drop id (length (cs ++ c ∷ []) - 256) cs h) e))
]

pub add-found :
    (u : FollowUpUpdate) (now : ℕ) (f : FollowUps)
    → find_claim u.event_id f.claims ≡ none
    → find_claim u.event_id (add_claim u now f).claims ≡ some (new_claim u now)
unfolding add_claim new_claim
add-found u now f h = find-recent u.event_id (new_claim u now) f.claims h (eq_refl u.event_id)

bool_eq_refl : (b : Bool) → bool_eq b b ≡ true
bool_eq_refl true = refl
bool_eq_refl false = refl

same-new : (u : FollowUpUpdate) (now : ℕ) → same_claim (new_claim u now) u ≡ true
unfolding same_claim new_claim
same-new u now = ground (
  arith,
  eq_refl u.update_key,
  eq_refl u.result_id,
  eq_refl u.run_id,
  eq_refl u.panel_id,
  bool_eq_refl u.automatic,
)

notify_added :
    (u : FollowUpUpdate) (now : ℕ) (key : String) (f g : FollowUps) (room : FollowUpRoom)
    → notify_with none u now key f room ≡ ok g
    → (str_eq u.stage "notification_attempted" ≡ true) × (add_claim u now f ≡ g)
unfolding notify_with
notify_added u now key f g room h = elim (Bool-cases (str_eq u.stage "notification_attempted")) [
  | inr other ↦ absurd (ground (arith, h, other))
  | inl attempted ↦ elim (Option-cases (claim_error u now key f room)) [
    | inr (e, refused) ↦ absurd (ground (arith, h, attempted, refused))
    | inl allowed ↦
        (attempted, ok_inj (add_claim u now f) g (ground (arith, h, attempted, allowed)))
  ]
]

again-ok :
    (u : FollowUpUpdate) (now later : ℕ) (key : String) (g : FollowUps) (room : FollowUpRoom)
    → str_eq u.stage "notification_attempted" ≡ true
    → notify_with (some (new_claim u now)) u later key g room ≡ ok g
unfolding notify_with known_claim
again-ok u now later key g room h = ground (arith, h, same-new u now)

-- A new claim that is accepted and asked for again, at any later time, is accepted without another
-- notification: the follow-ups stay exactly as the first request left them.
pub notify-notify :
    (u : FollowUpUpdate) (now later : ℕ) (key again : String) (f g : FollowUps)
    (room k : FollowUpRoom)
    → find_claim u.event_id f.claims ≡ none
    → notify_with none u now key f room ≡ ok g
    → notify_with (find_claim u.event_id g.claims) u later again g k ≡ ok g
notify-notify u now later key again f g room k new h =
    let (attempted, added) = notify_added u now key f g room h in
    subst (λ x. notify_with (find_claim u.event_id x.claims) u later again x k ≡ ok x) added
      (subst (λ o. notify_with o u later again (add_claim u now f) k ≡ ok (add_claim u now f))
        (sym (add-found u now f new)) (again-ok u now later again (add_claim u now f) k attempted))
