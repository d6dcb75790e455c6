-- ===== src/Chat/FollowUps/Limit.antt =====
-- internal/chat/followups.go: the allowance in the view.
use mohuddle.Base.{
  ℕ, zero, suc, ◌-◌, refl, ◌≤◌, ◌<◌, ◌≡◌, inl, inr, Bool, true, false, not, ◌||◌, String, Option,
  str_eq, is_empty, arith, Bool-cases, get_last?,
}
use mohuddle.Chat.Coordination.{CoordinationRun}
use mohuddle.Chat.FollowUps.{
  FollowUps, ChatGptState, limits_of, pause_reason_of, status_of, view, is_stopped, is_connected,
  is_paused, seconds_left, last_outcome_of,
}

-- The reasons that do not stop an automatic follow-up.
abbrev pub is_sendable : String → Bool
is_sendable reason =
    is_empty reason || str_eq reason "host_rejected" || str_eq reason "host_unknown"

-- A pause of the host that is not spelled like the outcome of a delivery.
abbrev pub IsPlainPause : Option ChatGptState → Type 0
IsPlainPause state =
    (str_eq (pause_reason_of state) "host_rejected" ≡ false)
    × (str_eq (pause_reason_of state) "host_unknown" ≡ false)

status-blocked :
    (now : ℕ) (f : FollowUps) (state : Option ChatGptState) (run : Option CoordinationRun)
    (seconds : ℕ) (outcome : String)
    → IsPlainPause state
    → is_sendable (status_of now f state run 0 seconds outcome).1 ≡ false
unfolding status_of
status-blocked now f state run seconds outcome plain = elim (Bool-cases (not f.enabled)) [
  | inl e ↦ rw e refl
  | inr e ↦ rw e (elim (Bool-cases (is_stopped run)) [
    | inl e ↦ rw e refl
    | inr e ↦ rw e (elim (Bool-cases (not (is_connected now state))) [
      | inl e ↦ rw e refl
      | inr e ↦ rw e (elim (Bool-cases (is_paused f state)) [
        | inl e ↦ rw e refl
        | inr e ↦ rw e (elim (Bool-cases (is_empty (pause_reason_of state))) [
          | inl e ↦ rw e refl
          | inr e ↦ rw e (ground (arith, e, plain))
        ])
      ])
    ])
  ])
]

status-remaining :
    (now : ℕ) (f : FollowUps) (state : Option ChatGptState) (run : Option CoordinationRun)
    (remaining seconds : ℕ) (outcome : String)
    → IsPlainPause state
    → is_sendable (status_of now f state run remaining seconds outcome).1 ≡ true
    → 1 ≤ remaining
status-remaining now f state run zero seconds outcome plain h =
    absurd (ground (arith, h, status-blocked now f state run seconds outcome plain))
status-remaining now f state run (suc n) seconds outcome plain h = omega arith

-- A follow-up may go out only while the allowance is not spent.
pub view-remaining :
    (now : ℕ) (f : FollowUps) (state : Option ChatGptState) (run : Option CoordinationRun)
    → IsPlainPause state
    → is_sendable (view now f state run).reason ≡ true
    → f.attempts < (limits_of state).follow_ups
unfolding view
view-remaining now f state run plain h =
    let left =
      status-remaining now f state run ((limits_of state).follow_ups - f.attempts)
        (seconds_left now (limits_of state) f) (last_outcome_of (get_last? f.claims)) plain h in
    omega (arith, left)
