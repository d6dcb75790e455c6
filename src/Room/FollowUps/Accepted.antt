-- ===== src/Room/FollowUps/Accepted.antt =====
-- internal/room/followups.go: what every observation of a panel keeps.
use mohuddle.Base.{
  ◌||◌, is_empty, ◌==◌, ℕ, ◌≡◌, refl, ap, Bool, true, false, not, ◌&&◌, String, Option, none, some,
  Result, ok, err, if◌then◌else◌, str_eq,
}
use mohuddle.Chat.FollowUps.{FollowUps, FollowUpClaim, FollowUpUpdate}
use mohuddle.Room.FollowUps.{
  is_invalid, is_control, same_claim, set_outcome, FollowUpRoom, ensure_follow_ups, ensure_with,
  control, set_control, panel_status, begin_allowance, known_claim, claim_error, add_claim,
  unless_error, notify_with, apply_stage, apply_follow_ups, saved_view, observe_follow_ups,
  find_claim, is_notification, note_panel,
}
use mohuddle.Room.FollowUps.Budget.{IfOk, Observation}

abbrev pub is_there : Option FollowUpClaim → Bool
is_there none = false
is_there (some c) = true

-- The room knows a claim of that name.
abbrev pub has_claim : String → FollowUps → Bool
has_claim id f = is_there (find_claim id f.claims)

-- A relation between the follow-ups before and after an update that every accepted update meets: where the
-- claims stay, where the claim is known, and where a new one is added.
pub record IsKept (Q : FollowUpUpdate → ℕ → FollowUps → FollowUps → Type 0) : Type 0 where
  pub same :
      (u : FollowUpUpdate) (now : ℕ) (f g : FollowUps)
      → g.claims ≡ f.claims
      → g.last_notification_at ≡ f.last_notification_at
      → (str_eq u.stage "renew" ≡ false → g.attempts ≡ f.attempts)
      → Q u now f g
  pub known :
      (u : FollowUpUpdate) (now : ℕ) (f g : FollowUps)
      → has_claim u.event_id f ≡ true
      → g.last_notification_at ≡ f.last_notification_at
      → g.attempts ≡ f.attempts
      → Q u now f g
  pub added :
      (u : FollowUpUpdate) (now : ℕ) (key : String) (f : FollowUps) (room : FollowUpRoom)
      → find_claim u.event_id f.claims ≡ none
      → claim_error u now key f room ≡ none
      → Q u now f (add_claim u now f)

module _ (Q : FollowUpUpdate → ℕ → FollowUps → FollowUps → Type 0) (k : IsKept Q) where
  unless-Keeps :
      (b : Bool) (now : ℕ) (u : FollowUpUpdate) (f : FollowUps) (e : String)
      (r : Result String FollowUps)
      → IfOk (Q u now f) r
      → IfOk (Q u now f) (if b then err e else r)
  unless-Keeps true now u f e r h = tt
  unless-Keeps false now u f e r h = h

  control-Keeps :
      (u : FollowUpUpdate) (now : ℕ) (f : FollowUps) → IfOk (Q u now f) (control u now f)
  unfolding control set_control
  control-Keeps u now f = of_known (str_eq f.last_control_id u.event_id)
    where
      of_known :
          (b : Bool)
          → IfOk (Q u now f) (
              if b
              then (if not (str_eq f.last_control u.stage)
                    || not (f.last_control_revision == u.revision)
                  then err "control ID reused with different content"
                  else ok f)
              else if not (u.revision == f.revision)
              then err "follow-up setting changed; refresh before controlling it"
              else ok (set_control u now f))
      of_known true = unless-Keeps _ now u f _ (ok f) (k.same u now f f refl refl (λ r. refl))
      of_known false =
          unless-Keeps (not (u.revision == f.revision)) now u f _ (ok (set_control u now f))
            (k.same u now f (set_control u now f) refl refl (λ r. rw r refl))

  panel-Keeps :
      (u : FollowUpUpdate) (now : ℕ) (f : FollowUps) → IfOk (Q u now f) (panel_status u now f)
  unfolding panel_status begin_allowance
  panel-Keeps u now f = unless-Keeps _ now u f _ _ (
      unless-Keeps (is_empty u.panel_id) now u f _
        (ok (record (begin_allowance (str_eq u.delivery "enabled" && f.enabled) now f) {
          panels = note_panel u now f.panels;
        }))
        (k.same u now f
          (record (begin_allowance (str_eq u.delivery "enabled" && f.enabled) now f) {
            panels = note_panel u now f.panels;
          })
          (claims (f.started_at == 0 && (str_eq u.delivery "enabled" && f.enabled)))
          (last (f.started_at == 0 && (str_eq u.delivery "enabled" && f.enabled)))
          (λ r. attempts (f.started_at == 0 && (str_eq u.delivery "enabled" && f.enabled)))))
    where
      claims : (b : Bool) → (if b then record f { started_at = now } else f).claims ≡ f.claims
      claims true = refl
      claims false = refl

      last :
          (b : Bool)
          → (if b then record f { started_at = now } else f).last_notification_at
            ≡ f.last_notification_at
      last true = refl
      last false = refl

      attempts : (b : Bool) → (if b then record f { started_at = now } else f).attempts ≡ f.attempts
      attempts true = refl
      attempts false = refl

  known_claim-Keeps :
      (c : FollowUpClaim) (u : FollowUpUpdate) (now : ℕ) (f : FollowUps)
      → has_claim u.event_id f ≡ true
      → IfOk (Q u now f) (known_claim c u f)
  unfolding known_claim
  known_claim-Keeps c u now f h =
      unless-Keeps (not (same_claim c u)) now u f _ _
        (of_stage (str_eq u.stage "notification_attempted"))
    where
      of_stage :
          (b : Bool)
          → IfOk (Q u now f) (
              if b
              then ok f
              else if not (str_eq c.outcome "host_unknown") && not (str_eq c.outcome u.stage)
              then err "notification outcome already recorded"
              else ok (record f { claims = set_outcome u.event_id u.stage f.claims }))
      of_stage true = k.known u now f f h refl refl
      of_stage false =
          unless-Keeps (not (str_eq c.outcome "host_unknown") && not (str_eq c.outcome u.stage)) now
            u f _ (ok (record f { claims = set_outcome u.event_id u.stage f.claims }))
            (k.known u now f (record f { claims = set_outcome u.event_id u.stage f.claims }) h refl
              refl)

  notify-Keeps :
      (o : Option FollowUpClaim) (u : FollowUpUpdate) (now : ℕ) (key : String) (f : FollowUps)
      (room : FollowUpRoom)
      → find_claim u.event_id f.claims ≡ o
      → IfOk (Q u now f) (notify_with o u now key f room)
  unfolding notify_with
  notify-Keeps (some c) u now key f room e = known_claim-Keeps c u now f (ap is_there e)
  notify-Keeps none u now key f room e =
      unless-Keeps (not (str_eq u.stage "notification_attempted")) now u f _ _
        (of_error (claim_error u now key f room) refl)
    where
      of_error :
          (x : Option String)
          → claim_error u now key f room ≡ x
          → IfOk (Q u now f) (unless_error x (add_claim u now f))
      of_error none allowed = k.added u now key f room e allowed
      of_error (some x) refused = tt

  stage-Keeps :
      (u : FollowUpUpdate) (now : ℕ) (key : String) (f : FollowUps) (room : FollowUpRoom)
      → IfOk (Q u now f) (apply_stage u now key f room)
  unfolding apply_stage
  stage-Keeps u now key f room = of_tests (is_control u.stage) (str_eq u.stage "panel_status")
    where
      of_tests :
          (a b : Bool)
          → IfOk (Q u now f) (
              if a
              then control u now f
              else if b
              then panel_status u now f
              else if not (is_notification u.stage)
              then err "invalid follow-up stage"
              else notify_with (find_claim u.event_id f.claims) u now key f room)
      of_tests true b = control-Keeps u now f
      of_tests false true = panel-Keeps u now f
      of_tests false false =
          unless-Keeps (not (is_notification u.stage)) now u f _ _
            (notify-Keeps (find_claim u.event_id f.claims) u now key f room refl)

  apply-Keeps :
      (u : FollowUpUpdate) (now : ℕ) (key : String) (room : FollowUpRoom)
      → IfOk (Q u now (ensure_follow_ups room)) (apply_follow_ups u now key room)
  unfolding apply_follow_ups
  apply-Keeps u now key room =
      unless-Keeps (is_invalid u) now u (ensure_follow_ups room) _ _
        (stage-Keeps u now key (ensure_follow_ups room) room)

  saved-Keeps :
      (u : FollowUpUpdate) (r : Result String FollowUps) (saved : Option String) (now : ℕ)
      (room : FollowUpRoom)
      → IfOk (Q u now (ensure_follow_ups room)) r
      → Q u now (ensure_follow_ups room) (ensure_follow_ups (saved_view r saved now room).0)
  unfolding saved_view ensure_follow_ups ensure_with
  saved-Keeps u (err e) saved now room h =
      k.same u now (ensure_follow_ups room) (ensure_follow_ups room) refl refl (λ r. refl)
  saved-Keeps u (ok f) (some e) now room h =
      k.same u now (ensure_follow_ups room) (ensure_follow_ups room) refl refl (λ r. refl)
  saved-Keeps u (ok f) none now room h = h

  pub observe-Keeps :
      (o : Observation) (room : FollowUpRoom)
      → Q o.update o.now
          (ensure_follow_ups room)
          (ensure_follow_ups (observe_follow_ups o.update o.now o.key o.saved room).0)
  unfolding observe_follow_ups
  observe-Keeps o room =
      saved-Keeps o.update (apply_follow_ups o.update o.now o.key room) o.saved o.now room
        (apply-Keeps o.update o.now o.key room)
