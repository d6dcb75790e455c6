-- ===== src/Room/FollowUps/Tests.antt =====
-- A room with one connected panel.
use mohuddle.Base.{
  ℕ, ◌+◌, ◌*◌, ◌≤◌, ◌≡◌, refl, true, false, String, List, [], ◌∷◌, none, some, ok, arith,
}
use mohuddle.Chat.Coordination.{second}
use mohuddle.Chat.FollowUps.{
  FollowUpUpdate, ChatGptState, default_limits, fresh, limits_of, pause_reason_of, is_stopped,
  is_expired,
}
use mohuddle.Room.FollowUps.{
  FollowUpRoom, ensure_follow_ups, claim_error, add_claim, notify_with, find_claim,
  apply_follow_ups, ensure_with, is_away, import_run,
}
use mohuddle.Room.FollowUps.Budget.{Observation, observe_all, limit_of}
use mohuddle.Room.FollowUps.Spaced.{IsSpaced, notified, notified-IsSpaced}
use mohuddle.Room.FollowUps.Counted.{spent_all, observe_all-spent}
use mohuddle.Room.FollowUps.Claims.{notify-notify}

abbrev an_update : String → String → FollowUpUpdate
an_update stage event = record {
  update_key = "";
  stage = stage;
  event_id = event;
  panel_id = "p";
  delivery = "enabled";
  revision = 1;
  automatic = false;
  through = 0;
  run_id = "";
  result_id = "r";
}

abbrev connected : ChatGptState
connected = record {
  enabled = true;
  connected = true;
  paused = false;
  expires_at = 0;
  lease_until = 0;
  exchanges_remaining = 3;
  limits = default_limits;
  pause_reason = "";
}

abbrev a_room : FollowUpRoom
a_room = record { follow_ups = none; coordination = none; chatgpt = some connected }

abbrev at_second : ℕ → FollowUpUpdate → Observation
at_second n u = record { update = u; now = n * second; key = ""; saved = none }

-- The panel connects, makes an automatic follow-up, and makes another one half a minute later.
abbrev panel_day : List Observation
panel_day =
    at_second 60 (an_update "panel_status" "a")
    ∷ at_second 60
        (record (an_update "notification_attempted" "b") { automatic = true; through = 4 })
    ∷ at_second 90
        (record (an_update "notification_attempted" "c") { automatic = true; through = 5 })
    ∷ []

two_spent : spent_all panel_day a_room ≡ 2
unfolding find_claim ensure_follow_ups mohuddle.Room.FollowUps.observe_follow_ups apply_follow_ups
    mohuddle.Room.FollowUps.is_control mohuddle.Room.FollowUps.panel_status claim_error is_expired
    is_stopped mohuddle.Chat.FollowUps.view mohuddle.Chat.FollowUps.status_of add_claim
two_spent = refl

observe_all-spent_example :
    ((ensure_follow_ups a_room).attempts + spent_all panel_day a_room ≤ limit_of a_room)
    × ((ensure_follow_ups (observe_all panel_day a_room)).attempts
        ≡ (ensure_follow_ups a_room).attempts + spent_all panel_day a_room)
unfolding ensure_follow_ups ensure_with import_run limits_of pause_reason_of
observe_all-spent_example =
    observe_all-spent panel_day a_room (refl, refl) (refl, (refl, (refl, tt))) (omega arith)

two_notified : notified panel_day a_room ≡ 60 * second ∷ 90 * second ∷ []
unfolding find_claim ensure_follow_ups mohuddle.Room.FollowUps.observe_follow_ups apply_follow_ups
    mohuddle.Room.FollowUps.is_control mohuddle.Room.FollowUps.panel_status claim_error is_expired
    is_stopped mohuddle.Chat.FollowUps.view mohuddle.Chat.FollowUps.status_of add_claim
two_notified = refl

notified-IsSpaced_example :
    IsSpaced (ensure_follow_ups a_room).last_notification_at (notified panel_day a_room)
notified-IsSpaced_example = notified-IsSpaced panel_day a_room

notify-notify_example :
    notify_with
      (find_claim "b"
        (add_claim (an_update "notification_attempted" "b") (60 * second) fresh).claims)
      (an_update "notification_attempted" "b")
      (90 * second)
      ""
      (add_claim (an_update "notification_attempted" "b") (60 * second) fresh)
      a_room
    ≡ ok (add_claim (an_update "notification_attempted" "b") (60 * second) fresh)
unfolding notify_with find_claim claim_error is_away is_stopped is_expired
notify-notify_example =
    notify-notify (an_update "notification_attempted" "b") (60 * second) (90 * second) "" "" fresh
      (add_claim (an_update "notification_attempted" "b") (60 * second) fresh) a_room a_room refl
      refl
