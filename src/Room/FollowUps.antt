-- ===== src/Room/FollowUps.antt =====
-- internal/room/followups.go: the follow-ups of a room, across its panels. Its mutexes make each
-- observation one step; SaveRoom's answer is an argument, and so is the notification key of the room.
pub mod Budget
pub mod Accepted
pub mod Spaced
pub mod Claims
pub mod Counted
mod Tests
use Prim.Native.String.{len, ◌++◌ as append_text}
use mohuddle.Base.{
  bool_eq, ℕ, zero, suc, ◌+◌, ◌-◌, ◌*◌, ◌≤◌, ◌≡◌, max, Bool, true, false, not, ◌&&◌, ◌||◌, String,
  List, [], ◌∷◌, ◌++◌, Option, none, some, Result, ok, err, ltb, leb, ◌==◌, str_eq, is_empty,
  if◌then◌else◌, length, drop, u64,
}
use mohuddle.Chat.Coordination.{
  second, NotificationAttempt, Handoff, CoordinationPanel, CoordinationRun,
}
use mohuddle.Chat.FollowUps.{
  FollowUps, FollowUpClaim, FollowUpUpdate, FollowUpView, ChatGptState, fresh, is_stopped,
  is_expired, view,
}

-- What the observation reads and writes of the room.
pub record FollowUpRoom : Type 0 where
  pub follow_ups : Option FollowUps
  pub coordination : Option CoordinationRun
  pub chatgpt : Option ChatGptState

-- The automatic attempts of an older room count.
import_attempts : List NotificationAttempt → FollowUps → FollowUps
import_attempts [] f = f
import_attempts (a ∷ rest) f =
    let counted = record f {
      attempts = f.attempts + 1;
      started_at =
          if f.started_at == 0 || ltb a.at_time f.started_at then a.at_time else f.started_at;
    } in
    import_attempts rest (if a.automatic then counted else f)

import_handoffs : List Handoff → FollowUps → FollowUps
unfolding import_attempts
import_handoffs [] f = f
import_handoffs (h ∷ rest) f = import_handoffs rest (import_attempts h.attempts f)

import_run : Option CoordinationRun → FollowUps
unfolding import_handoffs
import_run none = fresh
import_run (some r) =
    import_handoffs r.handoffs
      (record fresh { panels = r.panels; last_notification_at = r.last_notification_at })

ensure_with : Option FollowUps → Option CoordinationRun → FollowUps
unfolding import_run
ensure_with (some f) run = f
ensure_with none run = import_run run

pub ensure_follow_ups : FollowUpRoom → FollowUps
unfolding ensure_with
ensure_follow_ups room = ensure_with room.follow_ups room.coordination

is_invalid : FollowUpUpdate → Bool
is_invalid u =
    is_empty u.event_id
    || ltb 128 (len u.event_id)
    || ltb 128 (len u.panel_id)
    || ltb 128 (len u.result_id)
    || ltb 128 (len u.run_id)
    || ltb 64 (len u.update_key)

pub is_control : String → Bool
is_control stage = str_eq stage "pause" || str_eq stage "resume" || str_eq stage "renew"

set_control : FollowUpUpdate → ℕ → FollowUps → FollowUps
set_control u now f = record f {
  enabled = not (str_eq u.stage "pause");
  started_at = if str_eq u.stage "renew" then now else f.started_at;
  attempts = if str_eq u.stage "renew" then 0 else f.attempts;
  last_control_id = u.event_id;
  last_control = u.stage;
  last_control_revision = u.revision;
  revision = u64 (f.revision + 1);
}

pub control : FollowUpUpdate → ℕ → FollowUps → Result String FollowUps
unfolding set_control
control u now f =
    if str_eq f.last_control_id u.event_id
    then (if not (str_eq f.last_control u.stage) || not (f.last_control_revision == u.revision)
        then err "control ID reused with different content"
        else ok f)
    else if not (u.revision == f.revision)
    then err "follow-up setting changed; refresh before controlling it"
    else ok (set_control u now f)

is_delivery : String → Bool
is_delivery d =
    str_eq d "enabled"
    || str_eq d "manual"
    || str_eq d "hidden"
    || str_eq d "unsupported"
    || str_eq d "disconnected"
    || str_eq d "budget"
    || str_eq d "closed"
    || str_eq d "unknown"

has_panel : String → List CoordinationPanel → Bool
has_panel id [] = false
has_panel id (p ∷ rest) = str_eq p.id id || has_panel id rest

see_panel : FollowUpUpdate → ℕ → List CoordinationPanel → List CoordinationPanel
see_panel u now [] = []
see_panel u now (p ∷ rest) =
    let later = see_panel u now rest in
    if str_eq p.id u.panel_id
    then record p { mode = u.delivery; seen_at = now } ∷ rest
    else p ∷ later

add_panel : FollowUpUpdate → ℕ → List CoordinationPanel → List CoordinationPanel
add_panel u now panels =
    (if leb 8 (length panels) then drop 1 panels else panels)
    ++ record { id = u.panel_id; mode = u.delivery; seen_at = now; started_at = now; attempts = 0 }
      ∷ []

pub note_panel : FollowUpUpdate → ℕ → List CoordinationPanel → List CoordinationPanel
unfolding has_panel see_panel add_panel
note_panel u now panels =
    if has_panel u.panel_id panels then see_panel u now panels else add_panel u now panels

begin_allowance : Bool → ℕ → FollowUps → FollowUps
begin_allowance starts now f =
    if f.started_at == 0 && starts then record f { started_at = now } else f

pub panel_status : FollowUpUpdate → ℕ → FollowUps → Result String FollowUps
unfolding is_delivery note_panel begin_allowance
panel_status u now f =
    if not (is_delivery u.delivery)
    then err "invalid panel delivery state"
    else if is_empty u.panel_id
    then err "panel_id required"
    else ok (record (begin_allowance (str_eq u.delivery "enabled" && f.enabled) now f) {
      panels = note_panel u now f.panels;
    })

pub find_claim : String → List FollowUpClaim → Option FollowUpClaim
find_claim id [] = none
find_claim id (c ∷ rest) =
    let later = find_claim id rest in if str_eq c.id id then some c else later

set_outcome : String → String → List FollowUpClaim → List FollowUpClaim
set_outcome id outcome [] = []
set_outcome id outcome (c ∷ rest) =
    let later = set_outcome id outcome rest in
    if str_eq c.id id then record c { outcome = outcome } ∷ rest else c ∷ later

pub same_claim : FollowUpClaim → FollowUpUpdate → Bool
same_claim c u =
    str_eq c.update_key u.update_key
    && str_eq c.result_id u.result_id
    && c.through == u.through
    && str_eq c.run_id u.run_id
    && str_eq c.panel_id u.panel_id
    && bool_eq c.automatic u.automatic

-- An update of a claim that the room knows.
known_claim : FollowUpClaim → FollowUpUpdate → FollowUps → Result String FollowUps
unfolding set_outcome
known_claim c u f =
    if not (same_claim c u)
    then err "notification claim ID reused with different content"
    else if str_eq u.stage "notification_attempted"
    then ok f
    else if not (str_eq c.outcome "host_unknown") && not (str_eq c.outcome u.stage)
    then err "notification outcome already recorded"
    else ok (record f { claims = set_outcome u.event_id u.stage f.claims })

is_away : ℕ → Option ChatGptState → FollowUps → Bool
is_away now none f = true
is_away now (some s) f =
    not s.enabled || not s.connected || s.paused || f.host_paused || is_expired now s

pub has_available : FollowUpUpdate → ℕ → List CoordinationPanel → Bool
has_available u now [] = false
has_available u now (p ∷ rest) =
    str_eq p.id u.panel_id && str_eq p.mode "enabled" && leb (now - p.seen_at) (45 * second)
    || has_available u now rest

-- The checks of an automatic claim.
automatic_error : FollowUpUpdate → ℕ → FollowUps → FollowUpRoom → Option String
unfolding has_available
automatic_error u now f room =
    let reason = (view now f room.chatgpt room.coordination).reason in
    if not (u.revision == 0) && not (u.revision == f.revision)
    then some "follow-up setting changed; refresh"
    else if not (is_empty reason)
        && not (str_eq reason "host_rejected")
        && not (str_eq reason "host_unknown")
    then some (append_text "automatic follow-ups unavailable: " reason)
    else if not (has_available u now f.panels)
    then some "register this panel's availability first"
    else none

update_error : FollowUpUpdate → String → FollowUps → Option String
update_error u key f =
    if not (is_empty u.update_key)
    then (if not (str_eq u.update_key key)
        then some "room update changed; read again before notifying"
        else if str_eq u.update_key f.notified_update_key
        then some "room update already claimed"
        else none)
    else if u.through == 0 || leb u.through f.notified_through
    then some "room update already claimed"
    else none

abbrev pub when_some : Bool → Option String → Option String
when_some true o = o
when_some false o = none

abbrev pub first_error : Option String → Option String → Option String
first_error none e = e
first_error (some x) e = some x

-- The checks of a new claim, in their order.
pub claim_error : FollowUpUpdate → ℕ → String → FollowUps → FollowUpRoom → Option String
unfolding automatic_error update_error is_away
claim_error u now key f room =
    if is_away now room.chatgpt f || is_stopped room.coordination
    then some "notification delivery is stopped or participation is unavailable"
    else first_error (when_some u.automatic (automatic_error u now f room)) (
        if ltb (now - f.last_notification_at) (20 * second)
        then some "another panel recently claimed a notification"
        else when_some (is_empty u.result_id && u.automatic) (update_error u key f))

pub new_claim : FollowUpUpdate → ℕ → FollowUpClaim
new_claim u now = record {
  panel_id = u.panel_id;
  id = u.event_id;
  at_time = now;
  outcome = "host_unknown";
  automatic = u.automatic;
  update_key = u.update_key;
  result_id = u.result_id;
  through = u.through;
  run_id = u.run_id;
}

recent_claims : List FollowUpClaim → List FollowUpClaim
recent_claims cs = if ltb 256 (length cs) then drop (length cs - 256) cs else cs

pub add_claim : FollowUpUpdate → ℕ → FollowUps → FollowUps
unfolding new_claim recent_claims begin_allowance
add_claim u now f =
    let g = begin_allowance u.automatic now f in
    record g {
      attempts = if u.automatic then f.attempts + 1 else f.attempts;
      last_notification_at = now;
      notified_through =
          if is_empty u.result_id then max f.notified_through u.through else f.notified_through;
      notified_update_key =
          if is_empty u.result_id && not (is_empty u.update_key)
          then u.update_key
          else f.notified_update_key;
      claims = recent_claims (f.claims ++ new_claim u now ∷ []);
    }

abbrev pub unless_error : Option String → FollowUps → Result String FollowUps
unless_error none f = ok f
unless_error (some e) f = err e

pub notify_with :
    Option FollowUpClaim
    → FollowUpUpdate
    → ℕ
    → String
    → FollowUps
    → FollowUpRoom
    → Result String FollowUps
unfolding known_claim
notify_with (some c) u now key f room = known_claim c u f
notify_with none u now key f room =
    if not (str_eq u.stage "notification_attempted")
    then err "notification claim unavailable; outcome unknown"
    else unless_error (claim_error u now key f room) (add_claim u now f)

is_notification : String → Bool
is_notification stage =
    str_eq stage "notification_attempted"
    || str_eq stage "host_accepted"
    || str_eq stage "host_rejected"
    || str_eq stage "host_unknown"

apply_stage : FollowUpUpdate → ℕ → String → FollowUps → FollowUpRoom → Result String FollowUps
unfolding notify_with is_notification
apply_stage u now key f room =
    if is_control u.stage
    then control u now f
    else if str_eq u.stage "panel_status"
    then panel_status u now f
    else if not (is_notification u.stage)
    then err "invalid follow-up stage"
    else notify_with (find_claim u.event_id f.claims) u now key f room

pub apply_follow_ups : FollowUpUpdate → ℕ → String → FollowUpRoom → Result String FollowUps
unfolding is_invalid apply_stage
apply_follow_ups u now key room =
    if is_invalid u
    then err "invalid follow-up observation"
    else apply_stage u now key (ensure_follow_ups room) room

saved_view :
    Result String FollowUps
    → Option String
    → ℕ
    → FollowUpRoom
    → FollowUpRoom × Result String FollowUpView
saved_view (err e) saved now room = (room, err e)
saved_view (ok f) (some e) now room = (room, err e)
saved_view (ok f) none now room =
    (record room { follow_ups = some f }, ok (view now f room.chatgpt room.coordination))

-- ObserveFollowUps: an error leaves the room as it was.
pub observe_follow_ups :
    FollowUpUpdate
    → ℕ
    → String
    → Option String
    → FollowUpRoom
    → FollowUpRoom × Result String FollowUpView
unfolding saved_view
observe_follow_ups u now key saved room =
    saved_view (apply_follow_ups u now key room) saved now room
