-- ===== src/Chat/FollowUps.antt =====
-- internal/chat/followups.go, chatgpt.go: the follow-ups of a room and what a panel is told of them.
pub mod Limit
use mohuddle.Base.{
  ℕ, zero, suc, ◌+◌, ◌-◌, ◌*◌, ◌/◌, ◌≤◌, ◌≡◌, max, Bool, true, false, not, ◌&&◌, ◌||◌, String, List,
  [], ◌∷◌, ◌++◌, Option, none, some, ltb, leb, ◌==◌, str_eq, is_empty, if◌then◌else◌, length,
  get_last?,
}
use mohuddle.Chat.Coordination.{second, CoordinationPanel, CoordinationRun}

pub record FollowUpClaim : Type 0 where
  pub panel_id : String
  pub id : String
  pub at_time : ℕ
  pub outcome : String
  pub automatic : Bool
  pub update_key : String
  pub result_id : String
  pub through : ℕ
  pub run_id : String

pub record FollowUps : Type 0 where
  pub host_paused : Bool
  pub enabled : Bool
  pub revision : ℕ
  pub started_at : ℕ
  pub attempts : ℕ
  pub last_notification_at : ℕ
  pub notified_through : ℕ
  pub notified_update_key : String
  pub panels : List CoordinationPanel
  pub claims : List FollowUpClaim
  pub last_control_id : String
  pub last_control : String
  pub last_control_revision : ℕ

pub record FollowUpUpdate : Type 0 where
  pub update_key : String
  pub stage : String
  pub event_id : String
  pub panel_id : String
  pub delivery : String
  pub revision : ℕ
  pub automatic : Bool
  pub through : ℕ
  pub run_id : String
  pub result_id : String

-- ChatGPTLimits; a limit is positive or 0.
pub record ChatGptLimits : Type 0 where
  pub exchanges : ℕ
  pub follow_ups : ℕ
  pub follow_up_seconds : ℕ
  pub repeated_requests : ℕ

abbrev pub default_limits : ChatGptLimits
default_limits = record {
  exchanges = 32;
  follow_ups = 32;
  follow_up_seconds = 3600;
  repeated_requests = 3;
}

pub valid_limits : ChatGptLimits → Bool
valid_limits l =
    not (ltb l.exchanges 1 || ltb 1000 l.exchanges || ltb l.follow_ups 1 || ltb 1000 l.follow_ups)
    && not (ltb l.follow_up_seconds 60 || ltb 86_400 l.follow_up_seconds)
    && not (ltb l.repeated_requests 2 || ltb 20 l.repeated_requests)

pub record ChatGptState : Type 0 where
  pub enabled : Bool
  pub connected : Bool
  pub paused : Bool
  pub expires_at : ℕ
  pub lease_until : ℕ
  pub exchanges_remaining : ℕ
  pub limits : ChatGptLimits
  pub pause_reason : String

pub record FollowUpView : Type 0 where
  pub enabled : Bool
  pub revision : ℕ
  pub started_at : ℕ
  pub remaining : ℕ
  pub seconds_remaining : ℕ
  pub status : String
  pub reason : String
  pub notified_through : ℕ
  pub last_notification_at : ℕ
  pub last_outcome : String

abbrev pub fresh : FollowUps
fresh = record {
  host_paused = false;
  enabled = true;
  revision = 1;
  started_at = 0;
  attempts = 0;
  last_notification_at = 0;
  notified_through = 0;
  notified_update_key = "";
  panels = [];
  claims = [];
  last_control_id = "";
  last_control = "";
  last_control_revision = 0;
}

unfoldable pub limits_of : Option ChatGptState → ChatGptLimits
limits_of none = default_limits
limits_of (some s) = if ltb 0 s.limits.follow_ups then s.limits else default_limits

last_outcome_of : Option FollowUpClaim → String
last_outcome_of none = ""
last_outcome_of (some c) = c.outcome

seconds_left : ℕ → ChatGptLimits → FollowUps → ℕ
seconds_left now limits f =
    if f.started_at == 0
    then limits.follow_up_seconds
    else (f.started_at + limits.follow_up_seconds * second - now) / second

unfoldable pub is_stopped : Option CoordinationRun → Bool
is_stopped none = false
is_stopped (some r) = str_eq r.state "stopped"

unfoldable pub is_expired : ℕ → ChatGptState → Bool
is_expired now s = not (s.expires_at == 0) && leb s.expires_at now

is_connected : ℕ → Option ChatGptState → Bool
unfolding is_expired
is_connected now none = false
is_connected now (some s) = s.enabled && s.connected && not (is_expired now s)

is_paused : FollowUps → Option ChatGptState → Bool
is_paused f none = f.host_paused
is_paused f (some s) = f.host_paused || s.paused

unfoldable pub pause_reason_of : Option ChatGptState → String
pause_reason_of none = ""
pause_reason_of (some s) = s.pause_reason

-- The loop over the panels that were seen in the last 45 seconds; a connected one ends it.
panel_status : ℕ → List CoordinationPanel → String × String → String × String
panel_status now [] v = v
panel_status now (p ∷ rest) v =
    let skipped = panel_status now rest v in
    let later = panel_status now rest (v.0, p.mode) in
    if ltb (45 * second) (now - p.seen_at)
    then skipped
    else if str_eq p.mode "enabled"
    then ("On and connected", "")
    else later

last_status : String → String × String → String × String
last_status outcome v =
    if is_empty v.1
    then (if str_eq outcome "host_rejected"
        then ("Delivery rejected", "host_rejected")
        else if str_eq outcome "host_unknown"
        then ("Delivery outcome unknown", "host_unknown")
        else v)
    else v

-- The status and its reason, which is empty where a follow-up may be sent.
unfoldable pub status_of :
    ℕ → FollowUps → Option ChatGptState → Option CoordinationRun → ℕ → ℕ → String → String × String
unfolding is_stopped is_connected is_paused pause_reason_of panel_status last_status
status_of now f state run remaining seconds outcome =
    if not f.enabled
    then ("Paused", "manual")
    else if is_stopped run
    then ("Paused", "run_stopped")
    else if not (is_connected now state)
    then ("Panel unavailable", "disconnected")
    else if is_paused f state
    then ("Paused", "host_paused")
    else if not (is_empty (pause_reason_of state))
    then ("Paused", pause_reason_of state)
    else if remaining == 0
    then ("Limit reached", "follow_up_limit")
    else if seconds == 0
    then ("Limit reached", "time_limit")
    else last_status outcome (panel_status now f.panels ("Panel unavailable", "panel_unavailable"))

unfoldable pub view : ℕ → FollowUps → Option ChatGptState → Option CoordinationRun → FollowUpView
unfolding limits_of seconds_left last_outcome_of
view now f state run =
    let limits = limits_of state in
    let remaining = limits.follow_ups - f.attempts in
    let seconds = seconds_left now limits f in
    let outcome = last_outcome_of (get_last? f.claims) in
    let status = status_of now f state run remaining seconds outcome in
    record {
      enabled = f.enabled;
      revision = f.revision;
      started_at = f.started_at;
      remaining = remaining;
      seconds_remaining = seconds;
      status = status.0;
      reason = status.1;
      notified_through = f.notified_through;
      last_notification_at = f.last_notification_at;
      last_outcome = outcome;
    }

-- View where the room has no follow-ups yet.
pub view_of : ℕ → Option FollowUps → Option ChatGptState → Option CoordinationRun → FollowUpView
view_of now none state run = view now fresh state run
view_of now (some f) state run = view now f state run
