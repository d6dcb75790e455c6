-- ===== src/Chat/Coordination.antt =====
-- internal/chat/handoff.go, coordination.go: handoffs of a coordinator and their reminders. A time is in
-- nanoseconds since Go's zero time, and that one is 0.
use mohuddle.Base.{
  ℕ, zero, suc, ◌+◌, ◌-◌, ◌*◌, Bool, true, false, not, ◌&&◌, ◌||◌, String, List, [], ◌∷◌, ◌++◌,
  Option, none, some, ltb, leb, str_eq, is_empty, if◌then◌else◌, length, drop,
}

abbrev pub second : ℕ
second = 1_000_000_000

pub record NotificationAttempt : Type 0 where
  pub panel_id : String
  pub id : String
  pub at_time : ℕ
  pub outcome : String
  pub automatic : Bool

-- The fields that decide when a coordinator is reminded.
pub record Handoff : Type 0 where
  pub id : String
  pub waiting_on : String
  pub needs_reconciliation : Bool
  pub ready_at : ℕ
  pub resolution : String
  pub waiting_for : String
  pub attempts : List NotificationAttempt

pub record CoordinationPanel : Type 0 where
  pub id : String
  pub mode : String
  pub seen_at : ℕ
  pub started_at : ℕ
  pub attempts : ℕ

pub is_open : Handoff → Bool
is_open h = is_empty h.resolution

pub actionable : Handoff → Bool
unfolding is_open
actionable h =
    is_open h
    && is_empty h.waiting_for
    && (is_empty h.waiting_on || str_eq h.waiting_on "coordinator")
    && not h.needs_reconciliation

-- The loop over the attempts; none where the host rejected one.
pub automatic_attempts : List NotificationAttempt → ℕ → Option ℕ
automatic_attempts [] n = some n
automatic_attempts (a ∷ rest) n =
    let later = automatic_attempts rest (if a.automatic then n + 1 else n) in
    if str_eq a.outcome "host_rejected" then none else later

abbrev delay : ℕ → ℕ
delay zero = 0
delay (suc zero) = 60 * second
delay (suc (suc n)) = 180 * second

due_after : Option ℕ → Handoff → ℕ → Bool
due_after none h now = false
due_after (some n) h now = if leb 3 n then false else leb (h.ready_at + delay n) now

pub due : ℕ → Handoff → Bool
unfolding actionable due_after
due now h = if actionable h then due_after (automatic_attempts h.attempts 0) h now else false

pub record CoordinationEvent : Type 0 where
  pub id : String
  pub kind : String
  pub at_time : ℕ
  pub result_id : String
  pub source_sequence : ℕ
  pub outcome : String
  pub detail : String

-- The fields of the run that the follow-ups and the record of events read.
pub record CoordinationRun : Type 0 where
  pub handoffs : List Handoff
  pub panels : List CoordinationPanel
  pub last_notification_at : ℕ
  pub id : String
  pub state : String
  pub events : List CoordinationEvent

pub has_event : CoordinationEvent → List CoordinationEvent → Bool
has_event e [] = false
has_event e (old ∷ rest) =
    let later = has_event e rest in
    if str_eq old.id e.id && str_eq old.kind e.kind then true else later

-- At most the 200 latest events.
recent_events : List CoordinationEvent → List CoordinationEvent
recent_events events = if ltb 200 (length events) then drop (length events - 200) events else events

pub record_event : CoordinationEvent → CoordinationRun → CoordinationRun × Bool
unfolding recent_events
record_event e r =
    if has_event e r.events
    then (r, false)
    else (record r { events = recent_events (r.events ++ e ∷ []) }, true)
