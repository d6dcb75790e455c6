-- ===== src/Remote/Device/Ephemeral.antt =====
-- internal/remote/device/store.go: the challenges and sessions in memory, and what removes them.
use mohuddle.Base.{ℕ, Bool, true, not, ◌||◌, String, List, [], ◌∷◌, ltb, str_eq, if◌then◌else◌}
use mohuddle.Remote.Device.{Challenge, SessionRecord, Session, Store, Answer, require, store_closed}

abbrev pub require_open : Store → Answer Unit
require_open s = require (not s.closed) store_closed

-- Delete the entries of a map that a test names.
abbrev pub drop_where {ℓ} : {V : Type ℓ} → (V → Bool) → List (String × V) → List (String × V)
drop_where gone [] = []
drop_where gone ((k, v) ∷ m) =
    let rest = drop_where gone m in if gone v then rest else (k, v) ∷ rest

abbrev pub close_session : SessionRecord → List ℕ → List ℕ
close_session r ended = if r.closed then ended else r.done ∷ ended

-- The channels after the named sessions are closed.
abbrev pub close_where : (SessionRecord → Bool) → List (String × SessionRecord) → List ℕ → List ℕ
close_where gone [] ended = ended
close_where gone ((k, r) ∷ m) ended =
    let rest = close_where gone m ended in if gone r then close_session r rest else rest

abbrev pub end_sessions : (SessionRecord → Bool) → Store → Store
end_sessions gone s = record s {
  sessions = drop_where gone s.sessions;
  ended = close_where gone s.sessions s.ended;
}

abbrev pub challenge_over : ℕ → Challenge → Bool
challenge_over now c = not (ltb now c.expires_at)

abbrev pub session_over : ℕ → SessionRecord → Bool
session_over now r = not (ltb now r.idle_expires_at) || not (ltb now r.absolute_expires_at)

unfoldable pub prune_ephemeral : ℕ → Store → Store
prune_ephemeral now s =
    end_sessions (session_over now)
      (record s { challenges = drop_where (challenge_over now) s.challenges })

abbrev pub session_of : String → SessionRecord → Bool
session_of device_id r = str_eq r.device_id device_id

abbrev pub challenge_for : String → Challenge → Bool
challenge_for device_id c = str_eq c.device_id device_id

-- `invalidateDeviceSessionsLocked`, then the loop over the challenges.
unfoldable pub invalidate_device : String → Store → Store
invalidate_device device_id s =
    let ending = end_sessions (session_of device_id) s in
    record ending { challenges = drop_where (challenge_for device_id) s.challenges }

abbrev every_session : SessionRecord → Bool
every_session r = true

unfoldable pub close : Store → Store
close s = if s.closed then s else record s {
  closed = true;
  sessions = [];
  ended = close_where every_session s.sessions s.ended;
  challenges = [];
}

unfoldable pub snapshot : SessionRecord → Session
snapshot r = record {
  id = r.id;
  device_id = r.device_id;
  room_id = r.room_id;
  scopes = r.scopes;
  ceiling = r.ceiling;
  created_at = r.created_at;
  last_seen_at = r.last_seen_at;
  idle_expires_at = r.idle_expires_at;
  absolute_expires_at = r.absolute_expires_at;
  done = r.done;
}
