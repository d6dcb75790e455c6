-- ===== src/Remote/Device/Sessions.antt =====
-- internal/remote/device/store.go: the challenge that a device signs, and the session that follows.
pub mod Frame
use Prim.Native.String.{◌++◌ as append_text}
use mohuddle.Base.{
  ℕ, suc, ◌+◌, ◌*◌, ◌≡◌, Bool, true, false, not, ◌&&◌, ◌||◌, String, List, [], ◌∷◌, Option, none,
  some, ℤ, pos, negsuc, ok, err, ◌>>=◌, ◌>>◌, or_fail, Result, str_eq, ltb, ◌==◌, if◌then◌else◌,
  trim_space, utf8, length, take, drop, lookup, insert, delete, string_eq,
}
use mohuddle.Remote.Device.{
  Bytes, bytes_eq, Packages, read_only, Grant, Challenge, Session, SessionRecord,
  SessionCredentials, Store, DeviceError, Answer, require, active, is_none, min_time, second,
  minute, hour, lifetime, invalid_lifetime, grant_unavailable, invalid_challenge,
  invalid_stored_key, invalid_signature, no_random, invalid_session_lifetime, invalid_session,
}
use mohuddle.Remote.Device.Codes.{random_identifier, random_secret}
use mohuddle.Remote.Device.Durable.{canonical_key}
use mohuddle.Remote.Device.Ephemeral.{require_open, prune_ephemeral, close_session, snapshot}
use mohuddle.Remote.Device.Grants.{Env, grant_index}

abbrev pub join_lines : List String → String
join_lines [] = ""
join_lines (x ∷ []) = x
join_lines (x ∷ y ∷ r) = append_text x (append_text "\n" (join_lines (y ∷ r)))

-- A lifetime of a session: zero stands for the default.
abbrev pub or_default : ℕ → ℤ → Option ℕ
or_default default_ttl (pos n) = if n == 0 then some default_ttl else some n
or_default default_ttl (negsuc n) = none

abbrev pub lifetimes : Option ℕ → Option ℕ → Answer (ℕ × ℕ)
lifetimes (some idle) (some absolute) =
    if ltb idle second || ltb absolute second || ltb absolute idle || ltb (24 * hour) absolute
    then err invalid_session_lifetime
    else ok (idle, absolute)
lifetimes _ _ = err invalid_session_lifetime

abbrev pub find_active : List Grant → String → Answer Grant
find_active grants device_id = do
  g ← or_fail (grant_index grants device_id) grant_unavailable
  require (active g) grant_unavailable
  ok g

module _ (p : Packages) (env : Env) where
  abbrev pub challenge_of : String → Bytes → String → Grant → ℕ → Challenge
  challenge_of id nonce device_id g expires_at = record {
    id = id;
    device_id = device_id;
    room_id = g.room_id;
    payload = join_lines (
        "mohuddle-device-session-v1"
        ∷ id
        ∷ device_id
        ∷ g.room_id
        ∷ p.encode_base64 nonce
        ∷ p.format_time expires_at
        ∷ []);
    expires_at = expires_at;
  }

  abbrev pub challenged : Store → String → ℕ → Answer Challenge
  challenged s device_id ttl = do
    g ← find_active s.state.grants device_id
    id ← random_identifier p env.first_read
    nonce ← or_fail env.second_read no_random
    ok (challenge_of id nonce device_id g (env.now + ttl))

  abbrev pub keep_challenge : Store → Answer Challenge → Store × Answer Challenge
  keep_challenge s (err e) = (s, err e)
  keep_challenge s (ok c) = (record s { challenges = insert c.id c s.challenges }, ok c)

  abbrev pub issue : Store → String → Answer ℕ → Store × Answer Challenge
  issue s device_id (err e) = (s, err e)
  issue s device_id (ok ttl) =
      let t = prune_ephemeral env.now s in keep_challenge t (challenged t device_id ttl)

  -- What is checked before anything is pruned.
  abbrev pub issuable : Store → ℤ → Answer ℕ
  issuable s asked = do
    ttl ← or_fail (lifetime (2 * minute) (10 * minute) asked) invalid_lifetime
    require_open s
    ok ttl

  unfoldable pub new_challenge : Store → String → ℤ → Store × Answer Challenge
  new_challenge s device_id ttl = issue s (trim_space device_id) (issuable s ttl)

  abbrev pub verify_raw : p.PublicKey → Bytes → Bytes → Bool
  verify_raw key payload signature =
      if length signature == 64
      then p.verify key (p.sha256 payload) (take 32 signature) (drop 32 signature)
      else false

  abbrev pub stored_key : Answer (Bytes × p.PublicKey) → Answer p.PublicKey
  stored_key (err e) = err invalid_stored_key
  stored_key (ok (canonical, key)) = ok key

  abbrev pub record_of : String → Grant → String → String → String → ℕ → ℕ → ℕ → SessionRecord
  record_of id g device_id token csrf idle absolute channel = record {
    id = id;
    device_id = device_id;
    room_id = g.room_id;
    scopes = g.scopes;
    ceiling = read_only;
    token_hash = p.sha256 (utf8 token);
    csrf_hash = p.sha256 (utf8 csrf);
    created_at = env.now;
    last_seen_at = env.now;
    idle_ttl = idle;
    idle_expires_at = min_time (env.now + idle) (env.now + absolute);
    absolute_expires_at = env.now + absolute;
    done = channel;
    closed = false;
  }

  -- The session that a completed challenge mints, with its token and CSRF token.
  abbrev pub minted :
      Store → Option Challenge → String → Bytes → ℕ × ℕ → Answer (String × String × SessionRecord)
  minted s found device_id signature (idle, absolute) = do
    c ← or_fail found invalid_challenge
    require (str_eq c.device_id device_id && ltb env.now c.expires_at) invalid_challenge
    g ← find_active s.state.grants device_id
    key ← stored_key (canonical_key p g.public_key)
    require (verify_raw key (utf8 c.payload) signature) invalid_signature
    token ← random_secret p env.first_read
    csrf ← random_secret p env.second_read
    id ← random_identifier p env.third_read
    ok (token, csrf, record_of id g device_id token csrf idle absolute s.channels)

  abbrev pub keep_session :
      Store → Answer (String × String × SessionRecord) → Store × Answer SessionCredentials
  keep_session s (err e) = (s, err e)
  keep_session s (ok (token, csrf, r)) = (
    record s { sessions = insert r.id r s.sessions; channels = suc s.channels },
    ok (record { token = token; csrf_token = csrf; session = snapshot r }),
  )

  abbrev pub complete :
      Store → String → String → Bytes → Answer (ℕ × ℕ) → Store × Answer SessionCredentials
  complete s device_id id signature (err e) = (s, err e)
  complete s device_id id signature (ok ttls) =
      let t = prune_ephemeral env.now s in
      let found = lookup id t.challenges in
      let used = record t { challenges = delete id t.challenges } in
      keep_session used (minted used found device_id signature ttls)

  abbrev pub completable : Store → ℤ → ℤ → Answer (ℕ × ℕ)
  completable s idle absolute = do
    ttls ← lifetimes (or_default (15 * minute) idle) (or_default (8 * hour) absolute)
    require_open s
    ok ttls

  unfoldable pub complete_challenge :
      Store → String → String → Bytes → ℤ → ℤ → Store × Answer SessionCredentials
  complete_challenge s device_id id signature idle absolute =
      complete s device_id id signature (completable s idle absolute)

  -- The last session whose token hash matches, as the loop leaves it.
  abbrev pub or_else {ℓ} : {A : Type ℓ} → Option A → Option A → Option A
  or_else (some a) o = some a
  or_else none o = o

  unfoldable pub matched : Bytes → List (String × SessionRecord) → Option (String × SessionRecord)
  matched wanted [] = none
  matched wanted ((k, r) ∷ m) =
      or_else (matched wanted m) (if bytes_eq r.token_hash wanted then some (k, r) else none)

  abbrev pub touched : SessionRecord → SessionRecord
  touched r = record r {
    last_seen_at = env.now;
    idle_expires_at = min_time (env.now + r.idle_ttl) r.absolute_expires_at;
  }

  abbrev pub admit : Store → String → SessionRecord → Answer Grant → Store × Answer Session
  admit s key r (err e) =
      (record s { sessions = delete r.id s.sessions; ended = close_session r s.ended }, err e)
  admit s key r (ok g) =
      (record s { sessions = insert key (touched r) s.sessions }, ok (snapshot (touched r)))

  abbrev pub admit_matched : Store → Option (String × SessionRecord) → Store × Answer Session
  admit_matched s none = (s, err invalid_session)
  admit_matched s (some (key, r)) = admit s key r (find_active s.state.grants r.device_id)

  abbrev pub authenticate_open : Store → String → Answer Unit → Store × Answer Session
  authenticate_open s token (err e) = (s, err e)
  authenticate_open s token (ok opened) =
      let t = prune_ephemeral env.now s in
      admit_matched t (matched (p.sha256 (utf8 token)) t.sessions)

  unfoldable pub authenticate : Store → String → Store × Answer Session
  authenticate s token = authenticate_open s token (require_open s)

  abbrev pub csrf_matches : Bytes → Option SessionRecord → Bool
  csrf_matches wanted none = false
  csrf_matches wanted (some r) = bytes_eq r.csrf_hash wanted

  unfoldable pub verify_csrf : Store → String → String → Store × Bool
  verify_csrf s session_id csrf_token =
      let t = prune_ephemeral env.now s in
      (t, csrf_matches (p.sha256 (utf8 csrf_token)) (lookup session_id t.sessions))
