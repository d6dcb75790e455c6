-- ===== src/Remote/Device/Grants.antt =====
-- internal/remote/device/store.go: invitations, pairing and the grants of the paired devices.
use mohuddle.Base.{
  ℕ, ◌+◌, ◌*◌, Bool, true, false, not, ◌&&◌, ◌||◌, String, List, [], ◌∷◌, ◌++◌, Option, none, some,
  ℤ, ok, err, ◌>>=◌, ◌>>◌, or_fail, str_eq, ltb, if◌then◌else◌, trim_space,
}
use mohuddle.Remote.Device.{
  Bytes, bytes_eq, Packages, Scope, read_only, Grant, InvitationRecord, PersistentState, Invitation,
  Store, Answer, require, active, minute, hour, lifetime, invalid_room, invalid_lifetime,
  invalid_code, already_paired, grant_not_found, grant_unavailable,
}
use mohuddle.Remote.Device.Scopes.{normalize_scopes}
use mohuddle.Remote.Device.Codes.{hash_code, human_code, random_identifier, constant_hex_equal}
use mohuddle.Remote.Device.Durable.{
  Files, save_state, valid_identifier, validate_name, canonical_key,
}
use mohuddle.Remote.Device.Ephemeral.{require_open, invalidate_device}

-- What an operation finds outside: the time, its reads of crypto/rand in their order, `none` where one
-- fails, and the file system.
pub record Env : Type 0 where
  pub now : ℕ
  pub first_read : Option Bytes
  pub second_read : Option Bytes
  pub third_read : Option Bytes
  pub files : Files

unfoldable pub grant_index : List Grant → String → Option Grant
grant_index [] id = none
grant_index (g ∷ gs) id = if str_eq g.id id then some g else grant_index gs id

-- Write the grant that `grant_index` finds.
unfoldable pub update_grant : (Grant → Grant) → List Grant → String → List Grant
update_grant f [] id = []
update_grant f (g ∷ gs) id = if str_eq g.id id then f g ∷ gs else g ∷ update_grant f gs id

unfoldable pub prune_invitations : List InvitationRecord → ℕ → List InvitationRecord
prune_invitations [] now = []
prune_invitations (i ∷ is) now =
    let rest = prune_invitations is now in if ltb now i.expires_at then i ∷ rest else rest

-- Some active grant has a key with the same fingerprint.
module _ (p : Packages) where
  unfoldable pub is_paired : Bytes → List Grant → Bool
  is_paired canonical [] = false
  is_paired canonical (g ∷ gs) =
      let rest = is_paired canonical gs in
      (active g && bytes_eq (p.sha256 g.public_key) (p.sha256 canonical)) || rest

-- The state and the answer that an operation wants to make durable.
module _ (p : Packages) (env : Env) where
  -- The state in memory is replaced where the save succeeds.
  abbrev pub settle :
      {A : Type 0} → Store → PersistentState → A → Option String × Answer Unit → Store × Answer A
  settle s next a (file, ok done) = (record s { state = next; file = file }, ok a)
  settle s next a (file, err e) = (record s { file = file }, err e)

  -- What passed every check is built into the next state and the answer, and saved.
  abbrev pub commit :
      {A B : Type 0} → Store → (B → PersistentState × A) → Answer B → Store × Answer A
  commit s build (err e) = (s, err e)
  commit s build (ok b) =
      settle s (build b).0 (build b).1 (save_state p env.files (build b).0 s.file)

  abbrev pub invitation_of : String → String → String → String → List Scope → ℕ → InvitationRecord
  invitation_of id shown room_id name scopes ttl = record {
    id = id;
    code_hash = hash_code p shown;
    name = name;
    room_id = room_id;
    scopes = scopes;
    ceiling = read_only;
    created_at = env.now;
    expires_at = env.now + ttl;
  }

  -- The name, the code, the scopes and the lifetime of an invitation.
  abbrev pub invitable :
      Store → String → String → List Scope → ℤ → Answer (String × String × List Scope × ℕ)
  invitable s room_id name scopes asked = do
    valid_scopes ← normalize_scopes scopes
    require (valid_identifier room_id) invalid_room
    validate_name name
    ttl ← or_fail (lifetime (15 * minute) (24 * hour) asked) invalid_lifetime
    require_open s
    id ← random_identifier p env.first_read
    shown ← human_code p env.second_read
    ok (id, shown, valid_scopes, ttl)

  abbrev pub invited :
      Store → String → String → String × String × List Scope × ℕ → PersistentState × Invitation
  invited s room_id name (id, shown, scopes, ttl) = (
    record s.state {
      invitations =
          prune_invitations s.state.invitations env.now
          ++ invitation_of id shown room_id name scopes ttl ∷ [];
    },
    record { id = id; code = shown; expires_at = env.now + ttl },
  )

  unfoldable pub create_invitation :
      Store → String → String → List Scope → ℤ → Store × Answer Invitation
  create_invitation s room name scopes ttl =
      let room_id = trim_space room in
      let trimmed = trim_space name in
      commit s (invited s room_id trimmed) (invitable s room_id trimmed scopes ttl)

  -- The last invitation that is open under a hash, and the invitations without it.
  abbrev pub opens : String → InvitationRecord → Bool
  opens wanted i = ltb env.now i.expires_at && constant_hex_equal p i.code_hash wanted

  abbrev pub or_first :
      InvitationRecord
      → List InvitationRecord
      → Bool
      → Option (InvitationRecord × List InvitationRecord)
      → Option (InvitationRecord × List InvitationRecord)
  or_first i is opened (some (j, rest)) = some (j, i ∷ rest)
  or_first i is true none = some (i, is)
  or_first i is false none = none

  unfoldable pub take_invitation :
      String → List InvitationRecord → Option (InvitationRecord × List InvitationRecord)
  take_invitation wanted [] = none
  take_invitation wanted (i ∷ is) = or_first i is (opens wanted i) (take_invitation wanted is)

  abbrev pub grant_of : String → InvitationRecord → Bytes → Grant
  grant_of id i canonical = record {
    id = id;
    name = i.name;
    room_id = i.room_id;
    public_key = canonical;
    scopes = i.scopes;
    ceiling = read_only;
    created_at = env.now;
    updated_at = env.now;
    revoked_at = none;
  }

  -- The name of the grant, the invitation with the others that stay, and the canonical key.
  abbrev pub pairable :
      Store → String → Bytes → Answer (String × (InvitationRecord × List InvitationRecord) × Bytes)
  pairable s entered public_key = do
    key ← canonical_key p public_key
    require_open s
    taken ← or_fail (take_invitation (hash_code p entered) s.state.invitations) invalid_code
    require (not (is_paired p key.0 s.state.grants)) already_paired
    id ← random_identifier p env.first_read
    ok (id, taken, key.0)

  abbrev pub paired :
      Store → String × (InvitationRecord × List InvitationRecord) × Bytes → PersistentState × Grant
  paired s (id, (i, others), canonical) = (
    record s.state {
      invitations = prune_invitations others env.now;
      grants = s.state.grants ++ grant_of id i canonical ∷ [];
    },
    grant_of id i canonical,
  )

  unfoldable pub pair : Store → String → Bytes → Store × Answer Grant
  pair s entered public_key = commit s (paired s) (pairable s entered public_key)

  -- Once the grant is changed, whatever was issued under it ends.
  abbrev pub then_invalidate : {A : Type 0} → String → Store × Answer A → Store × Answer A
  then_invalidate device_id (s, ok a) = (invalidate_device device_id s, ok a)
  then_invalidate device_id (s, err e) = (s, err e)

  abbrev pub revoked : Grant → Grant
  revoked g = record g { revoked_at = some env.now; updated_at = env.now }

  abbrev pub without : Store → String → Grant → PersistentState × Unit {0}
  without s device_id g =
      (record s.state { grants = update_grant revoked s.state.grants device_id }, tt)

  abbrev pub revoke_grant : Store → String → Option Grant → Store × Answer Unit
  revoke_grant s device_id none = (s, err grant_not_found)
  revoke_grant s device_id (some g) =
      if active g then commit s (without s device_id) (ok g) else (s, ok tt)

  abbrev pub revoke_open : Store → String → Answer Unit → Store × Answer Unit
  revoke_open s device_id (err e) = (s, err e)
  revoke_open s device_id (ok opened) =
      revoke_grant s device_id (grant_index s.state.grants device_id)

  unfoldable pub revoke : Store → String → Store × Answer Unit
  revoke s device =
      let device_id = trim_space device in
      then_invalidate device_id (revoke_open s device_id (require_open s))

  abbrev pub with_scopes : List Scope → Grant → Grant
  with_scopes scopes g = record g { scopes = scopes; updated_at = env.now }

  abbrev pub rescopable : Store → String → List Scope → Answer (List Scope × Grant)
  rescopable s device_id scopes = do
    normalized ← normalize_scopes scopes
    require_open s
    g ← or_fail (grant_index s.state.grants device_id) grant_unavailable
    require (active g) grant_unavailable
    ok (normalized, g)

  abbrev pub rescoped : Store → String → List Scope × Grant → PersistentState × Grant
  rescoped s device_id (scopes, g) = (
    record s.state { grants = update_grant (with_scopes scopes) s.state.grants device_id },
    with_scopes scopes g,
  )

  unfoldable pub set_scopes : Store → String → List Scope → Store × Answer Grant
  set_scopes s device scopes =
      let device_id = trim_space device in
      then_invalidate device_id (commit s (rescoped s device_id) (rescopable s device_id scopes))

unfoldable pub grant : Store → String → Option Grant
grant s device_id = grant_index s.state.grants (trim_space device_id)
