-- ===== src/Remote/Device/Durable.antt =====
-- internal/remote/device/store.go: the durable state, what makes it valid, and the file that holds it.
-- A Go string is UTF-8 here, and JSON is a parameter.
use Prim.Native.String.{[] as nil, ◌∷◌ as ◌◂◌, ◌++◌ as append_text}
use mohuddle.Base.{
  ℕ, ◌≡◌, Bool, true, false, not, ◌&&◌, ◌||◌, code, String, len, List, [], ◌∷◌, Option, none, some,
  ok, err, ◌>>=◌, ◌>>◌, or_fail, head_step, last_step, first_step, or_fail-eq-ok, ok_inj, Result,
  str_eq, is_empty, if◌then◌else◌, ltb, leb, ◌==◌, trim_space, is_control, string_eq, lookup,
  insert,
}
use mohuddle.Remote.Device.{
  Bytes, Packages, PermissionCeiling, read_only, other_ceiling, Grant, InvitationRecord,
  PersistentState, Store, Answer, require, path_required, no_parent, parent_not_found,
  linked_parent, parent_not_a_directory, parent_mode, not_regular, file_mode, file_failed,
  unreadable, undecodable, unencodable, unsupported_version, invalid_invitation,
  invalid_invitation_scopes, invalid_grant, invalid_grant_scopes, invalid_grant_key,
  invalid_revocation, unparsed_key, unmarshalled_key, bad_name, control_in_name, is_none,
}
use mohuddle.Remote.Device.Scopes.{normalize_scopes}
use mohuddle.Remote.Device.Codes.{valid_hash}

abbrev pub state_version : String
state_version = "mohuddle.remote-devices.v1"

-- The characters of an identifier.
abbrev is_alphanumeric : ℕ → Bool
is_alphanumeric c = (leb 65 c && leb c 90) || (leb 97 c && leb c 122) || (leb 48 c && leb c 57)

abbrev is_punctuation : ℕ → Bool
is_punctuation c = c == 46 || c == 95 || c == 58 || c == 64 || c == 45

abbrev identifier_tail : String → Bool
identifier_tail nil = true
identifier_tail (c ◂ s) = (is_alphanumeric (code c) || is_punctuation (code c)) && identifier_tail s

abbrev identifier_head : String → Bool
identifier_head nil = true
identifier_head (c ◂ s) = is_alphanumeric (code c) && identifier_tail s

unfoldable pub valid_identifier : String → Bool
valid_identifier value =
    if ltb (len value) 1 || ltb 128 (len value) then false else identifier_head value

abbrev has_control : String → Bool
has_control nil = false
has_control (c ◂ s) = is_control (code c) || has_control s

unfoldable pub validate_name : String → Answer Unit
validate_name name = do
  require (not (is_empty name || ltb 128 (len name) || not (str_eq (trim_space name) name)))
      bad_name
  require (not (has_control name)) control_in_name

abbrev is_ok {ℓ κ} : {X : Type κ} {A : Type ℓ} → Result X A → Bool
is_ok (ok a) = true
is_ok (err x) = false

abbrev is_read_only : PermissionCeiling → Bool
is_read_only read_only = true
is_read_only (other_ceiling t) = false

module _ (p : Packages) where
  -- The key and its canonical form: `parse_key` answers `none` for bytes that are not the key of a
  -- point on P-256.
  unfoldable pub canonical_key : Bytes → Answer (Bytes × p.PublicKey)
  canonical_key value = do
    key ← or_fail (p.parse_key value) unparsed_key
    canonical ← or_fail (p.marshal_key key) unmarshalled_key
    ok (canonical, key)

  abbrev valid_invitation : InvitationRecord → Bool
  valid_invitation i =
      valid_identifier i.id
      && valid_hash p i.code_hash
      && valid_identifier i.room_id
      && is_ok (validate_name i.name)
      && is_read_only i.ceiling
      && not (i.created_at == 0)
      && ltb i.created_at i.expires_at

  -- The loop over the invitations, with the names of those before.
  abbrev validate_invitations : List (String × Bool) → List InvitationRecord → Answer Unit
  validate_invitations ids [] = ok tt
  validate_invitations ids (i ∷ is) = do
    require (valid_invitation i && is_none (lookup i.id ids)) invalid_invitation
    require (is_ok (normalize_scopes i.scopes)) invalid_invitation_scopes
    validate_invitations (insert i.id true ids) is

  abbrev valid_grant : Grant → Bool
  valid_grant g =
      valid_identifier g.id
      && valid_identifier g.room_id
      && is_ok (validate_name g.name)
      && is_read_only g.ceiling
      && not (g.created_at == 0)
      && not (ltb g.updated_at g.created_at)

  abbrev valid_revocation : ℕ → Option ℕ → Bool
  valid_revocation created none = true
  valid_revocation created (some revoked) = not (ltb revoked created)

  abbrev validate_grants : List (String × Bool) → List Grant → Answer Unit
  validate_grants ids [] = ok tt
  validate_grants ids (g ∷ gs) = do
    require (valid_grant g && is_none (lookup g.id ids)) invalid_grant
    require (is_ok (normalize_scopes g.scopes)) invalid_grant_scopes
    require (is_ok (canonical_key g.public_key)) invalid_grant_key
    require (valid_revocation g.created_at g.revoked_at) invalid_revocation
    validate_grants (insert g.id true ids) gs

  unfoldable pub validate_state : PersistentState → Answer Unit
  validate_state state = do
    require (str_eq state.version state_version) unsupported_version
    validate_invitations [] state.invitations
    validate_grants [] state.grants

-- What lstat answers: whether the entry is a regular file, a directory, a link, and its mode.
pub data Entry : Type 0 where
  missing : Entry
  failed : Entry
  found : (regular directory link : Bool) (mode : ℕ) → Entry

-- What the file system answers to a save or a load: the parent directory is made, its name resolved
-- and looked at; the file is looked at; then each step of the write by itself.
pub record Files : Type 0 where
  pub makes_parent : Bool
  pub absolute : Option String
  pub resolved : Option String
  pub parent : Entry
  pub entry : Entry
  pub creates : Bool
  pub sets_mode : Bool
  pub writes : Bool
  pub syncs : Bool
  pub closes : Bool
  pub renames : Bool
  pub keeps_mode : Bool

check_parent : Entry → Answer Unit
check_parent (found regular directory link mode) = do
  require (directory && not link) parent_not_a_directory
  require (mode == 448) parent_mode
check_parent _ = err parent_not_found

-- `filepath.Clean` of both names is part of `absolute` and `resolved`.
pub ensure_private_parent : Files → Answer Unit
unfolding check_parent
ensure_private_parent f = do
  require f.makes_parent no_parent
  absolute ← or_fail f.absolute parent_not_found
  resolved ← or_fail f.resolved parent_not_found
  require (str_eq resolved absolute) linked_parent
  check_parent f.parent

-- A save accepts that there is no file yet.
check_entry : Entry → Answer Unit
check_entry missing = ok tt
check_entry failed = err file_failed
check_entry (found regular directory link mode) = do
  require (regular && not link) not_regular
  require (mode == 384) file_mode

module _ (p : Packages) where
  -- The part of `saveState` before the new content takes the file's place.
  pub prepare : Files → PersistentState → Answer String
  unfolding ensure_private_parent check_entry
  prepare f state = do
    validate_state p state
    ensure_private_parent f
    check_entry f.entry
    text ← or_fail (p.encode_state state) unencodable
    require (f.creates && f.sets_mode && f.writes && f.syncs && f.closes && f.renames) file_failed
    ok (append_text text "\n")

  -- What is written was valid, and is the state's encoding.
  pub prepare-valid :
      (f : Files) (state : PersistentState) (content : String)
      → prepare f state ≡ ok content
      → (validate_state p state ≡ ok tt)
        × ((text : String) × (p.encode_state state ≡ some text) × (append_text text "\n" ≡ content))
  unfolding prepare
  prepare-valid f state content e =
      let valid = head_step (validate_state p state) _ e in
      let parented = last_step (validate_state p state) _ e in
      let placeable = last_step (ensure_private_parent f) _ parented in
      let encoded = last_step (check_entry f.entry) _ placeable in
      let (text, written, made) =
        first_step (or_fail (p.encode_state state) unencodable) _ encoded in
      (
        valid.1,
        (
          text,
          or_fail-eq-ok (p.encode_state state) unencodable made,
          ok_inj (
              last_step
                (require (f.creates && f.sets_mode && f.writes && f.syncs && f.closes && f.renames)
                  file_failed)
                _ written),
        ),
      )

  abbrev pub placed : Files → Option String → Answer String → Option String × Answer Unit
  placed f file (err e) = (file, err e)
  placed f file (ok content) = (some content, require f.keeps_mode file_failed)

  -- The file after a save, and its answer: a mode that cannot be set again is an error although the
  -- new content is in place.
  unfoldable pub save_state : Files → PersistentState → Option String → Option String × Answer Unit
  unfolding prepare
  save_state f state file = placed f file (prepare f state)

  abbrev pub empty_state : PersistentState
  empty_state = record { version = state_version; invitations = []; grants = [] }

  -- A file that is there is read and decoded: `content` is `none` where it cannot be read.
  unfoldable pub load_state : Entry → Option String → Answer PersistentState
  load_state missing content = ok empty_state
  load_state failed content = err unreadable
  load_state (found regular directory link mode) content = do
    require (regular && not link) not_regular
    require (mode == 384) file_mode
    text ← or_fail content unreadable
    state ← or_fail (p.decode_state text) undecodable
    validate_state p state
    ok state

  abbrev pub held : Entry → Option String → Option String
  held missing content = none
  held _ content = content

  -- A path whose cleaned text is empty or a dot is refused.
  unfoldable pub opening : String → Files → Answer Unit
  unfolding ensure_private_parent check_parent
  opening path f = do
    require (not (str_eq path "." || is_empty path)) path_required
    ensure_private_parent f

  abbrev pub fresh : PersistentState → Option String → Store
  fresh state file = record {
    state = state;
    challenges = [];
    sessions = [];
    closed = false;
    file = file;
    channels = 0;
    ended = [];
  }

  unfoldable pub open_store : String → Files → Option String → Answer Store
  open_store path f content = do
    opening path f
    state ← load_state f.entry content
    ok (fresh state (held f.entry content))
