-- ===== src/Remote/Device.antt =====
-- internal/remote/device/store.go: the records of the store and what it takes of Go's packages. A
-- time is in nanoseconds since Go's zero time, and that one is 0.
pub mod Scopes
pub mod Codes
pub mod Durable
pub mod Ephemeral
pub mod Grants
pub mod Sessions
pub mod History
pub mod Sound
pub mod Changes
pub mod Saves
pub mod Once
pub mod Pairing
mod Tests
use mohuddle.Base.{
  ℕ, ◌&&◌, ◌==◌, Bool, true, false, String, List, [], ◌∷◌, Option, none, some, ℤ, pos, negsuc, ltb,
  ◌||◌, if◌then◌else◌, Char, Result, ok, err, ◌*◌, ◌≡◌, refl, ◌>>◌, str_eq,
}

abbrev pub Bytes : Type 0
Bytes = List ℕ

abbrev pub bytes_eq : Bytes → Bytes → Bool
bytes_eq [] [] = true
bytes_eq (x ∷ xs) (y ∷ ys) = x == y && bytes_eq xs ys
bytes_eq _ _ = false

pub data Scope : Type 0 where
  observe : Scope
  participate : Scope
  admin : Scope
  other_scope : String → Scope

pub data PermissionCeiling : Type 0 where
  read_only : PermissionCeiling
  other_ceiling : String → PermissionCeiling

pub record Grant : Type 0 where
  pub id : String
  pub name : String
  pub room_id : String
  pub public_key : Bytes
  pub scopes : List Scope
  pub ceiling : PermissionCeiling
  pub created_at : ℕ
  pub updated_at : ℕ
  pub revoked_at : Option ℕ

pub record InvitationRecord : Type 0 where
  pub id : String
  pub code_hash : String
  pub name : String
  pub room_id : String
  pub scopes : List Scope
  pub ceiling : PermissionCeiling
  pub created_at : ℕ
  pub expires_at : ℕ

pub record PersistentState : Type 0 where
  pub version : String
  pub invitations : List InvitationRecord
  pub grants : List Grant

pub record Invitation : Type 0 where
  pub id : String
  pub code : String
  pub expires_at : ℕ

pub record Challenge : Type 0 where
  pub id : String
  pub device_id : String
  pub room_id : String
  pub payload : String
  pub expires_at : ℕ

-- A channel is the number of its allocation.
pub record Session : Type 0 where
  pub id : String
  pub device_id : String
  pub room_id : String
  pub scopes : List Scope
  pub ceiling : PermissionCeiling
  pub created_at : ℕ
  pub last_seen_at : ℕ
  pub idle_expires_at : ℕ
  pub absolute_expires_at : ℕ
  pub done : ℕ

pub record SessionRecord : Type 0 where
  pub id : String
  pub device_id : String
  pub room_id : String
  pub scopes : List Scope
  pub ceiling : PermissionCeiling
  pub token_hash : Bytes
  pub csrf_hash : Bytes
  pub created_at : ℕ
  pub last_seen_at : ℕ
  pub idle_ttl : ℕ
  pub idle_expires_at : ℕ
  pub absolute_expires_at : ℕ
  pub done : ℕ
  pub closed : Bool

pub record SessionCredentials : Type 0 where
  pub token : String
  pub csrf_token : String
  pub session : Session

-- The packages of Go that the store calls: crypto/sha256, crypto/x509 with crypto/ecdsa on P-256,
-- encoding/hex, encoding/base32 and encoding/base64, the table of unicode.ToUpper and the print of
-- a time.
pub record Packages : Type 1 where
  pub PublicKey : Type 0
  pub sha256 : Bytes → Bytes
  pub parse_key : Bytes → Option PublicKey
  pub marshal_key : PublicKey → Option Bytes
  pub verify : PublicKey → Bytes → Bytes → Bytes → Bool
  pub encode_hex : Bytes → String
  pub decode_hex : String → Option Bytes
  pub encode_base32 : Bytes → String
  pub encode_base64 : Bytes → String
  pub to_upper : Char → Char
  pub format_time : ℕ → String
  -- json.MarshalIndent of the state, and json.Unmarshal into one with the version of now.
  pub encode_state : PersistentState → Option String
  pub decode_state : String → Option PersistentState

-- The store, with the content of its file, the channels made so far and those that are closed.
pub record Store : Type 0 where
  pub state : PersistentState
  pub challenges : List (String × Challenge)
  pub sessions : List (String × SessionRecord)
  pub closed : Bool
  pub file : Option String
  pub channels : ℕ
  pub ended : List ℕ

pub data DeviceError : Type 0 where
  unencodable path_required no_parent parent_not_found linked_parent parent_not_a_directory :
      DeviceError
  parent_mode not_regular file_mode file_failed unreadable undecodable : DeviceError
  unsupported_version invalid_invitation invalid_invitation_scopes invalid_grant : DeviceError
  invalid_grant_scopes invalid_grant_key invalid_revocation : DeviceError
  duplicate_scope invalid_scope incomplete_scopes : DeviceError
  unparsed_key unmarshalled_key : DeviceError
  invalid_room bad_name control_in_name invalid_lifetime store_closed no_random : DeviceError
  invalid_code already_paired grant_not_found grant_unavailable : DeviceError
  invalid_challenge invalid_stored_key invalid_signature : DeviceError
  invalid_session_lifetime invalid_session : DeviceError

abbrev pub Answer : Type 0 → Type 0
Answer = Result DeviceError

abbrev pub require : Bool → DeviceError → Answer Unit
require true e = ok tt
require false e = err e

-- A check that a chain passed held, and the chain goes on.
pub require_passed :
    {A : Type 0} (b : Bool) (e : DeviceError) (rest : Answer A) {y : A}
    → (require b e >> rest) ≡ ok y
    → (b ≡ true) × (rest ≡ ok y)
require_passed true e rest h = (refl, h)
require_passed false e rest h = cc

-- A grant that is not revoked.
abbrev pub is_none {ℓ} : {A : Type ℓ} → Option A → Bool
is_none none = true
is_none (some x) = false

pub is_none-eq : {A : Type 0} (o : Option A) → is_none o ≡ true → o ≡ none
is_none-eq none h = refl
is_none-eq (some a) h = cc

abbrev pub active : Grant → Bool
active g = is_none g.revoked_at

unfoldable pub min_time : ℕ → ℕ → ℕ
min_time left right = if ltb left right then left else right

abbrev pub second : ℕ
second = 1_000_000_000

abbrev pub minute : ℕ
minute = 60 * second

abbrev pub hour : ℕ
hour = 60 * minute

-- A lifetime that a caller asks for: zero stands for the default, and only one from a second to
-- the maximum is accepted.
abbrev pub lifetime : ℕ → ℕ → ℤ → Option ℕ
lifetime default_ttl maximum (pos n) =
    let ttl = if n == 0 then default_ttl else n in
    if ltb ttl second || ltb maximum ttl then none else some ttl
lifetime default_ttl maximum (negsuc n) = none
