-- ===== src/Remote/Device/Tests.antt =====
-- Two devices of one room: codes, pairing, sessions, and what ends them.
use Prim.Native.String.{[] as nil, ◌∷◌ as ◌◂◌, char_at}
use Prim.Native.String.{◌++◌ as append_text}
use mathlib.Core.Option.{some_inj}
use mohuddle.Base.{
  ok_inj, str_eq, subst, sym, ℕ, suc, zero, ◌+◌, ◌-◌, ◌*◌, ◌/◌, ◌%◌, ◌≡◌, ◌≢◌, ◌↔◌, ◌⊎◌, ◌≤◌, refl,
  true, false, Char, code, String, List, [], ◌∷◌, ◌++◌, Option, none, some, ok, pos, if◌then◌else◌,
  ◌==◌, leb, length, take, Bool-cases, inl, inr, utf8, lookup, insert, delete, trim_space,
  is_control, every,
}
use mohuddle.Remote.Device.{
  Bytes, bytes_eq, Packages, min_time, read_only, observe, participate, Store, Answer, Session,
  SessionCredentials,
}
use mohuddle.Remote.Device.Scopes.{normalize_scopes, normalize_scopes_iff, ladder, IsLadder}
use mohuddle.Remote.Device.Codes.{
  is_separator, strip, upper, groups, join, human_code, normalize_code, hash_code,
  random_identifier, random_secret, constant_hex_equal, valid_hash,
}
use mohuddle.Remote.Device.Codes.RoundTrip.{PrintsBase32, is_base32, normalize_code-human_code}
use mohuddle.Remote.Device.Durable.{
  canonical_key, valid_identifier, validate_name, save_state, validate_state, opening, load_state,
  Files, found, missing, open_store, fresh,
}
use mohuddle.Remote.Device.Ephemeral.{prune_ephemeral, invalidate_device, snapshot}
use mohuddle.Remote.Device.Grants.{
  Env, prune_invitations, take_invitation, grant_index, update_grant, is_paired, create_invitation,
  pair, revoke, set_scopes,
}
use mohuddle.Remote.Device.Sessions.{
  completable, matched, new_challenge, authenticate, complete_challenge,
}
use mohuddle.Remote.Device.Sound.{IsSound}
use mohuddle.Remote.Device.Sound.Authority.{IsAuthorized, run-IsSound, authenticate-run}
use mohuddle.Remote.Device.Changes.Revoked.{authenticate-revoke}
use mohuddle.Remote.Device.Changes.Keys.{IsUnshared, run-IsUnshared}
use mohuddle.Remote.Device.Pairing.{pairings, invitations_of, pairings-le}
use mohuddle.Remote.Device.Once.{complete_challenge-once, AllIssueOther}
use mohuddle.Remote.Device.Saves.Errors.{Shrinks, perform-failed}
use mohuddle.Remote.Device.Saves.Restart.{Decodes, entry_of, open_store-run}
use mohuddle.Remote.Device.History.{
  authenticates, Operation, creates, pairs, challenges, completes, perform, run,
}

-- Packages that are simple enough to run.
abbrev digit : ℕ → Char
digit n = char_at "0123456789abcdef" n

abbrev hex : Bytes → String
hex [] = nil
hex (b ∷ bs) = digit (b / 16) ◂ digit (b % 16) ◂ hex bs

abbrev value : ℕ → ℕ
value c = if leb 97 c then c - 87 else c - 48

abbrev onto : ℕ → Option Bytes → Option Bytes
onto b none = none
onto b (some bs) = some (b ∷ bs)

abbrev unhex : String → Option Bytes
unhex (a ◂ b ◂ s) = onto (16 * value (code a) + value (code b)) (unhex s)
unhex nil = some []
unhex (a ◂ nil) = none

abbrev letter : ℕ → Char
letter n = if n == 0 then "A" else "2"

abbrev letters : Bytes → String
letters [] = nil
letters (b ∷ bs) = letter b ◂ letters bs

abbrev zeros : ℕ → Bytes
zeros zero = []
zeros (suc n) = 0 ∷ zeros n

abbrev simple : Packages
simple = record {
  PublicKey = Bytes;
  sha256 = λ b. take 32 (b ++ zeros 32);
  parse_key = λ b. if length b == 0 then none else some b;
  marshal_key = λ k. some k;
  verify = λ key digest r s. bytes_eq (take 1 r) (take 1 key);
  encode_hex = hex;
  decode_hex = unhex;
  encode_base32 = letters;
  encode_base64 = hex;
  to_upper = λ c. c;
  format_time = λ t. "later";
  encode_state = λ s. if length s.grants == 0 then some "invited" else some "joined";
  decode_state = λ t. none;
}

simple-PrintsBase32 : PrintsBase32 simple
simple-PrintsBase32 = record { in_alphabet = letters-every; is_upper = λ c h. refl }
  where
    letters-every : (b : Bytes) → every is_base32 (letters b) ≡ true
    letters-every [] = refl
    letters-every (b ∷ bs) = elim (Bool-cases (b == 0)) [
      | inl e ↦ rw e (letters-every bs)
      | inr e ↦ rw e (letters-every bs)
    ]

abbrev sixteen : Bytes
sixteen = 0 ∷ 1 ∷ 0 ∷ 1 ∷ 0 ∷ 1 ∷ 0 ∷ 1 ∷ 0 ∷ 1 ∷ 0 ∷ 1 ∷ 0 ∷ 1 ∷ 0 ∷ 1 ∷ []

shown_code : human_code simple (some sixteen) ≡ ok "A2A2A-2A2A2-A2A2A-2"
unfolding human_code groups join
shown_code = refl

abbrev working : Files
working = record {
  makes_parent = true;
  absolute = some "/home/mohuddle";
  resolved = some "/home/mohuddle";
  parent = found false true false 448;
  entry = missing;
  creates = true;
  sets_mode = true;
  writes = true;
  syncs = true;
  closes = true;
  renames = true;
  keeps_mode = true;
}

abbrev moment : ℕ → Bytes → Bytes → Bytes → Env
moment seconds a b c = record {
  now = seconds * 1_000_000_000;
  first_read = some a;
  second_read = some b;
  third_read = some c;
  files = working;
}

abbrev opened : Store
opened =
    fresh simple (record { version = "mohuddle.remote-devices.v1"; invitations = []; grants = [] })
      none

-- A phone is phone_invited, pairs, gets a challenge and completes it.
abbrev phone_joins : List (Env × Operation)
phone_joins =
    (moment 1 (1 ∷ []) sixteen [], creates " room" "Phone" (participate ∷ observe ∷ []) (pos 0))
    ∷ (moment 2 (2 ∷ []) [] [], pairs "A2A2A-2A2A2-A2A2A-2" (7 ∷ []))
    ∷ (moment 3 (3 ∷ []) (4 ∷ []) [], challenges "02" (pos 0))
    ∷ (moment 4 (5 ∷ []) (6 ∷ []) (8 ∷ []), completes "02" "03" signature (pos 0) (pos 0))
    ∷ []
  where
    signature : Bytes
    signature = 7 ∷ zeros 63

abbrev joined : Store
joined = run simple opened phone_joins

abbrev tried : Store × Answer Session
tried = authenticate simple (moment 5 [] [] []) joined "05"

abbrev tablet_joins : List (Env × Operation)
tablet_joins =
    (moment 7 (17 ∷ []) (zeros 16) [], creates "room" "Tablet" (observe ∷ []) (pos 0))
    ∷ (moment 8 (18 ∷ []) [] [], pairs "AAAAA-AAAAA-AAAAA-A" (9 ∷ []))
    ∷ (moment 9 (19 ∷ []) (4 ∷ []) [], challenges "12" (pos 0))
    ∷ (moment 10 (20 ∷ []) (21 ∷ []) (22 ∷ []), completes "12" "13" signature (pos 0) (pos 0))
    ∷ []
  where
    signature : Bytes
    signature = 9 ∷ zeros 63

abbrev phone_session : Session
phone_session = record {
  id = "08";
  device_id = "02";
  room_id = "room";
  scopes = observe ∷ participate ∷ [];
  ceiling = read_only;
  created_at = 4_000_000_000;
  last_seen_at = 5_000_000_000;
  idle_expires_at = 905_000_000_000;
  absolute_expires_at = 28_804_000_000_000;
  done = 0;
}

abbrev tablet_session : Session
tablet_session = record {
  id = "16";
  device_id = "12";
  room_id = "room";
  scopes = observe ∷ [];
  ceiling = read_only;
  created_at = 10_000_000_000;
  last_seen_at = 11_000_000_000;
  idle_expires_at = 911_000_000_000;
  absolute_expires_at = 28_810_000_000_000;
  done = 1;
}

abbrev path : String
path = "/home/mohuddle/devices.json"

is_opened : open_store simple path working none ≡ ok opened
unfolding open_store opening load_state
is_opened = refl

phone_enters : (authenticate simple (moment 5 [] [] []) joined "05").1 ≡ ok phone_session
unfolding create_invitation pair new_challenge complete_challenge authenticate revoke set_scopes
    canonical_key normalize_scopes valid_identifier trim_space validate_name is_control
    random_identifier human_code save_state validate_state prune_invitations valid_hash hash_code
    utf8 normalize_code lookup take_invitation delete insert constant_hex_equal groups is_separator
    join random_secret strip upper prune_ephemeral snapshot grant_index update_grant is_paired
    matched min_time invalidate_device
phone_enters = refl

phone_leaves : (revoke simple (moment 6 [] [] []) joined "02").1 ≡ ok tt
unfolding create_invitation pair new_challenge complete_challenge authenticate revoke set_scopes
    canonical_key normalize_scopes valid_identifier trim_space validate_name is_control
    random_identifier human_code save_state validate_state prune_invitations valid_hash hash_code
    utf8 normalize_code lookup take_invitation delete insert constant_hex_equal groups is_separator
    join random_secret strip upper prune_ephemeral snapshot grant_index update_grant is_paired
    matched min_time invalidate_device
phone_leaves = refl

abbrev left : Store
left = (revoke simple (moment 6 [] [] []) joined "02").0

tablet_enters :
    (authenticate simple (moment 11 [] [] []) (run simple left tablet_joins) "14").1
    ≡ ok tablet_session
unfolding create_invitation pair new_challenge complete_challenge authenticate revoke set_scopes
    canonical_key normalize_scopes valid_identifier trim_space validate_name is_control
    random_identifier human_code save_state validate_state prune_invitations valid_hash hash_code
    utf8 normalize_code lookup take_invitation delete insert constant_hex_equal groups is_separator
    join random_secret strip upper prune_ephemeral snapshot grant_index update_grant is_paired
    matched min_time invalidate_device
tablet_enters = refl

joined-IsSound : IsSound joined
joined-IsSound = run-IsSound simple opened phone_joins (tt, tt)

normalize_scopes_iff_example :
    (normalize_scopes (participate ∷ observe ∷ []) ≡ ok (observe ∷ participate ∷ [])) ↔ (
      IsLadder (participate ∷ observe ∷ [])
      × ((observe ∷ participate ∷ []) ≡ ladder (participate ∷ observe ∷ [])))
normalize_scopes_iff_example =
    normalize_scopes_iff (participate ∷ observe ∷ []) (observe ∷ participate ∷ [])

normalize_code-human_code_example :
    (normalize_code simple "A2A2A-2A2A2-A2A2A-2" ≡ letters sixteen)
    × (hash_code simple "A2A2A-2A2A2-A2A2A-2" ≡ hex (simple.sha256 (utf8 (letters sixteen))))
normalize_code-human_code_example =
    normalize_code-human_code simple simple-PrintsBase32 sixteen "A2A2A-2A2A2-A2A2A-2" shown_code

authenticate-run_example :
    IsAuthorized 5_000_000_000 (authenticate simple (moment 5 [] [] []) joined "05").0 phone_session
authenticate-run_example =
    authenticate-run simple path working none opened phone_joins (moment 5 [] [] []) "05"
      phone_session is_opened phone_enters

authenticate-revoke_example : tablet_session.device_id ≢ trim_space "02"
authenticate-revoke_example =
    authenticate-revoke simple joined (moment 6 [] [] []) "02" tablet_joins (moment 11 [] [] [])
      "14" tablet_session joined-IsSound phone_leaves tablet_enters

run-IsUnshared_example : IsUnshared simple joined.state.grants
run-IsUnshared_example = run-IsUnshared simple opened phone_joins tt

abbrev phone_invited : Store
phone_invited = run simple opened (take 1 phone_joins)

abbrev attempts : List (Env × Bytes)
attempts = (moment 2 (2 ∷ []) [] [], 7 ∷ []) ∷ (moment 3 (3 ∷ []) [] [], 9 ∷ []) ∷ []

pairings-le_example :
    pairings simple phone_invited "A2A2A-2A2A2-A2A2A-2" attempts
    ≤ invitations_of simple (hash_code simple "A2A2A-2A2A2-A2A2A-2") phone_invited.state.invitations
pairings-le_example = pairings-le simple phone_invited "A2A2A-2A2A2-A2A2A-2" attempts

abbrev phone_challenged : Store
phone_challenged = run simple opened (take 3 phone_joins)

abbrev signature : Bytes
signature = 7 ∷ zeros 63

abbrev phone_credentials : SessionCredentials
phone_credentials = record {
  token = "05";
  csrf_token = "06";
  session = record phone_session {
    last_seen_at = 4_000_000_000;
    idle_expires_at = 904_000_000_000;
  };
}

abbrev fourth : Env
fourth = moment 4 (5 ∷ []) (6 ∷ []) (8 ∷ [])

phone_signs :
    (complete_challenge simple fourth phone_challenged "02" "03" signature (pos 0) (pos 0)).1
    ≡ ok phone_credentials
unfolding create_invitation pair new_challenge complete_challenge authenticate revoke set_scopes
    canonical_key normalize_scopes valid_identifier trim_space validate_name is_control
    random_identifier human_code save_state validate_state prune_invitations valid_hash hash_code
    utf8 normalize_code lookup take_invitation delete insert constant_hex_equal groups is_separator
    join random_secret strip upper prune_ephemeral snapshot grant_index update_grant is_paired
    matched min_time invalidate_device
phone_signs = refl

is_ready :
    completable simple fourth phone_challenged (pos 0) (pos 0)
    ≡ ok (900_000_000_000, 28_800_000_000_000)
unfolding create_invitation pair new_challenge complete_challenge authenticate revoke set_scopes
    canonical_key normalize_scopes valid_identifier trim_space validate_name is_control
    random_identifier human_code save_state validate_state prune_invitations valid_hash hash_code
    utf8 normalize_code lookup take_invitation delete insert constant_hex_equal groups is_separator
    join random_secret strip upper prune_ephemeral snapshot grant_index update_grant is_paired
    matched min_time invalidate_device
is_ready = refl

abbrev between : List (Env × Operation)
between =
    (moment 5 [] [] [], authenticates "05")
    ∷ (moment 6 (9 ∷ []) (4 ∷ []) [], challenges "02" (pos 0))
    ∷ []

abbrev phone_completed : Store
phone_completed =
    (complete_challenge simple fourth phone_challenged "02" "03" signature (pos 0) (pos 0)).0

between-AllIssueOther : AllIssueOther simple "03" phone_completed between
unfolding create_invitation pair new_challenge complete_challenge authenticate revoke set_scopes
    canonical_key normalize_scopes valid_identifier trim_space validate_name is_control
    random_identifier human_code save_state validate_state prune_invitations valid_hash hash_code
    utf8 normalize_code lookup take_invitation delete insert constant_hex_equal groups is_separator
    join random_secret strip upper prune_ephemeral snapshot grant_index update_grant is_paired
    matched min_time invalidate_device
between-AllIssueOther = (tt, ((λ c e. subst (λ c. str_eq c.id "03" ≡ false) (ok_inj e) refl), tt))

complete_challenge-once_example :
    (complete_challenge simple fourth
      (run simple phone_completed between)
      "02"
      "03"
      signature
      (pos 0)
      (pos 0)).1
    ≢ ok phone_credentials
complete_challenge-once_example =
    complete_challenge-once simple fourth fourth phone_challenged "02" "02" "03" signature signature
      (pos 0) (pos 0) (pos 0) (pos 0) (900_000_000_000, 28_800_000_000_000) between
      phone_credentials is_ready between-AllIssueOther

stranger_fails : (perform simple (moment 6 [] [] []) joined (pairs "AAAAA" (9 ∷ []))).1 ≡ false
unfolding create_invitation pair new_challenge complete_challenge authenticate revoke set_scopes
    canonical_key normalize_scopes valid_identifier trim_space validate_name is_control
    random_identifier human_code save_state validate_state prune_invitations valid_hash hash_code
    utf8 normalize_code lookup take_invitation delete insert constant_hex_equal groups is_separator
    join random_secret strip upper prune_ephemeral snapshot grant_index update_grant is_paired
    matched min_time invalidate_device
stranger_fails = refl

perform-failed_example :
    let t = (perform simple (moment 6 [] [] []) joined (pairs "AAAAA" (9 ∷ []))).0 in
    (t.state ≡ joined.state) × Shrinks joined t × ((t.file ≡ joined.file) ⊎ (true ≡ false))
perform-failed_example =
    perform-failed simple (moment 6 [] [] []) joined (pairs "AAAAA" (9 ∷ [])) stranger_fails

-- Packages that read what they wrote of a store with a device.
abbrev remembering : Packages
remembering = record simple {
  decode_state = λ t. if str_eq t "joined\n" then some joined.state else none;
}

abbrev rejoined : Store
rejoined = run remembering opened phone_joins

remembering-opened : open_store remembering path working none ≡ ok opened
unfolding open_store opening load_state
remembering-opened = refl

-- What a store with a device is encoded to is read again.
remembers :
    (text : String)
    → some text ≡ some "joined"
    → remembering.decode_state (append_text text "\n") ≡ some joined.state
remembers text e =
    subst (λ t. remembering.decode_state (append_text t "\n") ≡ some joined.state)
      (sym (some_inj.0 e)) refl

joined-Decodes : Decodes remembering rejoined.state
unfolding create_invitation pair new_challenge complete_challenge authenticate revoke set_scopes
    canonical_key normalize_scopes valid_identifier trim_space validate_name is_control
    random_identifier human_code save_state validate_state prune_invitations valid_hash hash_code
    utf8 normalize_code lookup take_invitation delete insert constant_hex_equal groups is_separator
    join random_secret strip upper prune_ephemeral snapshot grant_index update_grant is_paired
    matched min_time invalidate_device
joined-Decodes text e = remembers text (sym e)

open_store-run_example :
    (again : Store) × (open_store remembering path
        (record working { entry = entry_of rejoined.file })
        rejoined.file
      ≡ ok again)
    × (again.state ≡ rejoined.state)
    × (again.sessions ≡ [])
    × (again.challenges ≡ [])
open_store-run_example =
    open_store-run remembering path working none opened phone_joins remembering-opened
      (refl, (refl, (refl, (refl, tt)))) joined-Decodes
