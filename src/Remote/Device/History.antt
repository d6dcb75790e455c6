-- ===== src/Remote/Device/History.antt =====
-- internal/remote/device/store.go: the operations of a store in any order, each with what it finds
-- outside.
use mohuddle.Base.{Bool, true, false, String, List, [], ◌∷◌, ◌≡◌, refl, ℤ, ok, err}
use mohuddle.Remote.Device.{Bytes, Packages, Scope, Store, Answer}
use mohuddle.Remote.Device.Ephemeral.{close}
use mohuddle.Remote.Device.Grants.{Env, create_invitation, pair, revoke, set_scopes}
use mohuddle.Remote.Device.Sessions.{new_challenge, complete_challenge, authenticate, verify_csrf}

pub data Operation : Type 0 where
  creates : (room_id name : String) → List Scope → ℤ → Operation
  pairs : (entered : String) → Bytes → Operation
  revokes : (device_id : String) → Operation
  rescopes : (device_id : String) → List Scope → Operation
  challenges : (device_id : String) → ℤ → Operation
  completes : (device_id challenge_id : String) → Bytes → (idle absolute : ℤ) → Operation
  authenticates : (token : String) → Operation
  verifies : (session_id token : String) → Operation
  closes : Operation

abbrev pub outcome : {A : Type 0} → Store × Answer A → Store × Bool
outcome (s, ok a) = (s, true)
outcome (s, err e) = (s, false)

module _ (p : Packages) where
  -- The store after an operation, and whether it succeeded.
  abbrev pub perform : Env → Store → Operation → Store × Bool
  perform env s (creates room_id name scopes ttl) =
      outcome (create_invitation p env s room_id name scopes ttl)
  perform env s (pairs entered key) = outcome (pair p env s entered key)
  perform env s (revokes device_id) = outcome (revoke p env s device_id)
  perform env s (rescopes device_id scopes) = outcome (set_scopes p env s device_id scopes)
  perform env s (challenges device_id ttl) = outcome (new_challenge p env s device_id ttl)
  perform env s (completes device_id id signature idle absolute) =
      outcome (complete_challenge p env s device_id id signature idle absolute)
  perform env s (authenticates token) = outcome (authenticate p env s token)
  perform env s (verifies session_id token) = verify_csrf p env s session_id token
  perform env s closes = (close s, true)

  abbrev pub run : Store → List (Env × Operation) → Store
  run s [] = s
  run s ((env, op) ∷ ops) = run (perform env s op).0 ops

-- The store after an operation is the first component of its answer.
pub outcome-store : {A : Type 0} (r : Store × Answer A) → (outcome r).0 ≡ r.0
outcome-store (s, ok a) = refl
outcome-store (s, err e) = refl
