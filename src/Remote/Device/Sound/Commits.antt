-- ===== src/Remote/Device/Sound/Commits.antt =====
-- internal/remote/device/store.go: the operations that save keep what sessions rest on.
use mohuddle.Base.{
  refl, inl, inr, String, List, [], ◌∷◌, Option, none, some, ok, err, ℤ, trim_space, Bool-cases,
}
use mohuddle.Remote.Device.{Bytes, Packages, Scope, Grant, PersistentState, Store, Answer, active}
use mohuddle.Remote.Device.Durable.{save_state}
use mohuddle.Remote.Device.Ephemeral.{invalidate_device, require_open}
use mohuddle.Remote.Device.Grants.{
  Env, grant_index, commit, settle, then_invalidate, create_invitation, pair, paired, pairable,
  grant_of, revoke, revoked, without, revoke_grant, revoke_open, set_scopes, with_scopes,
}
use mohuddle.Remote.Device.Sound.{
  IsSound, append-IsSound, invalidate_alone-IsSound, invalidate_device-IsSound,
}

module _ (p : Packages) (env : Env) where
  settle-IsSound :
      {A : Type 0} (s : Store) (next : PersistentState) (a : A) (r : Option String × Answer Unit)
      → IsSound s
      → IsSound (record s { state = next })
      → IsSound (settle p env s next a r).0
  settle-IsSound s next a (file, ok done) h k = k
  settle-IsSound s next a (file, err e) h k = h

  commit-IsSound :
      {A B : Type 0} (s : Store) (build : B → PersistentState × A) (checked : Answer B)
      → IsSound s
      → ((b : B) → IsSound (record s { state = (build b).0 }))
      → IsSound (commit p env s build checked).0
  commit-IsSound s build (err e) h k = h
  commit-IsSound s build (ok b) h k =
      settle-IsSound s (build b).0 (build b).1 (save_state p env.files (build b).0 s.file) h (k b)

  settle-invalidates :
      {A : Type 0} (device_id : String) (s : Store) (next : PersistentState) (a : A)
      (r : Option String × Answer Unit)
      → IsSound s
      → IsSound (invalidate_device device_id (record s { state = next }))
      → IsSound (then_invalidate p env device_id (settle p env s next a r)).0
  unfolding invalidate_device
  settle-invalidates device_id s next a (file, ok done) h k = k
  settle-invalidates device_id s next a (file, err e) h k = h

  commit-invalidates :
      {A B : Type 0} (device_id : String) (s : Store) (build : B → PersistentState × A)
      (checked : Answer B)
      → IsSound s
      → ((b : B) → IsSound (invalidate_device device_id (record s { state = (build b).0 })))
      → IsSound (then_invalidate p env device_id (commit p env s build checked)).0
  commit-invalidates device_id s build (err e) h k = h
  commit-invalidates device_id s build (ok b) h k =
      settle-invalidates device_id s (build b).0 (build b).1
        (save_state p env.files (build b).0 s.file) h (k b)

  pub create_invitation-IsSound :
      (s : Store) (room_id name : String) (scopes : List Scope) (ttl : ℤ)
      → IsSound s
      → IsSound (create_invitation p env s room_id name scopes ttl).0
  unfolding create_invitation
  create_invitation-IsSound s room_id name scopes ttl h = commit-IsSound s _ _ h λ b. h

  pub pair-IsSound :
      (s : Store) (entered : String) (key : Bytes)
      → IsSound s
      → IsSound (pair p env s entered key).0
  unfolding pair
  pair-IsSound s entered key h =
      commit-IsSound s (paired p env s) (pairable p env s entered key) h
        λ (id, (i, others), canonical). append-IsSound s (grant_of p env id i canonical ∷ []) h

  -- The grants change at one device only, and that device loses what it had.
  pub set_scopes-IsSound :
      (s : Store) (device : String) (scopes : List Scope)
      → IsSound s
      → IsSound (set_scopes p env s device scopes).0
  unfolding set_scopes
  set_scopes-IsSound s device scopes h =
      commit-invalidates (trim_space device) s _ _ h λ (normalized, g).
        invalidate_device-IsSound s (with_scopes p env normalized) (trim_space device) (λ g. refl) h

  pub revoke-IsSound : (s : Store) (device : String) → IsSound s → IsSound (revoke p env s device).0
  unfolding revoke
  revoke-IsSound s device h = opened (require_open s)
    where
      device_id : String
      device_id = trim_space device

      indexed :
          (o : Option Grant)
          → IsSound (then_invalidate p env device_id (revoke_grant p env s device_id o)).0
      indexed none = h
      indexed (some g) = elim (Bool-cases (active g)) [
        | inl e ↦ rw e (
            commit-invalidates device_id s (without p env s device_id) (ok g) h
              λ b. invalidate_device-IsSound s (revoked p env) device_id (λ g. refl) h)
        | inr e ↦ rw e (invalidate_alone-IsSound device_id s h)
      ]

      opened :
          (r : Answer Unit)
          → IsSound (then_invalidate p env device_id (revoke_open p env s device_id r)).0
      opened (err e) = h
      opened (ok t) = indexed (grant_index s.state.grants device_id)
