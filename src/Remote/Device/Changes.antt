-- ===== src/Remote/Device/Changes.antt =====
-- internal/remote/device/store.go: how an operation changes the grants, as a step relation.
pub mod Revoked
pub mod Keys
use mohuddle.Base.{
  ℕ, ◌≡◌, refl, sym, ap, subst, ◌⊎◌, inl, inr, Bool, true, false, not, ◌&&◌, String, List, [], ◌∷◌,
  ◌++◌, Option, none, some, ok, err, ◌>>=◌, ◌>>◌, or_fail, or_fail-eq-ok, first_step, last_step,
  ok_inj, Result, Bool-cases, Option-cases, ℤ, trim_space, bool_eq,
}
use mohuddle.Remote.Device.{
  Bytes, Packages, Scope, Grant, InvitationRecord, PersistentState, Challenge, SessionRecord, Store,
  Answer, active, require, require_passed, invalid_code, already_paired, unparsed_key, store_closed,
}
use mohuddle.Remote.Device.Codes.{hash_code, random_identifier}
use mohuddle.Remote.Device.Durable.{save_state, canonical_key}
use mohuddle.Remote.Device.Ephemeral.{prune_ephemeral, invalidate_device, require_open, close}
use mohuddle.Remote.Device.Grants.{
  Env, grant_index, update_grant, is_paired, commit, settle, then_invalidate, create_invitation,
  pair, paired, pairable, grant_of, take_invitation, revoke, revoked, without, revoke_grant,
  revoke_open, set_scopes, rescoped, rescopable, with_scopes,
}
use mohuddle.Remote.Device.Sessions.{
  new_challenge, issue, issuable, keep_challenge, challenged, complete_challenge, complete,
  completable, keep_session, minted, authenticate, authenticate_open, admit_matched, admit, matched,
  find_active, verify_csrf,
}
use mohuddle.Remote.Device.Sessions.Frame.{
  SameState, new_challenge-SameState, complete_challenge-SameState, authenticate-SameState,
  verify_csrf-SameState, close-SameState,
}
use mohuddle.Remote.Device.History.{
  outcome, Operation, creates, pairs, revokes, rescopes, challenges, completes, authenticates,
  verifies, closes, perform, run, outcome-store,
}

not-true : (b : Bool) → not b ≡ true → b ≡ false
not-true false h = refl
not-true true h = cc

module _ (p : Packages) where
  -- A device is added whose key no active grant has, one grant is revoked, or one gets other scopes.
  pub data GrantChange : List Grant → List Grant → Type 0 where
    unchanged : {gs : List Grant} → GrantChange gs gs
    adds :
        {gs : List Grant} (g : Grant)
        → active g ≡ true
        → is_paired p g.public_key gs ≡ false
        → GrantChange gs (gs ++ g ∷ [])
    revokes_one :
        {gs : List Grant} (env : Env) (device_id : String)
        → GrantChange gs (update_grant (revoked p env) gs device_id)
    rescopes_one :
        {gs : List Grant} (env : Env) (device_id : String) (scopes : List Scope)
        → GrantChange gs (update_grant (with_scopes p env scopes) gs device_id)

  module _ (env : Env) where
    settle-Change :
        {A : Type 0} (s : Store) (next : PersistentState) (a : A) (r : Option String × Answer Unit)
        → GrantChange s.state.grants next.grants
        → GrantChange s.state.grants (settle p env s next a r).0.state.grants
    settle-Change s next a (file, ok done) h = h
    settle-Change s next a (file, err e) h = unchanged

    commit-Change :
        {A B : Type 0} (s : Store) (build : B → PersistentState × A) (checked : Answer B)
        → ((b : B) → checked ≡ ok b → GrantChange s.state.grants (build b).0.grants)
        → GrantChange s.state.grants (commit p env s build checked).0.state.grants
    commit-Change s build (err e) h = unchanged
    commit-Change s build (ok b) h =
        settle-Change s (build b).0 (build b).1 (save_state p env.files (build b).0 s.file)
          (h b refl)

    then_invalidate-state :
        {A : Type 0} (d : String) (r : Store × Answer A)
        → (then_invalidate p env d r).0.state ≡ r.0.state
    unfolding invalidate_device
    then_invalidate-state d (s, ok a) = refl
    then_invalidate-state d (s, err e) = refl

    create_invitation-Change :
        (s : Store) (room name : String) (scopes : List Scope) (ttl : ℤ)
        → GrantChange s.state.grants (create_invitation p env s room name scopes ttl).0.state.grants
    unfolding create_invitation
    create_invitation-Change s room name scopes ttl = commit-Change s _ _ λ b e. unchanged

    pairable-unpaired :
        (s : Store) (entered : String) (key : Bytes)
        (b : String × (InvitationRecord × List InvitationRecord) × Bytes)
        → pairable p env s entered key ≡ ok b
        → is_paired p b.2 s.state.grants ≡ false
    pairable-unpaired s entered key b e =
        let (canonical, e₁, _) = first_step (canonical_key p key) _ e in
        let e₂ = last_step (require_open s) _ e₁ in
        let (taken, e₃, _) =
          first_step
            (or_fail (take_invitation p env (hash_code p entered) s.state.invitations) invalid_code)
            _ e₂ in
        let (free, e₄) =
          require_passed (not (is_paired p canonical.0 s.state.grants)) already_paired _ e₃ in
        let (id, e₅, _) = first_step (random_identifier p env.first_read) _ e₄ in
        subst (λ b. is_paired p b.2 s.state.grants ≡ false) (ok_inj e₅) (not-true _ free)

    pair-Change :
        (s : Store) (entered : String) (key : Bytes)
        → GrantChange s.state.grants (pair p env s entered key).0.state.grants
    unfolding pair
    pair-Change s entered key =
        commit-Change s (paired p env s) (pairable p env s entered key)
          λ (id, (i, others), canonical) e.
            adds (grant_of p env id i canonical) refl
              (pairable-unpaired s entered key (id, (i, others), canonical) e)

    revoke-Change :
        (s : Store) (d : String) → GrantChange s.state.grants (revoke p env s d).0.state.grants
    unfolding revoke
    revoke-Change s device = rw then_invalidate-state (opened (require_open s))
      where
        device_id : String
        device_id = trim_space device

        indexed :
            (o : Option Grant)
            → GrantChange s.state.grants (revoke_grant p env s device_id o).0.state.grants
        indexed none = unchanged
        indexed (some g) = elim (Bool-cases (active g)) [
          | inl e ↦
              rw e (
                commit-Change s (without p env s device_id) (ok g) λ b e. revokes_one env device_id)
          | inr e ↦ rw e unchanged
        ]

        opened :
            (r : Answer Unit)
            → GrantChange s.state.grants (revoke_open p env s device_id r).0.state.grants
        opened (err e) = unchanged
        opened (ok t) = indexed (grant_index s.state.grants device_id)

    set_scopes-Change :
        (s : Store) (d : String) (scopes : List Scope)
        → GrantChange s.state.grants (set_scopes p env s d scopes).0.state.grants
    unfolding set_scopes
    set_scopes-Change s device scopes =
        rw then_invalidate-state
          (commit-Change s _ _ λ b e. rescopes_one env (trim_space device) b.0)

    same_grants : {gs hs : List Grant} → hs ≡ gs → GrantChange gs hs
    same_grants h = rw h unchanged

    changed :
        {A : Type 0} (s : Store) (r : Store × Answer A)
        → GrantChange s.state.grants r.0.state.grants
        → GrantChange s.state.grants (outcome r).0.state.grants
    changed s (t, ok a) h = h
    changed s (t, err e) h = h

    -- Every operation changes the grants in one of these ways.
    pub perform-Change :
        (s : Store) (op : Operation)
        → GrantChange s.state.grants (perform p env s op).0.state.grants
    perform-Change s (creates a b c d) =
        changed s (create_invitation p env s a b c d) (create_invitation-Change s a b c d)
    perform-Change s (pairs a b) = changed s (pair p env s a b) (pair-Change s a b)
    perform-Change s (revokes a) = changed s (revoke p env s a) (revoke-Change s a)
    perform-Change s (rescopes a b) = changed s (set_scopes p env s a b) (set_scopes-Change s a b)
    perform-Change s (challenges a b) =
        changed s (new_challenge p env s a b)
          (same_grants (ap (λ st. st.grants) (new_challenge-SameState p env s a b).0))
    perform-Change s (completes a b c d e) =
        changed s (complete_challenge p env s a b c d e)
          (same_grants (ap (λ st. st.grants) (complete_challenge-SameState p env s a b c d e).0))
    perform-Change s (authenticates a) =
        changed s (authenticate p env s a)
          (same_grants (ap (λ st. st.grants) (authenticate-SameState p env s a).0))
    perform-Change s (verifies a b) =
        same_grants (ap (λ st. st.grants) (verify_csrf-SameState p env s a b).0)
    perform-Change s closes = same_grants (ap (λ st. st.grants) (close-SameState s).0)

  -- What every change of the grants keeps holds after any operations.
  pub run-keeps {κ} :
      (P : List Grant → Type κ)
      → ((gs hs : List Grant) → GrantChange gs hs → P gs → P hs)
      → (s : Store) (ops : List (Env × Operation)) → P s.state.grants
      → P (run p s ops).state.grants
  run-keeps P keep s [] h = h
  run-keeps P keep s ((env, op) ∷ ops) h =
      run-keeps P keep (perform p env s op).0 ops
        (keep s.state.grants (perform p env s op).0.state.grants (perform-Change env s op) h)
