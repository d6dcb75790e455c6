-- ===== src/Remote/Device/Changes/Revoked.antt =====
-- internal/remote/device/store.go: a device that is revoked stays out.
use mathlib.Core.Option.{some_inj}
use mohuddle.Base.{
  ◌≡◌, ◌≢◌, refl, sym, ap, ◌∙◌, subst, inl, inr, false, String, List, [], ◌∷◌, Option, none, some,
  ok, err, Bool-cases, trim_space, str_eq, eq_iff,
}
use mohuddle.Remote.Device.{Packages, Grant, Session, Store, Answer, active}
use mohuddle.Remote.Device.Durable.{save_state}
use mohuddle.Remote.Device.Ephemeral.{invalidate_device, require_open}
use mohuddle.Remote.Device.Grants.{
  Env, grant_index, update_grant, settle, then_invalidate, revoke, revoked, without, revoke_grant,
  revoke_open, with_scopes,
}
use mohuddle.Remote.Device.Sessions.{authenticate}
use mohuddle.Remote.Device.Sessions.Frame.{authenticate-SameState}
use mohuddle.Remote.Device.History.{Operation, run}
use mohuddle.Remote.Device.Sound.{
  IsSound, grant_index-append, grant_index-update_grant, grant_index-updated,
}
use mohuddle.Remote.Device.Sound.Commits.{revoke-IsSound}
use mohuddle.Remote.Device.Sound.Authority.{run-IsSound, authenticate-IsAuthorized}
use mohuddle.Remote.Device.Changes.{
  GrantChange, unchanged, adds, revokes_one, rescopes_one, run-keeps,
}

-- The grant of a device is one that is revoked.
abbrev pub IsRevoked : String → List Grant → Type 0
IsRevoked d gs = (g : Grant) × (grant_index gs d ≡ some g) × (active g ≡ false)

-- A change of one grant that keeps its name and brings none back.
update_grant-IsRevoked :
    (f : Grant → Grant) (gs : List Grant) (changed d : String)
    → ((g : Grant) → ((f g).id ≡ g.id) × (active g ≡ false → active (f g) ≡ false))
    → IsRevoked d gs
    → IsRevoked d (update_grant f gs changed)
update_grant-IsRevoked f gs changed d keep (g, e, out) = elim (Bool-cases (str_eq d changed)) [
  | inr other ↦ (g, grant_index-update_grant f gs changed d (λ x. (keep x).0) other ∙ e, out)
  | inl here ↦
      let same = (eq_iff d changed).0 here in
      (
        f g,
        subst (λ c. grant_index (update_grant f gs c) d ≡ some (f g)) same
            (grant_index-updated f gs d g (λ x. (keep x).0) e),
        (keep g).1 out,
      )
]

module _ (p : Packages) where
  -- No change of the grants brings a revoked device back.
  change-IsRevoked :
      (d : String) (gs hs : List Grant) → GrantChange p gs hs → IsRevoked d gs → IsRevoked d hs
  change-IsRevoked d gs hs unchanged h = h
  change-IsRevoked d gs hs (adds x _ _) (g, e, out) = (g, grant_index-append gs (x ∷ []) d g e, out)
  change-IsRevoked d gs hs (revokes_one env c) h =
      update_grant-IsRevoked (revoked p env) gs c d (λ g. (refl, λ _. refl)) h
  change-IsRevoked d gs hs (rescopes_one env c scopes) h =
      update_grant-IsRevoked (with_scopes p env scopes) gs c d (λ g. (refl, λ out. out)) h

  -- A revoke that succeeds leaves the device revoked.
  revoke-IsRevoked :
      (env : Env) (s : Store) (device : String)
      → (revoke p env s device).1 ≡ ok tt
      → IsRevoked (trim_space device) (revoke p env s device).0.state.grants
  unfolding revoke invalidate_device
  revoke-IsRevoked env s device = opened (require_open s)
    where
      d : String
      d = trim_space device

      saved :
          (g : Grant) (r : Option String × Answer Unit)
          → grant_index s.state.grants d ≡ some g
          → (then_invalidate p env d (settle p env s (without p env s d g).0 tt r)).1 ≡ ok tt
          → IsRevoked d
              (then_invalidate p env d (settle p env s (without p env s d g).0 tt r)).0.state.grants
      saved g (file, ok done) e h = (
        revoked p env g,
        grant_index-updated (revoked p env) s.state.grants d g (λ x. refl) e,
        refl,
      )
      saved g (file, err x) e h = cc

      indexed :
          (o : Option Grant)
          → grant_index s.state.grants d ≡ o
          → (then_invalidate p env d (revoke_grant p env s d o)).1 ≡ ok tt
          → IsRevoked d (then_invalidate p env d (revoke_grant p env s d o)).0.state.grants
      indexed none e h = cc
      indexed (some g) e h = elim (Bool-cases (active g)) [
        | inl q ↦
            rw q (saved g (save_state p env.files (without p env s d g).0 s.file) e (rw q at h))
        | inr q ↦ rw q (g, e, q)
      ]

      opened :
          (r : Answer Unit)
          → (then_invalidate p env d (revoke_open p env s d r)).1 ≡ ok tt
          → IsRevoked d (then_invalidate p env d (revoke_open p env s d r)).0.state.grants
      opened (err e) h = cc
      opened (ok t) h = indexed (grant_index s.state.grants d) refl h

  -- Once a device is revoked, no token lets it in again, whatever happens after: what a token opens
  -- belongs to another device. The conditions are on the store before, whose sessions and challenges
  -- rest on grants as they do after any operations, and on the revoke, which succeeded.
  pub authenticate-revoke :
      (s : Store) (revoking : Env) (device : String) (ops : List (Env × Operation)) (env : Env)
      (token : String) (session : Session)
      → IsSound s
      → (revoke p revoking s device).1 ≡ ok tt
      → (authenticate p env (run p (revoke p revoking s device).0 ops) token).1 ≡ ok session
      → session.device_id ≢ trim_space device
  authenticate-revoke s revoking device ops env token session sound done opened same =
      let t = run p (revoke p revoking s device).0 ops in
      let (g, e, live, _, _, _, _, _, _) =
        authenticate-IsAuthorized p env t token session
          (run-IsSound p (revoke p revoking s device).0 ops
            (revoke-IsSound p revoking s device sound))
          opened in
      let (x, f, out) =
        run-keeps p (IsRevoked (trim_space device)) (change-IsRevoked (trim_space device))
          (revoke p revoking s device).0 ops (revoke-IsRevoked revoking s device done) in
      let state = (authenticate-SameState p env t token).0 in
      let here : grant_index t.state.grants (trim_space device) ≡ some g =
        ap (λ st. grant_index st.grants (trim_space device)) (sym state)
        ∙ ap (grant_index (authenticate p env t token).0.state.grants) (sym same)
        ∙ e in
      let one : x ≡ g = some_inj.0 (sym f ∙ here) in cc
