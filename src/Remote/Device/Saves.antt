-- ===== src/Remote/Device/Saves.antt =====
-- internal/remote/device/store.go: what an operation leaves in memory and in the file.
pub mod Errors
pub mod Restart
use Prim.Native.String.{◌++◌ as append_text}
use mohuddle.Base.{
  ℕ, ◌≡◌, refl, sym, ap, subst, ◌⊎◌, inl, inr, Bool, true, false, String, List, [], ◌∷◌, Option,
  none, some, ok, err, ◌>>◌, Result, Bool-cases, head_step, ℤ, trim_space,
}
use mohuddle.Remote.Device.{
  Bytes, Packages, Scope, Grant, PersistentState, Store, Answer, active, require, file_failed,
}
use mohuddle.Remote.Device.Durable.{
  Files, validate_state, save_state, prepare, prepare-valid, placed,
}
use mohuddle.Remote.Device.Ephemeral.{invalidate_device, require_open}
use mohuddle.Remote.Device.Grants.{
  Env, grant_index, commit, settle, then_invalidate, create_invitation, pair, revoke, without,
  revoke_grant, revoke_open, set_scopes,
}
use mohuddle.Remote.Device.Sessions.{new_challenge, complete_challenge, authenticate}
use mohuddle.Remote.Device.Sessions.Frame.{
  SameState, new_challenge-SameState, complete_challenge-SameState, authenticate-SameState,
  verify_csrf-SameState, close-SameState,
}
use mohuddle.Remote.Device.History.{
  Operation, creates, pairs, revokes, rescopes, challenges, completes, authenticates, verifies,
  closes, outcome, perform,
}

-- The file holds what the state in memory is encoded to.
abbrev pub IsWritten : Packages → Store → Type 0
IsWritten p s =
    (text : String) × (p.encode_state s.state ≡ some text) × (s.file ≡ some (append_text text "\n"))

module _ (p : Packages) (env : Env) where
  -- Nothing durable changes; or the new state is valid, in memory and in the file, and the operation
  -- succeeds; or it fails and leaves the memory, although the file took the place of the old one and
  -- only its mode could not be set.
  abbrev pub Saves : Store → Store × Bool → Type 0
  Saves s (t, done) =
      SameState s t
      ⊎ (((validate_state p t.state ≡ ok tt) × IsWritten p t × (done ≡ true))
          ⊎ ((t.state ≡ s.state) × (env.files.keeps_mode ≡ false) × (done ≡ false)))

  settle-Saves :
      {A : Type 0} (s : Store) (next : PersistentState) (a : A)
      → Saves s (outcome (settle p env s next a (save_state p env.files next s.file)))
  unfolding save_state
  settle-Saves s next a = go (prepare p env.files next) refl
    where
      go :
          (r : Answer String)
          → prepare p env.files next ≡ r
          → Saves s (outcome (settle p env s next a (placed p env.files s.file r)))
      go (err e) q = inl (refl, refl)
      go (ok content) q = last env.files.keeps_mode refl
        where
          last :
              (kept : Bool)
              → env.files.keeps_mode ≡ kept
              → Saves s (outcome (settle p env s next a (some content, require kept file_failed)))
          last true k =
              let (valid, (text, encoded, content_is)) = prepare-valid p env.files next content q in
              inr (inl (valid, (text, encoded, ap some (sym content_is)), refl))
          last false k = inr (inr (refl, k, refl))

  commit-Saves :
      {A B : Type 0} (s : Store) (build : B → PersistentState × A) (checked : Answer B)
      → Saves s (outcome (commit p env s build checked))
  commit-Saves s build (err e) = inl (refl, refl)
  commit-Saves s build (ok b) = settle-Saves s (build b).0 (build b).1

  then_invalidate-Saves :
      {A : Type 0} (d : String) (s : Store) (r : Store × Answer A)
      → Saves s (outcome r)
      → Saves s (outcome (then_invalidate p env d r))
  unfolding invalidate_device
  then_invalidate-Saves d s (t, ok a) h = h
  then_invalidate-Saves d s (t, err e) h = h

  revoke-Saves : (s : Store) (device : String) → Saves s (outcome (revoke p env s device))
  unfolding revoke
  revoke-Saves s device =
      let d = trim_space device in
      then_invalidate-Saves d s (revoke_open p env s d (require_open s)) (opened (require_open s))
    where
      indexed : (o : Option Grant) → Saves s (outcome (revoke_grant p env s (trim_space device) o))
      indexed none = inl (refl, refl)
      indexed (some g) = elim (Bool-cases (active g)) [
        | inl e ↦ rw e (commit-Saves s (without p env s (trim_space device)) (ok g))
        | inr e ↦ rw e (inl (refl, refl))
      ]

      opened : (r : Answer Unit) → Saves s (outcome (revoke_open p env s (trim_space device) r))
      opened (err e) = inl (refl, refl)
      opened (ok u) = indexed (grant_index s.state.grants (trim_space device))

  same : {A : Type 0} (s : Store) (r : Store × Answer A) → SameState s r.0 → Saves s (outcome r)
  same s (t, ok a) h = inl h
  same s (t, err e) h = inl h

  -- Every operation leaves memory and file in one of these ways.
  pub perform-Saves : (s : Store) (op : Operation) → Saves s (perform p env s op)
  unfolding create_invitation pair set_scopes
  perform-Saves s (creates a b c d) = commit-Saves s _ _
  perform-Saves s (pairs a b) = commit-Saves s _ _
  perform-Saves s (revokes a) = revoke-Saves s a
  perform-Saves s (rescopes a b) = then_invalidate-Saves (trim_space a) s _ (commit-Saves s _ _)
  perform-Saves s (challenges a b) =
      same s (new_challenge p env s a b) (new_challenge-SameState p env s a b)
  perform-Saves s (completes a b c d e) =
      same s (complete_challenge p env s a b c d e) (complete_challenge-SameState p env s a b c d e)
  perform-Saves s (authenticates a) =
      same s (authenticate p env s a) (authenticate-SameState p env s a)
  perform-Saves s (verifies a b) = inl (verify_csrf-SameState p env s a b)
  perform-Saves s closes = inl (close-SameState s)
