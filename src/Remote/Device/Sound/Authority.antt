-- ===== src/Remote/Device/Sound/Authority.antt =====
-- internal/remote/device/store.go: what a device that is let in may do, after any operations.
use mohuddle.Base.{
  ℕ, ◌*◌, ◌+◌, ◌≤◌, ◌<◌, ◌≡◌, refl, sym, subst, false, String, List, [], ◌∷◌, Option, none, some,
  ok, err, All, first_step, last_step, ok_inj, arith, utf8,
}
use mohuddle.Remote.Device.{Packages, Grant, read_only, Session, SessionRecord, Store, Answer, hour}
use mohuddle.Remote.Device.Durable.{Files, open_store, load_state, opening}
use mohuddle.Remote.Device.Ephemeral.{prune_ephemeral, session_over, require_open, snapshot}
use mohuddle.Remote.Device.Grants.{Env, grant_index}
use mohuddle.Remote.Device.Sessions.{
  authenticate, authenticate_open, admit, admit_matched, find_active, matched,
}
use mohuddle.Remote.Device.History.{
  Operation, creates, pairs, revokes, rescopes, challenges, completes, authenticates, verifies,
  closes, perform, run, outcome-store,
}
use mohuddle.Remote.Device.Sound.{IsSound, Rests, All-drop_where, close-IsSound}
use mohuddle.Remote.Device.Sound.Commits.{
  create_invitation-IsSound, pair-IsSound, revoke-IsSound, set_scopes-IsSound,
}
use mohuddle.Remote.Device.Sound.Sessions.{
  new_challenge-IsSound, complete_challenge-IsSound, authenticate-IsSound, verify_csrf-IsSound,
  matched-All, min_time-le,
}

-- A session is for the room of its device's grant, which is not revoked, with the grant's scopes and
-- no more than reading, and now is before both of its ends, the absolute one at most a day after it began.
abbrev pub IsAuthorized : ℕ → Store → Session → Type 0
IsAuthorized now s session =
    (g : Grant) × (grant_index s.state.grants session.device_id ≡ some g)
    × (g.revoked_at ≡ none)
    × (session.room_id ≡ g.room_id)
    × (session.scopes ≡ g.scopes)
    × (session.ceiling ≡ read_only)
    × now < session.absolute_expires_at
    × session.idle_expires_at ≤ session.absolute_expires_at
    × session.absolute_expires_at ≤ session.created_at + 24 * hour

module _ (p : Packages) where
  perform-IsSound :
      (env : Env) (s : Store) (op : Operation) → IsSound s → IsSound (perform p env s op).0
  perform-IsSound env s (creates a b c d) h =
      subst IsSound (sym (outcome-store _)) (create_invitation-IsSound p env s a b c d h)
  perform-IsSound env s (pairs a b) h =
      subst IsSound (sym (outcome-store _)) (pair-IsSound p env s a b h)
  perform-IsSound env s (revokes a) h =
      subst IsSound (sym (outcome-store _)) (revoke-IsSound p env s a h)
  perform-IsSound env s (rescopes a b) h =
      subst IsSound (sym (outcome-store _)) (set_scopes-IsSound p env s a b h)
  perform-IsSound env s (challenges a b) h =
      subst IsSound (sym (outcome-store _)) (new_challenge-IsSound p env s a b h)
  perform-IsSound env s (completes a b c d e) h =
      subst IsSound (sym (outcome-store _)) (complete_challenge-IsSound p env s a b c d e h)
  perform-IsSound env s (authenticates a) h =
      subst IsSound (sym (outcome-store _)) (authenticate-IsSound p env s a h)
  perform-IsSound env s (verifies a b) h = verify_csrf-IsSound p env s a b h
  perform-IsSound env s closes h = close-IsSound s h

  pub run-IsSound : (s : Store) (ops : List (Env × Operation)) → IsSound s → IsSound (run p s ops)
  run-IsSound s [] h = h
  run-IsSound s ((env, op) ∷ ops) h =
      run-IsSound (perform p env s op).0 ops (perform-IsSound env s op h)

  pub open_store-IsSound :
      (path : String) (f : Files) (content : Option String) (s : Store)
      → open_store p path f content ≡ ok s
      → IsSound s
  unfolding open_store
  open_store-IsSound path f content s e =
      let (state, e₂, _) =
        first_step (load_state p f.entry content) _ (last_step (opening p path f) _ e) in
      subst IsSound (ok_inj e₂) (tt, tt)

  not_over :
      (now : ℕ) (r : SessionRecord)
      → session_over now r ≡ false
      → now < r.idle_expires_at × now < r.absolute_expires_at
  not_over now r h = ground arith

  -- The sessions that pruning leaves are before both of their ends.
  pruned_left :
      (now : ℕ) (s : Store)
      → IsSound s
      → All
          (λ e. Rests s.state.grants e × (session_over now e.1 ≡ false))
          (prune_ephemeral now s).sessions
  unfolding prune_ephemeral
  pruned_left now s h = All-drop_where (Rests s.state.grants) (session_over now) s.sessions h.0

  -- What a token opens is authorized in the store that it leaves.
  pub authenticate-IsAuthorized :
      (env : Env) (s : Store) (token : String) (session : Session)
      → IsSound s
      → (authenticate p env s token).1 ≡ ok session
      → IsAuthorized env.now (authenticate p env s token).0 session
  unfolding authenticate snapshot prune_ephemeral
  authenticate-IsAuthorized env s token session h = opened (require_open s)
    where
      admitted :
          (t : Store) (key : String) (r : SessionRecord) (g : Answer Grant)
          → Rests t.state.grants (key, r) × (session_over env.now r ≡ false)
          → (admit p env t key r g).1 ≡ ok session
          → IsAuthorized env.now (admit p env t key r g).0 session
      admitted t key r (err x) k e = cc
      admitted t key r (ok x) ((g, here, live, a, b, c, _, _, d), over) e =
          subst (IsAuthorized env.now (admit p env t key r (ok x)).0) (ok_inj e) (
            g,
            here,
            live,
            a,
            b,
            c,
            (not_over env.now r over).1,
            min_time-le (env.now + r.idle_ttl) r.absolute_expires_at,
            d,
          )

      found :
          (t : Store) (o : Option (String × SessionRecord))
          → ((e : String × SessionRecord)
              → o ≡ some e
              → Rests t.state.grants e × (session_over env.now e.1 ≡ false))
          → (admit_matched p env t o).1 ≡ ok session
          → IsAuthorized env.now (admit_matched p env t o).0 session
      found t none k e = cc
      found t (some (key, r)) k e =
          admitted t key r (find_active t.state.grants r.device_id) (k (key, r) refl) e

      opened :
          (r : Answer Unit)
          → (authenticate_open p env s token r).1 ≡ ok session
          → IsAuthorized env.now (authenticate_open p env s token r).0 session
      opened (err x) e = cc
      opened (ok u) e =
          let t = prune_ephemeral env.now s in
          let wanted = p.sha256 (utf8 token) in
          found t (matched p env wanted t.sessions)
            (λ x q.
              matched-All p env (λ x. Rests s.state.grants x × (session_over env.now x.1 ≡ false))
                wanted t.sessions x q (pruned_left env.now s h))
            e

  -- Whatever has happened since a store was opened, a device that a token lets in has the room and the
  -- scopes that its grant has now, the grant is not revoked, it may no more than read, and its session
  -- is before its absolute end, which is at most a day after it began and not before its idle end.
  pub authenticate-run :
      (path : String) (f : Files) (content : Option String) (s : Store)
      (ops : List (Env × Operation)) (env : Env) (token : String) (session : Session)
      → open_store p path f content ≡ ok s
      → (authenticate p env (run p s ops) token).1 ≡ ok session
      → IsAuthorized env.now (authenticate p env (run p s ops) token).0 session
  authenticate-run path f content s ops env token session opened =
      authenticate-IsAuthorized env (run p s ops) token session
        (run-IsSound s ops (open_store-IsSound path f content s opened))
