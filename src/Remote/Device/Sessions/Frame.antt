-- ===== src/Remote/Device/Sessions/Frame.antt =====
-- internal/remote/device/store.go: challenges and sessions change nothing durable.
use mohuddle.Base.{
  ℕ, ◌≡◌, refl, String, Option, none, some, ok, err, ℤ, trim_space, utf8, lookup, delete, string_eq,
  inl, inr, Bool-cases,
}
use mohuddle.Remote.Device.{Bytes, Packages, Grant, Challenge, SessionRecord, Store, Answer}
use mohuddle.Remote.Device.Ephemeral.{prune_ephemeral, require_open, close}
use mohuddle.Remote.Device.Grants.{Env}
use mohuddle.Remote.Device.Sessions.{
  challenged, keep_challenge, issue, issuable, new_challenge, minted, keep_session, complete,
  completable, complete_challenge, matched, admit, admit_matched, find_active, authenticate_open,
  authenticate, verify_csrf,
}

-- The durable state of two stores, in memory and on disk, is the same, and so is whether they are
-- closed.
abbrev pub SameState : Store → Store → Type 0
SameState s t = (t.state ≡ s.state) × (t.file ≡ s.file)

pub prune_ephemeral-SameState : (now : ℕ) (s : Store) → SameState s (prune_ephemeral now s)
unfolding prune_ephemeral
prune_ephemeral-SameState now s = (refl, refl)

pub close-SameState : (s : Store) → SameState s (close s)
unfolding close
close-SameState s = elim (Bool-cases s.closed) [
  | inl e ↦ simp e (refl, refl)
  | inr e ↦ simp e (refl, refl)
]

module _ (p : Packages) (env : Env) (s : Store) where
  pub new_challenge-SameState : (d : String) (ttl : ℤ) → SameState s (new_challenge p env s d ttl).0
  unfolding new_challenge prune_ephemeral
  new_challenge-SameState d ttl = issued (issuable p env s ttl)
    where
      kept : (t : Store) (r : Answer Challenge) → SameState t (keep_challenge p env t r).0
      kept t (err e) = (refl, refl)
      kept t (ok c) = (refl, refl)

      issued : (r : Answer ℕ) → SameState s (issue p env s (trim_space d) r).0
      issued (err e) = (refl, refl)
      issued (ok ttl) =
          let t = prune_ephemeral env.now s in kept t (challenged p env t (trim_space d) ttl)

  pub complete_challenge-SameState :
      (d id : String) (sig : Bytes) (idle absolute : ℤ)
      → SameState s (complete_challenge p env s d id sig idle absolute).0
  unfolding complete_challenge prune_ephemeral
  complete_challenge-SameState d id sig idle absolute = started (completable p env s idle absolute)
    where
      kept :
          (t : Store) (r : Answer (String × String × SessionRecord))
          → SameState t (keep_session p env t r).0
      kept t (err e) = (refl, refl)
      kept t (ok (a, b, r)) = (refl, refl)

      started : (r : Answer (ℕ × ℕ)) → SameState s (complete p env s d id sig r).0
      started (err e) = (refl, refl)
      started (ok ttls) =
          let t = prune_ephemeral env.now s in
          let used = record t { challenges = delete id t.challenges } in
          kept used (minted p env used (lookup id t.challenges) d sig ttls)

  pub authenticate-SameState : (token : String) → SameState s (authenticate p env s token).0
  unfolding authenticate prune_ephemeral
  authenticate-SameState token = opened (require_open s)
    where
      admitted :
          (t : Store) (key : String) (r : SessionRecord) (g : Answer Grant)
          → SameState t (admit p env t key r g).0
      admitted t key r (err e) = (refl, refl)
      admitted t key r (ok g) = (refl, refl)

      found :
          (t : Store) (o : Option (String × SessionRecord))
          → SameState t (admit_matched p env t o).0
      found t none = (refl, refl)
      found t (some (key, r)) = admitted t key r (find_active t.state.grants r.device_id)

      opened : (r : Answer Unit) → SameState s (authenticate_open p env s token r).0
      opened (err e) = (refl, refl)
      opened (ok u) =
          let t = prune_ephemeral env.now s in
          found t (matched p env (p.sha256 (utf8 token)) t.sessions)

  pub verify_csrf-SameState : (id token : String) → SameState s (verify_csrf p env s id token).0
  unfolding verify_csrf
  verify_csrf-SameState id token = prune_ephemeral-SameState env.now s
