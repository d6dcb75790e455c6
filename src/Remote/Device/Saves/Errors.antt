-- ===== src/Remote/Device/Saves/Errors.antt =====
-- internal/remote/device/store.go: what an operation that fails leaves.
use mohuddle.Base.{
  ℕ, ◌≡◌, ◌⊎◌, inl, inr, Bool, false, String, List, [], ◌∷◌, Option, none, some, ok, err,
  Bool-cases, ℤ, trim_space, utf8, lookup, delete, string_eq, str_eq,
}
use mohuddle.Remote.Device.{
  Bytes, Packages, Grant, PersistentState, Challenge, SessionRecord, Store, Answer, active,
}
use mohuddle.Remote.Device.Durable.{save_state}
use mohuddle.Remote.Device.Ephemeral.{
  drop_where, prune_ephemeral, session_over, challenge_over, require_open,
}
use mohuddle.Remote.Device.Grants.{
  Env, grant_index, commit, settle, then_invalidate, create_invitation, pair, revoke, without,
  revoke_grant, revoke_open, set_scopes,
}
use mohuddle.Remote.Device.Sessions.{
  new_challenge, issuable, issue, challenged, keep_challenge, complete_challenge, completable,
  complete, minted, keep_session, authenticate, authenticate_open, admit_matched, admit, matched,
  find_active, verify_csrf,
}
use mohuddle.Remote.Device.History.{
  Operation, creates, pairs, revokes, rescopes, challenges, completes, authenticates, verifies,
  closes, outcome, perform,
}
use mohuddle.Remote.Device.Saves.{Saves, perform-Saves}

-- A list with some elements left out.
pub data Sublist {ℓ} {A : Type ℓ} : List A → List A → Type ℓ where
  stop : Sublist [] []
  keep : (x : A) {xs ys : List A} → Sublist xs ys → Sublist (x ∷ xs) (x ∷ ys)
  skip : (x : A) {xs ys : List A} → Sublist xs ys → Sublist xs (x ∷ ys)

Sublist-refl {ℓ} : {A : Type ℓ} (xs : List A) → Sublist xs xs
Sublist-refl [] = stop
Sublist-refl (x ∷ xs) = keep x (Sublist-refl xs)

Sublist-trans {ℓ} : {A : Type ℓ} {xs ys zs : List A} → Sublist xs ys → Sublist ys zs → Sublist xs zs
Sublist-trans h stop = h
Sublist-trans h (skip x k) = skip x (Sublist-trans h k)
Sublist-trans (keep y h) (keep x k) = keep x (Sublist-trans h k)
Sublist-trans (skip y h) (keep x k) = skip x (Sublist-trans h k)

drop_where-Sublist {ℓ} :
    {V : Type ℓ} (gone : V → Bool) (m : List (String × V)) → Sublist (drop_where gone m) m
drop_where-Sublist gone [] = stop
drop_where-Sublist gone ((k, v) ∷ m) = elim (Bool-cases (gone v)) [
  | inl e ↦ rw e (skip (k, v) (drop_where-Sublist gone m))
  | inr e ↦ rw e (keep (k, v) (drop_where-Sublist gone m))
]

delete-Sublist {ℓ} : {V : Type ℓ} (k : String) (m : List (String × V)) → Sublist (delete k m) m
unfolding delete
delete-Sublist k [] = stop
delete-Sublist k ((j, v) ∷ m) = elim (Bool-cases (str_eq j k)) [
  | inl e ↦ rw e (skip (j, v) (delete-Sublist k m))
  | inr e ↦ rw e (keep (j, v) (delete-Sublist k m))
]

-- No session and no challenge is new.
abbrev pub Shrinks : Store → Store → Type 0
Shrinks s t = Sublist t.sessions s.sessions × Sublist t.challenges s.challenges

same-Shrinks : (s : Store) → Shrinks s s
same-Shrinks s = (Sublist-refl s.sessions, Sublist-refl s.challenges)

prune_ephemeral-Shrinks : (now : ℕ) (s : Store) → Shrinks s (prune_ephemeral now s)
unfolding prune_ephemeral
prune_ephemeral-Shrinks now s = (
  drop_where-Sublist (session_over now) s.sessions,
  drop_where-Sublist (challenge_over now) s.challenges,
)

module _ (p : Packages) (env : Env) where
  -- What an operation leaves where it fails.
  abbrev Failing : Store → Store × Bool → Type 0
  Failing s (t, done) = done ≡ false → Shrinks s t

  commit-Failing :
      {A B : Type 0} (s : Store) (build : B → PersistentState × A) (checked : Answer B)
      → Failing s (outcome (commit p env s build checked))
  commit-Failing s build (err e) = λ h. same-Shrinks s
  commit-Failing s build (ok b) = settled (save_state p env.files (build b).0 s.file)
    where
      settled :
          (r : Option String × Answer Unit)
          → Failing s (outcome (settle p env s (build b).0 (build b).1 r))
      settled (file, ok u) h = cc
      settled (file, err e) h = same-Shrinks s

  then_invalidate-Failing :
      {A : Type 0} (d : String) (s : Store) (r : Store × Answer A)
      → Failing s (outcome r)
      → Failing s (outcome (then_invalidate p env d r))
  then_invalidate-Failing d s (t, ok a) h k = cc
  then_invalidate-Failing d s (t, err e) h k = h k

  revoke-Failing : (s : Store) (device : String) → Failing s (outcome (revoke p env s device))
  unfolding revoke
  revoke-Failing s device =
      let d = trim_space device in
      then_invalidate-Failing d s (revoke_open p env s d (require_open s)) (opened (require_open s))
    where
      indexed :
          (o : Option Grant) → Failing s (outcome (revoke_grant p env s (trim_space device) o))
      indexed none = λ h. same-Shrinks s
      indexed (some g) = elim (Bool-cases (active g)) [
        | inl e ↦ rw e (commit-Failing s (without p env s (trim_space device)) (ok g))
        | inr e ↦ rw e (λ h. cc)
      ]

      opened : (r : Answer Unit) → Failing s (outcome (revoke_open p env s (trim_space device) r))
      opened (err e) = λ h. same-Shrinks s
      opened (ok u) = indexed (grant_index s.state.grants (trim_space device))

  new_challenge-Failing :
      (s : Store) (d : String) (ttl : ℤ) → Failing s (outcome (new_challenge p env s d ttl))
  unfolding new_challenge
  new_challenge-Failing s d ttl = issued (issuable p env s ttl)
    where
      kept :
          (t : Store) (r : Answer Challenge)
          → Shrinks s t
          → Failing s (outcome (keep_challenge p env t r))
      kept t (err e) h k = h
      kept t (ok c) h k = cc

      issued : (r : Answer ℕ) → Failing s (outcome (issue p env s (trim_space d) r))
      issued (err e) = λ h. same-Shrinks s
      issued (ok ttl) =
          let t = prune_ephemeral env.now s in
          kept t (challenged p env t (trim_space d) ttl) (prune_ephemeral-Shrinks env.now s)

  complete_challenge-Failing :
      (s : Store) (d id : String) (sig : Bytes) (idle absolute : ℤ)
      → Failing s (outcome (complete_challenge p env s d id sig idle absolute))
  unfolding complete_challenge
  complete_challenge-Failing s d id sig idle absolute = started (completable p env s idle absolute)
    where
      kept :
          (t : Store) (r : Answer (String × String × SessionRecord))
          → Shrinks s t
          → Failing s (outcome (keep_session p env t r))
      kept t (err e) h k = h
      kept t (ok (a, b, r)) h k = cc

      started : (r : Answer (ℕ × ℕ)) → Failing s (outcome (complete p env s d id sig r))
      started (err e) = λ h. same-Shrinks s
      started (ok ttls) =
          let t = prune_ephemeral env.now s in
          let used = record t { challenges = delete id t.challenges } in
          let (sessions, open_ones) = prune_ephemeral-Shrinks env.now s in
          kept used (minted p env used (lookup id t.challenges) d sig ttls)
            (sessions, Sublist-trans (delete-Sublist id t.challenges) open_ones)

  authenticate-Failing :
      (s : Store) (token : String) → Failing s (outcome (authenticate p env s token))
  unfolding authenticate
  authenticate-Failing s token = opened (require_open s)
    where
      admitted :
          (t : Store) (key : String) (r : SessionRecord) (g : Answer Grant)
          → Shrinks s t
          → Failing s (outcome (admit p env t key r g))
      admitted t key r (err e) h k = (Sublist-trans (delete-Sublist r.id t.sessions) h.0, h.1)
      admitted t key r (ok g) h k = cc

      seen :
          (t : Store) (o : Option (String × SessionRecord))
          → Shrinks s t
          → Failing s (outcome (admit_matched p env t o))
      seen t none h = λ k. h
      seen t (some (key, r)) h = admitted t key r (find_active t.state.grants r.device_id) h

      opened : (r : Answer Unit) → Failing s (outcome (authenticate_open p env s token r))
      opened (err e) = λ h. same-Shrinks s
      opened (ok u) =
          let t = prune_ephemeral env.now s in
          seen t (matched p env (p.sha256 (utf8 token)) t.sessions)
            (prune_ephemeral-Shrinks env.now s)

  perform-Failing : (s : Store) (op : Operation) → Failing s (perform p env s op)
  unfolding create_invitation pair set_scopes verify_csrf
  perform-Failing s (creates a b c d) = commit-Failing s _ _
  perform-Failing s (pairs a b) = commit-Failing s _ _
  perform-Failing s (revokes a) = revoke-Failing s a
  perform-Failing s (rescopes a b) =
      then_invalidate-Failing (trim_space a) s _ (commit-Failing s _ _)
  perform-Failing s (challenges a b) = new_challenge-Failing s a b
  perform-Failing s (completes a b c d e) = complete_challenge-Failing s a b c d e
  perform-Failing s (authenticates a) = authenticate-Failing s a
  perform-Failing s (verifies a b) = λ h. prune_ephemeral-Shrinks env.now s
  perform-Failing s closes = λ h. cc

  -- An operation that fails leaves the grants and invitations in memory as they were, and no session
  -- and no challenge that was not there before. The file too is as it was, except where the new one
  -- is in place and only its mode could not be set.
  pub perform-failed :
      (s : Store) (op : Operation)
      → (perform p env s op).1 ≡ false
      → ((perform p env s op).0.state ≡ s.state)
        × Shrinks s (perform p env s op).0
        × (((perform p env s op).0.file ≡ s.file) ⊎ (env.files.keeps_mode ≡ false))
  perform-failed s op failed =
      saved (perform p env s op) (perform-Saves p env s op) failed (perform-Failing s op)
    where
      saved :
          (r : Store × Bool)
          → Saves p env s r
          → r.1 ≡ false
          → Failing s r
          → (r.0.state ≡ s.state)
            × Shrinks s r.0
            × ((r.0.file ≡ s.file) ⊎ (env.files.keeps_mode ≡ false))
      saved r (inl (state, file)) failing k = (state, k failing, inl file)
      saved r (inr (inl (_, _, done))) failing k = cc
      saved r (inr (inr (state, lost, _))) failing k = (state, k failing, inr lost)
