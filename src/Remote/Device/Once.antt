-- ===== src/Remote/Device/Once.antt =====
-- internal/remote/device/store.go: a challenge is completed once.
use mohuddle.Base.{
  false, ◌∙◌, eq_iff, lookup-delete_other, lookup-insert_other, Option, some, trim_space, utf8, ℕ,
  ◌≡◌, ◌≢◌, refl, sym, subst, inl, inr, Bool, String, List, [], ◌∷◌, none, ok, err, Bool-cases,
  str_eq, lookup, delete, lookup-delete, string_eq, ℤ,
}
use mohuddle.Remote.Device.{
  Bytes, Packages, Challenge, Grant, PersistentState, active, SessionRecord, SessionCredentials,
  Store, Answer,
}
use mohuddle.Remote.Device.Ephemeral.{
  invalidate_device, challenge_for, require_open, close, drop_where, prune_ephemeral,
  challenge_over,
}
use mohuddle.Remote.Device.Grants.{
  Env, grant_index, commit, settle, then_invalidate, create_invitation, pair, revoke, without,
  revoke_grant, revoke_open, set_scopes,
}
use mohuddle.Remote.Device.Sessions.{
  complete_challenge, complete, completable, keep_session, minted, new_challenge, issuable, issue,
  challenged, keep_challenge, authenticate, authenticate_open, admit_matched, admit, matched,
  find_active, verify_csrf,
}
use mohuddle.Remote.Device.Durable.{save_state}
use mohuddle.Remote.Device.History.{
  Operation, creates, pairs, revokes, rescopes, challenges, completes, authenticates, verifies,
  closes, outcome, perform, run,
}

lookup-drop_where {ℓ} :
    {V : Type ℓ} (gone : V → Bool) (k : String) (m : List (String × V))
    → lookup k m ≡ none
    → lookup k (drop_where gone m) ≡ none
unfolding lookup
lookup-drop_where gone k [] h = refl
lookup-drop_where gone k ((j, v) ∷ m) h = elim (Bool-cases (str_eq j k)) [
  | inl e ↦ cc (rw e at h)
  | inr e ↦ elim (Bool-cases (gone v)) [
    | inl g ↦ rw g (lookup-drop_where gone k m (rw e at h))
    | inr g ↦ rw (g, e) (lookup-drop_where gone k m (rw e at h))
  ]
]

module _ (p : Packages) where
  -- Once an attempt has got as far as the challenge, it is gone.
  completed-gone :
      (env : Env) (s : Store) (d id : String) (sig : Bytes) (idle absolute : ℤ) (ttls : ℕ × ℕ)
      → completable p env s idle absolute ≡ ok ttls
      → lookup id (complete_challenge p env s d id sig idle absolute).0.challenges ≡ none
  unfolding complete_challenge
  completed-gone env s d id sig idle absolute ttls ready =
      subst (λ r. lookup id (complete p env s d id sig r).0.challenges ≡ none) (sym ready)
        (kept (minted p env used (lookup id t.challenges) d sig ttls))
    where
      t : Store
      t = prune_ephemeral env.now s

      used : Store
      used = record t { challenges = delete id t.challenges }

      kept :
          (r : Answer (String × String × SessionRecord))
          → lookup id (keep_session p env used r).0.challenges ≡ none
      kept (err e) = lookup-delete id t.challenges
      kept (ok (a, b, r)) = lookup-delete id t.challenges

  unknown-refused :
      (env : Env) (s : Store) (d id : String) (sig : Bytes) (idle absolute : ℤ)
      (credentials : SessionCredentials)
      → lookup id s.challenges ≡ none
      → (complete_challenge p env s d id sig idle absolute).1 ≢ ok credentials
  unfolding complete_challenge prune_ephemeral
  unknown-refused env s d id sig idle absolute credentials gone =
      started (completable p env s idle absolute)
    where
      t : Store
      t = prune_ephemeral env.now s

      missing : lookup id t.challenges ≡ none
      missing = lookup-drop_where (challenge_over env.now) id s.challenges gone

      started : (r : Answer (ℕ × ℕ)) → (complete p env s d id sig r).1 ≢ ok credentials
      started (err e) h = cc
      started (ok ttls) h = cc (rw missing at h)

  -- An operation that issues no challenge of that name.
  abbrev pub IssuesOther : String → Store → Env × Operation → Type 0
  IssuesOther id s (env, challenges d ttl) =
      (c : Challenge) → (new_challenge p env s d ttl).1 ≡ ok c → str_eq c.id id ≡ false
  IssuesOther id s _ = Unit

  abbrev pub AllIssueOther : String → Store → List (Env × Operation) → Type 0
  AllIssueOther id s [] = Unit
  AllIssueOther id s ((env, op) ∷ ops) =
      IssuesOther id s (env, op) × AllIssueOther id (perform p env s op).0 ops

  module _ (env : Env) (id : String) (s : Store) (gone : lookup id s.challenges ≡ none) where
    abbrev IsGone : Store → Type 0
    IsGone t = lookup id t.challenges ≡ none

    pruned-IsGone : IsGone (prune_ephemeral env.now s)
    unfolding prune_ephemeral
    pruned-IsGone = lookup-drop_where (challenge_over env.now) id s.challenges gone

    commit-IsGone :
        {A B : Type 0} (build : B → PersistentState × A) (checked : Answer B)
        → IsGone (commit p env s build checked).0
    commit-IsGone build (err e) = gone
    commit-IsGone build (ok b) = settled (save_state p env.files (build b).0 s.file)
      where
        settled :
            (r : Option String × Answer Unit) → IsGone (settle p env s (build b).0 (build b).1 r).0
        settled (file, ok u) = gone
        settled (file, err e) = gone

    then_invalidate-IsGone :
        {A : Type 0} (d : String) (r : Store × Answer A)
        → IsGone r.0
        → IsGone (then_invalidate p env d r).0
    unfolding invalidate_device
    then_invalidate-IsGone d (t, ok a) h = lookup-drop_where (challenge_for d) id t.challenges h
    then_invalidate-IsGone d (t, err e) h = h

    revoke-IsGone : (d : String) → IsGone (revoke p env s d).0
    unfolding revoke
    revoke-IsGone device = then_invalidate-IsGone (trim_space device) _ (opened (require_open s))
      where
        indexed : (o : Option Grant) → IsGone (revoke_grant p env s (trim_space device) o).0
        indexed none = gone
        indexed (some g) = elim (Bool-cases (active g)) [
          | inl e ↦ rw e (commit-IsGone (without p env s (trim_space device)) (ok g))
          | inr e ↦ rw e gone
        ]

        opened : (r : Answer Unit) → IsGone (revoke_open p env s (trim_space device) r).0
        opened (err e) = gone
        opened (ok u) = indexed (grant_index s.state.grants (trim_space device))

    new_challenge-IsGone :
        (d : String) (ttl : ℤ)
        → ((c : Challenge) → (new_challenge p env s d ttl).1 ≡ ok c → str_eq c.id id ≡ false)
        → IsGone (new_challenge p env s d ttl).0
    unfolding new_challenge
    new_challenge-IsGone d ttl = issued (issuable p env s ttl)
      where
        kept :
            (t : Store) (r : Answer Challenge)
            → IsGone t
            → ((c : Challenge) → (keep_challenge p env t r).1 ≡ ok c → str_eq c.id id ≡ false)
            → IsGone (keep_challenge p env t r).0
        kept t (err e) h other = h
        kept t (ok c) h other = lookup-insert_other id c.id c t.challenges (other c refl) ∙ h

        issued :
            (r : Answer ℕ)
            → ((c : Challenge) → (issue p env s (trim_space d) r).1 ≡ ok c → str_eq c.id id ≡ false)
            → IsGone (issue p env s (trim_space d) r).0
        issued (err e) = λ other. gone
        issued (ok n) =
            kept (prune_ephemeral env.now s)
              (challenged p env (prune_ephemeral env.now s) (trim_space d) n) pruned-IsGone

    complete-IsGone :
        (d name : String) (sig : Bytes) (r : Answer (ℕ × ℕ))
        → IsGone (complete p env s d name sig r).0
    complete-IsGone d name sig (err e) = gone
    complete-IsGone d name sig (ok ttls) = kept _
      where
        left : lookup id (delete name (prune_ephemeral env.now s).challenges) ≡ none
        left = elim (Bool-cases (str_eq name id)) [
          | inl e ↦
              subst (λ k. lookup id (delete k (prune_ephemeral env.now s).challenges) ≡ none)
                (sym ((eq_iff name id).0 e))
                (lookup-delete id (prune_ephemeral env.now s).challenges)
          | inr e ↦
              lookup-delete_other id name (prune_ephemeral env.now s).challenges e ∙ pruned-IsGone
        ]

        kept :
            (r : Answer (String × String × SessionRecord))
            → IsGone
                (keep_session p env
                  (record (prune_ephemeral env.now s) {
                    challenges = delete name (prune_ephemeral env.now s).challenges;
                  })
                  r).0
        kept (err e) = left
        kept (ok (a, b, r)) = left

    authenticate-IsGone : (token : String) → IsGone (authenticate p env s token).0
    unfolding authenticate
    authenticate-IsGone token = opened (require_open s)
      where
        admitted :
            (key : String) (r : SessionRecord) (g : Answer Grant)
            → IsGone (admit p env (prune_ephemeral env.now s) key r g).0
        admitted key r (err e) = pruned-IsGone
        admitted key r (ok g) = pruned-IsGone

        seen :
            (o : Option (String × SessionRecord))
            → IsGone (admit_matched p env (prune_ephemeral env.now s) o).0
        seen none = pruned-IsGone
        seen (some (key, r)) =
            admitted key r (find_active (prune_ephemeral env.now s).state.grants r.device_id)

        opened : (r : Answer Unit) → IsGone (authenticate_open p env s token r).0
        opened (err e) = gone
        opened (ok u) =
            seen (matched p env (p.sha256 (utf8 token)) (prune_ephemeral env.now s).sessions)

    close-IsGone : IsGone (close s)
    unfolding close lookup
    close-IsGone = elim (Bool-cases s.closed) [ inl e ↦ simp e gone | inr e ↦ simp e refl ]

    abbrev IsGoneAfter : Store × Bool → Type 0
    IsGoneAfter (t, done) = IsGone t

    after : {A : Type 0} (r : Store × Answer A) → IsGone r.0 → IsGoneAfter (outcome r)
    after (t, ok a) h = h
    after (t, err e) h = h

    commit-IsGoneAfter :
        {A B : Type 0} (build : B → PersistentState × A) (checked : Answer B)
        → IsGoneAfter (outcome (commit p env s build checked))
    commit-IsGoneAfter build checked =
        after (commit p env s build checked) (commit-IsGone build checked)

    rescope-IsGoneAfter :
        {A B : Type 0} (d : String) (build : B → PersistentState × A) (checked : Answer B)
        → IsGoneAfter (outcome (then_invalidate p env d (commit p env s build checked)))
    rescope-IsGoneAfter d build checked =
        after (then_invalidate p env d (commit p env s build checked))
          (then_invalidate-IsGone d (commit p env s build checked) (commit-IsGone build checked))

    perform-IsGone :
        (op : Operation) → IssuesOther id s (env, op) → IsGoneAfter (perform p env s op)
    unfolding create_invitation pair set_scopes verify_csrf complete_challenge
    perform-IsGone (creates a b c d) h = commit-IsGoneAfter _ _
    perform-IsGone (pairs a b) h = commit-IsGoneAfter _ _
    perform-IsGone (revokes a) h = after (revoke p env s a) (revoke-IsGone a)
    perform-IsGone (rescopes a b) h = rescope-IsGoneAfter (trim_space a) _ _
    perform-IsGone (challenges a b) h =
        after (new_challenge p env s a b) (new_challenge-IsGone a b h)
    perform-IsGone (completes a b c d e) h =
        after (complete_challenge p env s a b c d e)
          (complete-IsGone a b c (completable p env s d e))
    perform-IsGone (authenticates a) h = after (authenticate p env s a) (authenticate-IsGone a)
    perform-IsGone (verifies a b) h = pruned-IsGone
    perform-IsGone closes h = close-IsGone

  run-gone :
      (id : String) (s : Store) (ops : List (Env × Operation))
      → lookup id s.challenges ≡ none
      → AllIssueOther id s ops
      → lookup id (run p s ops).challenges ≡ none
  run-gone id s [] gone h = gone
  run-gone id s ((env, op) ∷ ops) gone h =
      run-gone id (perform p env s op).0 ops (perform-IsGone env id s gone op h.0) h.1

  -- A challenge is completed at most once: after an attempt with its name, successful or not, and any
  -- operations, an attempt with the name is refused. The conditions: the first attempt asked for
  -- lifetimes that are accepted, on a store that is not closed, since any other stops before the
  -- challenge; and no challenge that is issued after it happens to draw the same name.
  pub complete_challenge-once :
      (first last : Env) (s : Store) (d d' id : String) (sig sig' : Bytes)
      (idle absolute idle' absolute' : ℤ) (ttls : ℕ × ℕ) (ops : List (Env × Operation))
      (credentials : SessionCredentials)
      → completable p first s idle absolute ≡ ok ttls
      → AllIssueOther id (complete_challenge p first s d id sig idle absolute).0 ops
      → (complete_challenge p last
          (run p (complete_challenge p first s d id sig idle absolute).0 ops)
          d'
          id
          sig'
          idle'
          absolute').1
        ≢ ok credentials
  complete_challenge-once first last s d d' id sig sig' idle absolute idle' absolute' ttls ops
        credentials ready others =
      let t = (complete_challenge p first s d id sig idle absolute).0 in
      unknown-refused last (run p t ops) d' id sig' idle' absolute' credentials
        (run-gone id t ops (completed-gone first s d id sig idle absolute ttls ready) others)
