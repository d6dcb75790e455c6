-- ===== src/Remote/Device/Sound/Sessions.antt =====
-- internal/remote/device/store.go: challenges and sessions rest on a grant, from their start on.
use mohuddle.Base.{
  ◌<◌, eq_iff, utf8, subst, ap, ok_inj, str_eq, ◌&&◌, ◌∙◌, ℕ, ◌+◌, ◌*◌, ◌≤◌, ◌≡◌, refl, sym, inl,
  inr, Bool, true, false, not, String, List, [], ◌∷◌, Option, none, some, ok, err, or_fail, ℤ,
  trim_space, Bool-cases, Option-cases, first_step, or_fail-eq-ok, All, All-insert, All-delete,
  arith, ltb, delete, string_eq, lookup, ltb→lt,
}
use mathlib.Core.Option.{some_inj}
use mohuddle.Remote.Device.{
  Bytes, Packages, Grant, Challenge, SessionRecord, Store, Answer, active, min_time, hour, minute,
  bytes_eq, is_none-eq, require_passed, store_closed, grant_unavailable, invalid_challenge,
  invalid_signature, no_random,
}
use mohuddle.Remote.Device.Codes.{random_identifier, random_secret}
use mohuddle.Remote.Device.Durable.{canonical_key}
use mohuddle.Remote.Device.Ephemeral.{prune_ephemeral, require_open}
use mohuddle.Remote.Device.Grants.{Env, grant_index}
use mohuddle.Remote.Device.Sessions.{
  or_default, record_of, find_active, stored_key, verify_raw, lifetimes, challenged, keep_challenge,
  issue, issuable, new_challenge, minted, keep_session, complete, completable, complete_challenge,
  matched, touched, admit, admit_matched, authenticate_open, authenticate, verify_csrf,
}
use mohuddle.Remote.Device.Sound.{IsSound, Rests, Stands, prune_ephemeral-IsSound}

and_true : (a b : Bool) → (a && b) ≡ true → (a ≡ true) × (b ≡ true)
and_true true b h = (refl, h)
and_true false b h = cc

find_active-ok :
    (gs : List Grant) (id : String) (g : Grant)
    → find_active gs id ≡ ok g
    → (grant_index gs id ≡ some g) × (g.revoked_at ≡ none)
find_active-ok gs id g e =
    let (x, rest, found) = first_step (or_fail (grant_index gs id) grant_unavailable) _ e in
    let (live, same) = require_passed (active x) grant_unavailable (ok x) rest in
    (
      or_fail-eq-ok (grant_index gs id) grant_unavailable found ∙ ap some (ok_inj same),
      subst (λ g. g.revoked_at ≡ none) (ok_inj same) (is_none-eq x.revoked_at live),
    )

pub min_time-le : (a b : ℕ) → min_time a b ≤ b
unfolding min_time
min_time-le a b = ground arith

lifetimes-le :
    (idle absolute : Option ℕ) (t : ℕ × ℕ) → lifetimes idle absolute ≡ ok t → t.1 ≤ 24 * hour
lifetimes-le (some i) (some a) t e = ground arith
lifetimes-le none a t e = cc
lifetimes-le (some i) none t e = cc

module _ (p : Packages) (env : Env) where
  challenged-Stands :
      (s : Store) (d : String) (ttl : ℕ) (c : Challenge)
      → challenged p env s d ttl ≡ ok c
      → Stands s.state.grants (c.id, c)
  challenged-Stands s d ttl c e =
      let (g, e₁, found) = first_step (find_active s.state.grants d) _ e in
      let (id, e₂, _) = first_step (random_identifier p env.first_read) _ e₁ in
      let (nonce, e₃, _) = first_step (or_fail env.second_read no_random) _ e₂ in
      let (at_index, live) = find_active-ok s.state.grants d g found in
      subst (λ c. Stands s.state.grants (c.id, c)) (ok_inj e₃) (g, at_index, live, refl, refl)

  pub new_challenge-IsSound :
      (s : Store) (d : String) (ttl : ℤ) → IsSound s → IsSound (new_challenge p env s d ttl).0
  unfolding new_challenge
  new_challenge-IsSound s d ttl h = issued (issuable p env s ttl)
    where
      kept :
          (t : Store) (r : Answer Challenge)
          → IsSound t
          → ((c : Challenge) → r ≡ ok c → Stands t.state.grants (c.id, c))
          → IsSound (keep_challenge p env t r).0
      kept t (err e) h k = h
      kept t (ok c) h k =
          (h.0, All-insert (Stands t.state.grants) c.id c t.challenges (k c refl) h.1)

      issued : (r : Answer ℕ) → IsSound (issue p env s (trim_space d) r).0
      issued (err e) = h
      issued (ok ttl) =
          let t = prune_ephemeral env.now s in
          kept t (challenged p env t (trim_space d) ttl) (prune_ephemeral-IsSound env.now s h)
            (challenged-Stands t (trim_space d) ttl)

  -- What a session is minted from: a challenge for the device that is not over, its grant, which is
  -- not revoked, and a signature of the challenge's payload under the grant's key.
  abbrev IsMinted :
      Store → Option Challenge → String → Bytes → ℕ × ℕ → String × String × SessionRecord → Type 0
  IsMinted s found d sig (idle, absolute) (token, csrf, r) =
      (c : Challenge) × (g : Grant) × (key : p.PublicKey) × (found ≡ some c)
      × (c.device_id ≡ d)
      × env.now < c.expires_at
      × (grant_index s.state.grants d ≡ some g)
      × (g.revoked_at ≡ none)
      × (stored_key p env (canonical_key p g.public_key) ≡ ok key)
      × (verify_raw p env key (utf8 c.payload) sig ≡ true)
      × (r ≡ record_of p env r.id g d token csrf idle absolute s.channels)

  minted-IsMinted :
      (s : Store) (found : Option Challenge) (d : String) (sig : Bytes) (ttls : ℕ × ℕ)
      (m : String × String × SessionRecord)
      → minted p env s found d sig ttls ≡ ok m
      → IsMinted s found d sig ttls m
  minted-IsMinted s found d sig (idle, absolute) m e =
      let (c, e₁, is_found) = first_step (or_fail found invalid_challenge) _ e in
      let (meant, e₂) =
        require_passed (str_eq c.device_id d && ltb env.now c.expires_at) invalid_challenge _ e₁ in
      let both_true = and_true (str_eq c.device_id d) (ltb env.now c.expires_at) meant in
      let (g, e₃, here) = first_step (find_active s.state.grants d) _ e₂ in
      let (key, e₄, stored) = first_step (stored_key p env (canonical_key p g.public_key)) _ e₃ in
      let (signed, e₅) =
        require_passed (verify_raw p env key (utf8 c.payload) sig) invalid_signature _ e₄ in
      let (token, e₆, _) = first_step (random_secret p env.first_read) _ e₅ in
      let (csrf, e₇, _) = first_step (random_secret p env.second_read) _ e₆ in
      let (id, e₈, _) = first_step (random_identifier p env.third_read) _ e₇ in
      let (at_index, live) = find_active-ok s.state.grants d g here in
      subst (IsMinted s found d sig (idle, absolute)) (ok_inj e₈) (
        c,
        g,
        key,
        or_fail-eq-ok found invalid_challenge is_found,
        (eq_iff c.device_id d).0 (both_true.0),
        ltb→lt env.now c.expires_at both_true.1,
        at_index,
        live,
        stored,
        signed,
        refl,
      )

  minted-Rests :
      (s : Store) (found : Option Challenge) (d : String) (sig : Bytes) (ttls : ℕ × ℕ)
      (m : String × String × SessionRecord)
      → ttls.1 ≤ 24 * hour
      → IsMinted s found d sig ttls m
      → Rests s.state.grants (m.2.id, m.2)
  minted-Rests s found d sig (idle, absolute) (token, csrf, r) below
        (c, g, key, _, _, _, at_index, live, _, _, same) =
      subst (λ r. Rests s.state.grants (r.id, r)) (sym same)
        (
          g,
          at_index,
          live,
          refl,
          refl,
          refl,
          refl,
          min_time-le (env.now + idle) (env.now + absolute),
          omega arith,
        )

  pub complete_challenge-IsSound :
      (s : Store) (d id : String) (sig : Bytes) (idle absolute : ℤ)
      → IsSound s
      → IsSound (complete_challenge p env s d id sig idle absolute).0
  unfolding complete_challenge
  complete_challenge-IsSound s d id sig idle absolute h =
      started (completable p env s idle absolute) lifetimes_of
    where
      lifetimes_of : (t : ℕ × ℕ) → completable p env s idle absolute ≡ ok t → t.1 ≤ 24 * hour
      lifetimes_of t e =
          let (ttls, rest, given) =
            first_step (lifetimes (or_default (15 * minute) idle) (or_default (8 * hour) absolute))
              _ e in
          let (_, same) = require_passed (not s.closed) store_closed (ok ttls) rest in
          subst (λ t. t.1 ≤ 24 * hour) (ok_inj same)
            (lifetimes-le (or_default (15 * minute) idle) (or_default (8 * hour) absolute) ttls
              given)

      kept :
          (t : Store) (r : Answer (String × String × SessionRecord))
          → IsSound t
          → ((m : String × String × SessionRecord) → r ≡ ok m → Rests t.state.grants (m.2.id, m.2))
          → IsSound (keep_session p env t r).0
      kept t (err e) h k = h
      kept t (ok (a, b, r)) h k =
          (All-insert (Rests t.state.grants) r.id r t.sessions (k (a, b, r) refl) h.0, h.1)

      started :
          (r : Answer (ℕ × ℕ))
          → ((t : ℕ × ℕ) → r ≡ ok t → t.1 ≤ 24 * hour)
          → IsSound (complete p env s d id sig r).0
      started (err e) k = h
      started (ok ttls) k =
          let t = prune_ephemeral env.now s in
          let used = record t { challenges = delete id t.challenges } in
          let sound = prune_ephemeral-IsSound env.now s h in
          kept used (minted p env used (lookup id t.challenges) d sig ttls)
            (sound.0, All-delete (Stands t.state.grants) id t.challenges sound.1)
            (λ m e.
              minted-Rests used (lookup id t.challenges) d sig ttls m (k ttls refl)
                (minted-IsMinted used (lookup id t.challenges) d sig ttls m e))

  -- What holds of every entry holds of the one whose token matches.
  pub matched-All {κ} :
      (P : String × SessionRecord → Type κ) (wanted : Bytes) (m : List (String × SessionRecord))
      (e : String × SessionRecord)
      → matched p env wanted m ≡ some e
      → All P m
      → P e
  unfolding matched
  matched-All P wanted [] e q h = cc
  matched-All P wanted ((j, x) ∷ m) e q h = elim (Option-cases (matched p env wanted m)) [
    | inr (found, later) ↦ matched-All P wanted m e (later ∙ (rw later at q)) h.1
    | inl none_later ↦ elim (Bool-cases (bytes_eq x.token_hash wanted)) [
      | inl hit ↦ subst P (some_inj.0 (rw (none_later, hit) at q)) h.0
      | inr miss ↦ cc (rw (none_later, miss) at q)
    ]
  ]

  pub authenticate-IsSound :
      (s : Store) (token : String) → IsSound s → IsSound (authenticate p env s token).0
  unfolding authenticate
  authenticate-IsSound s token h = opened (require_open s)
    where
      admitted :
          (t : Store) (key : String) (r : SessionRecord) (g : Answer Grant)
          → IsSound t
          → Rests t.state.grants (key, r)
          → IsSound (admit p env t key r g).0
      admitted t key r (err e) h k = (All-delete (Rests t.state.grants) r.id t.sessions h.0, h.1)
      admitted t key r (ok g) h (x, a, b, c, d, e, f, i, j) = (
        All-insert (Rests t.state.grants) key (touched p env r) t.sessions
            (x, a, b, c, d, e, f, min_time-le (env.now + r.idle_ttl) r.absolute_expires_at, j) h.0,
        h.1,
      )

      found :
          (t : Store) (o : Option (String × SessionRecord))
          → IsSound t
          → ((e : String × SessionRecord) → o ≡ some e → Rests t.state.grants e)
          → IsSound (admit_matched p env t o).0
      found t none h k = h
      found t (some (key, r)) h k =
          admitted t key r (find_active t.state.grants r.device_id) h (k (key, r) refl)

      opened : (r : Answer Unit) → IsSound (authenticate_open p env s token r).0
      opened (err e) = h
      opened (ok u) =
          let t = prune_ephemeral env.now s in
          let sound = prune_ephemeral-IsSound env.now s h in
          found t (matched p env (p.sha256 (utf8 token)) t.sessions) sound (λ e q.
            matched-All (Rests t.state.grants) (p.sha256 (utf8 token)) t.sessions e q sound.0)

  pub verify_csrf-IsSound :
      (s : Store) (id token : String) → IsSound s → IsSound (verify_csrf p env s id token).0
  unfolding verify_csrf
  verify_csrf-IsSound s id token h = prune_ephemeral-IsSound env.now s h
