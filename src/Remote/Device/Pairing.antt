-- ===== src/Remote/Device/Pairing.antt =====
-- internal/remote/device/store.go: a code and the devices that it pairs.
use mohuddle.Base.{
  ℕ, suc, total, ◌∙◌, ◌+◌, ◌≤◌, ◌≡◌, refl, ap, subst, inl, inr, Bool, true, false, not, ◌&&◌,
  String, List, [], ◌∷◌, Option, some, ok, err, or_fail, or_fail-eq-ok, first_step, last_step,
  ok_inj, Bool-cases, Option-cases, arith, ltb, if◌then◌else◌,
}
use mathlib.Core.Option.{some_inj}
use mohuddle.Remote.Device.{
  Bytes, Packages, Grant, InvitationRecord, Store, Answer, require_passed, invalid_code,
  already_paired,
}
use mohuddle.Remote.Device.Codes.{hash_code, constant_hex_equal, random_identifier}
use mohuddle.Remote.Device.Durable.{save_state, canonical_key}
use mohuddle.Remote.Device.Ephemeral.{require_open}
use mohuddle.Remote.Device.Grants.{
  Env, commit, settle, pair, paired, pairable, is_paired, opens, take_invitation, prune_invitations,
}

and_second : (a b : Bool) → (a && b) ≡ true → b ≡ true
and_second true b h = h
and_second false b h = cc

abbrev pub succeeded : Answer Grant → ℕ
succeeded (ok g) = 1
succeeded (err e) = 0

module _ (p : Packages) where
  -- How many invitations have the hash of a code.
  abbrev pub has_hash : String → InvitationRecord → ℕ
  has_hash wanted i = if constant_hex_equal p i.code_hash wanted then 1 else 0

  abbrev pub invitations_of : String → List InvitationRecord → ℕ
  invitations_of wanted is = total (has_hash wanted) is

  prune_invitations-le :
      (wanted : String) (now : ℕ) (is : List InvitationRecord)
      → invitations_of wanted (prune_invitations is now) ≤ invitations_of wanted is
  unfolding prune_invitations
  prune_invitations-le wanted now [] = omega arith
  prune_invitations-le wanted now (i ∷ is) = elim (Bool-cases (ltb now i.expires_at)) [
    | inl h ↦ rw h (omega (arith, prune_invitations-le wanted now is))
    | inr h ↦ rw h (omega (arith, prune_invitations-le wanted now is))
  ]

  -- Taking an invitation leaves one less.
  take_invitation-less :
      (env : Env) (wanted : String) (is : List InvitationRecord) (i : InvitationRecord)
      (others : List InvitationRecord)
      → take_invitation p env wanted is ≡ some (i, others)
      → suc (invitations_of wanted others) ≤ invitations_of wanted is
  unfolding take_invitation
  take_invitation-less env wanted [] i others e = cc
  take_invitation-less env wanted (x ∷ is) i others e =
      elim (Option-cases (take_invitation p env wanted is)) [
        | inr ((j, rest), later) ↦
            let same = some_inj.0 (rw later at e) in
            subst (λ o. suc (invitations_of wanted o) ≤ invitations_of wanted (x ∷ is))
              (ap (λ t. t.1) same) (omega (arith, take_invitation-less env wanted is j rest later))
        | inl later ↦ elim (Bool-cases (opens p env wanted x)) [
          | inl hit ↦
              let same = some_inj.0 (rw (later, hit) at e) in
              let found : has_hash wanted x ≡ 1 =
                rw (and_second (ltb env.now x.expires_at) _ hit) refl in
              subst (λ o. suc (invitations_of wanted o) ≤ invitations_of wanted (x ∷ is))
                (ap (λ t. t.1) same) (omega (arith, found))
          | inr miss ↦ cc (rw (later, miss) at e)
        ]
      ]

  pairable-taken :
      (env : Env) (s : Store) (entered : String) (key : Bytes)
      (b : String × (InvitationRecord × List InvitationRecord) × Bytes)
      → pairable p env s entered key ≡ ok b
      → take_invitation p env (hash_code p entered) s.state.invitations ≡ some b.1
  pairable-taken env s entered key b e =
      let invitations = s.state.invitations in
      let (canonical, e₁, _) = first_step (canonical_key p key) _ e in
      let (taken, e₂, found) =
        first_step (or_fail (take_invitation p env (hash_code p entered) invitations) invalid_code)
          _ (last_step (require_open s) _ e₁) in
      let (_, e₃) =
        require_passed (not (is_paired p canonical.0 s.state.grants)) already_paired _ e₂ in
      let (id, e₄, _) = first_step (random_identifier p env.first_read) _ e₃ in
      or_fail-eq-ok (take_invitation p env (hash_code p entered) invitations) invalid_code found
      ∙ ap (λ b. some b.1) (ok_inj e₄)

  abbrev Uses : String → ℕ → Store × Answer Grant → Type 0
  Uses wanted before (t, answer) =
      succeeded answer + invitations_of wanted t.state.invitations ≤ before

  -- An attempt to pair that succeeds uses up an invitation, and one that fails adds none.
  pair-less :
      (env : Env) (s : Store) (entered : String) (key : Bytes)
      → Uses
          (hash_code p entered)
          (invitations_of (hash_code p entered) s.state.invitations)
          (pair p env s entered key)
  unfolding pair
  pair-less env s entered key = checked (pairable p env s entered key) refl
    where
      wanted : String
      wanted = hash_code p entered

      before : ℕ
      before = invitations_of wanted s.state.invitations

      settled :
          (id : String) (i : InvitationRecord) (others : List InvitationRecord) (canonical : Bytes)
          (r : Option String × Answer Unit)
          → take_invitation p env wanted s.state.invitations ≡ some (i, others)
          → Uses wanted before (
              settle p env s
                (paired p env s (id, (i, others), canonical)).0
                (paired p env s (id, (i, others), canonical)).1
                r)
      settled id i others canonical (file, ok u) q = omega (
        arith,
        prune_invitations-le wanted env.now others,
        take_invitation-less env wanted s.state.invitations i others q,
      )
      settled id i others canonical (file, err e) q = omega arith

      checked :
          (r : Answer (String × (InvitationRecord × List InvitationRecord) × Bytes))
          → pairable p env s entered key ≡ r
          → Uses wanted before (commit p env s (paired p env s) r)
      checked (err e) q = omega arith
      checked (ok (id, (i, others), canonical)) q =
          settled id i others canonical
            (save_state p env.files (paired p env s (id, (i, others), canonical)).0 s.file)
            (pairable-taken env s entered key (id, (i, others), canonical) q)

  -- How many of some attempts to pair with a code succeed, each with its own key and surroundings.
  abbrev pub pairings : Store → String → List (Env × Bytes) → ℕ
  pairings s entered [] = 0
  pairings s entered ((env, key) ∷ attempts) =
      let (t, answer) = pair p env s entered key in succeeded answer + pairings t entered attempts

  -- A code pairs no more devices than there are invitations with its hash: each attempt that succeeds
  -- uses one up, at whatever time and with whatever key, and one that fails, at any check or in the
  -- save, brings none back.
  pub pairings-le :
      (s : Store) (entered : String) (attempts : List (Env × Bytes))
      → pairings s entered attempts ≤ invitations_of (hash_code p entered) s.state.invitations
  pairings-le s entered [] = omega arith
  pairings-le s entered ((env, key) ∷ attempts) = omega (
    arith,
    pair-less env s entered key,
    pairings-le (pair p env s entered key).0 entered attempts,
  )
