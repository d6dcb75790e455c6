-- ===== src/Remote/Device/Sound.antt =====
-- internal/remote/device/store.go: what the sessions and challenges of a store rest on.
pub mod Commits
pub mod Sessions
pub mod Authority
use mathlib.Core.Option.{some_inj}
use mohuddle.Base.{
  ℕ, ◌+◌, ◌*◌, ◌≤◌, ◌≡◌, refl, sym, ap, ◌∙◌, subst, inl, inr, Bool, true, false, not, ◌||◌, ◌&&◌,
  String, List, [], ◌∷◌, ◌++◌, Option, none, some, ok, err, Result, All, All-impl, arith,
  Bool-cases, Option-cases, str_eq, eq_iff, if◌then◌else◌,
}
use mohuddle.Remote.Device.{
  Grant, PermissionCeiling, read_only, PersistentState, Challenge, SessionRecord, Store, Scope,
  hour,
}
use mohuddle.Remote.Device.Ephemeral.{
  drop_where, prune_ephemeral, invalidate_device, close, session_of, challenge_for, session_over,
  challenge_over,
}
use mohuddle.Remote.Device.Grants.{grant_index, update_grant}

-- A session has the room and the scopes of the grant of its device, which is not revoked, and no more
-- than reading; it ends within a day, and its idle end is not behind that.
abbrev pub Rests : List Grant → String × SessionRecord → Type 0
Rests gs (k, r) =
    (g : Grant) × (grant_index gs r.device_id ≡ some g)
    × (g.revoked_at ≡ none)
    × (r.room_id ≡ g.room_id)
    × (r.scopes ≡ g.scopes)
    × (r.ceiling ≡ read_only)
    × (k ≡ r.id)
    × r.idle_expires_at ≤ r.absolute_expires_at
    × r.absolute_expires_at ≤ r.created_at + 24 * hour

-- A challenge is for the room of the grant of its device, which is not revoked.
abbrev pub Stands : List Grant → String × Challenge → Type 0
Stands gs (k, c) =
    (g : Grant) × (grant_index gs c.device_id ≡ some g)
    × (g.revoked_at ≡ none)
    × (c.room_id ≡ g.room_id)
    × (k ≡ c.id)

abbrev pub IsSound : Store → Type 0
IsSound s = All (Rests s.state.grants) s.sessions × All (Stands s.state.grants) s.challenges

-- What a sweep leaves has what was there, and none of it is named.
pub All-drop_where {ℓ κ} :
    {V : Type ℓ} (P : String × V → Type κ) (gone : V → Bool) (m : List (String × V))
    → All P m
    → All (λ e. P e × (gone e.1 ≡ false)) (drop_where gone m)
All-drop_where P gone [] h = tt
All-drop_where P gone ((k, v) ∷ m) h = elim (Bool-cases (gone v)) [
  | inl e ↦ rw e (All-drop_where P gone m h.1)
  | inr e ↦ rw e ((h.0, e), All-drop_where P gone m h.1)
]

pub All-left {ℓ κ ι} :
    {A : Type ℓ} (P : A → Type κ) (Q : A → Type ι) (xs : List A)
    → All (λ a. P a × Q a) xs
    → All P xs
All-left P Q [] h = tt
All-left P Q (x ∷ xs) h = (h.0.0, All-left P Q xs h.1)

pub grant_index-append :
    (gs more : List Grant) (id : String) (g : Grant)
    → grant_index gs id ≡ some g
    → grant_index (gs ++ more) id ≡ some g
unfolding grant_index
grant_index-append [] more id g e = cc
grant_index-append (x ∷ gs) more id g e = elim (Bool-cases (str_eq x.id id)) [
  | inl h ↦ rw h (rw h at e)
  | inr h ↦ rw h (grant_index-append gs more id g (rw h at e))
]

pub str_eq-other : (x y z : String) → str_eq x y ≡ true → str_eq z y ≡ false → str_eq x z ≡ false
str_eq-other x y z h k = elim (Bool-cases (str_eq x z)) [
  | inr q ↦ q
  | inl q ↦ cc (k, (eq_iff z y).1 (sym ((eq_iff x z).0 q) ∙ (eq_iff x y).0 h))
]

-- A change of one grant that keeps its name leaves the others.
pub grant_index-update_grant :
    (f : Grant → Grant) (gs : List Grant) (changed id : String)
    → ((g : Grant) → (f g).id ≡ g.id)
    → str_eq id changed ≡ false
    → grant_index (update_grant f gs changed) id ≡ grant_index gs id
unfolding grant_index update_grant
grant_index-update_grant f [] changed id same other = refl
grant_index-update_grant f (x ∷ gs) changed id same other =
    elim (Bool-cases (str_eq x.id changed)) [
      | inl h ↦ let miss = str_eq-other x.id changed id h other in rw (h, miss, same x, miss) refl
      | inr h ↦ rw h (
          ap (λ o. if str_eq x.id id then some x else o)
            (grant_index-update_grant f gs changed id same other))
    ]

-- The grant of a device after its change.
pub grant_index-updated :
    (f : Grant → Grant) (gs : List Grant) (id : String) (g : Grant)
    → ((g : Grant) → (f g).id ≡ g.id)
    → grant_index gs id ≡ some g
    → grant_index (update_grant f gs id) id ≡ some (f g)
unfolding grant_index update_grant
grant_index-updated f [] id g same e = cc
grant_index-updated f (x ∷ gs) id g same e = elim (Bool-cases (str_eq x.id id)) [
  | inl h ↦
      let hit : str_eq (f x).id id ≡ true = ap (λ i. str_eq i id) (same x) ∙ h in
      rw (h, hit) (ap (λ g. some (f g)) (some_inj.0 (rw h at e)))
  | inr h ↦ rw (h, h) (grant_index-updated f gs id g same (rw h at e))
]

pub prune_ephemeral-IsSound : (now : ℕ) (s : Store) → IsSound s → IsSound (prune_ephemeral now s)
unfolding prune_ephemeral
prune_ephemeral-IsSound now s (h, k) = (
  All-left _ _ _ (All-drop_where _ (session_over now) s.sessions h),
  All-left _ _ _ (All-drop_where _ (challenge_over now) s.challenges k),
)

pub close-IsSound : (s : Store) → IsSound s → IsSound (close s)
unfolding close
close-IsSound s h = elim (Bool-cases s.closed) [ inl e ↦ simp e h | inr e ↦ simp e (tt, tt) ]

pub invalidate_alone-IsSound :
    (device_id : String) (s : Store) → IsSound s → IsSound (invalidate_device device_id s)
unfolding invalidate_device
invalidate_alone-IsSound device_id s (h, k) = (
  All-left _ _ _ (All-drop_where _ (session_of device_id) s.sessions h),
  All-left _ _ _ (All-drop_where _ (challenge_for device_id) s.challenges k),
)

-- A grant that is added changes nothing of what is there.
pub append-IsSound :
    (s : Store) (more : List Grant)
    → IsSound s
    → IsSound (record s { state = record s.state { grants = s.state.grants ++ more } })
append-IsSound s more (h, k) = (All-impl session s.sessions h, All-impl challenge s.challenges k)
  where
    session :
        (e : String × SessionRecord) → Rests s.state.grants e → Rests (s.state.grants ++ more) e
    session (i, r) (g, found, live, a, b, c, d, e, f) =
        (g, grant_index-append s.state.grants more r.device_id g found, live, a, b, c, d, e, f)

    challenge :
        (e : String × Challenge) → Stands s.state.grants e → Stands (s.state.grants ++ more) e
    challenge (i, c) (g, found, live, a, b) =
        (g, grant_index-append s.state.grants more c.device_id g found, live, a, b)

-- Once the grant of a device is changed and what it had is removed, the rest stands.
pub invalidate_device-IsSound :
    (s : Store) (f : Grant → Grant) (device_id : String)
    → ((g : Grant) → (f g).id ≡ g.id)
    → IsSound s
    → IsSound (
        invalidate_device device_id (record s {
          state = record s.state { grants = update_grant f s.state.grants device_id };
        }))
unfolding invalidate_device
invalidate_device-IsSound s f device_id same (h, k) = (
  All-impl session _ (All-drop_where _ (session_of device_id) s.sessions h),
  All-impl challenge _ (All-drop_where _ (challenge_for device_id) s.challenges k),
)
  where
    gs : List Grant
    gs = update_grant f s.state.grants device_id

    session :
        (e : String × SessionRecord)
        → Rests s.state.grants e × (session_of device_id e.1 ≡ false)
        → Rests gs e
    session (i, r) ((g, found, live, a, b, c, d, e, f'), other) = (
      g,
      grant_index-update_grant f s.state.grants device_id r.device_id same other ∙ found,
      live,
      a,
      b,
      c,
      d,
      e,
      f',
    )

    challenge :
        (e : String × Challenge)
        → Stands s.state.grants e × (challenge_for device_id e.1 ≡ false)
        → Stands gs e
    challenge (i, c) ((g, found, live, a, b), other) = (
      g,
      grant_index-update_grant f s.state.grants device_id c.device_id same other ∙ found,
      live,
      a,
      b,
    )
