-- ===== src/Remote/Device/Changes/Keys.antt =====
-- internal/remote/device/store.go: one active grant for a key.
use mohuddle.Base.{
  ℕ, ◌≡◌, refl, sym, ap, ◌∙◌, inl, inr, Bool, true, false, ◌&&◌, ◌||◌, String, List, [], ◌∷◌, ◌++◌,
  arith, Bool-cases, str_eq, ◌==◌,
}
use mohuddle.Remote.Device.{Bytes, bytes_eq, Packages, Grant, Store, active}
use mohuddle.Remote.Device.Grants.{Env, is_paired, update_grant, revoked, with_scopes}
use mohuddle.Remote.Device.History.{Operation, run}
use mohuddle.Remote.Device.Changes.{
  GrantChange, unchanged, adds, revokes_one, rescopes_one, run-keeps,
}

==_comm : (a b : ℕ) → (a == b) ≡ (b == a)
==_comm a b = ground arith

bytes_eq_comm : (xs ys : Bytes) → bytes_eq xs ys ≡ bytes_eq ys xs
bytes_eq_comm [] [] = refl
bytes_eq_comm [] (y ∷ ys) = refl
bytes_eq_comm (x ∷ xs) [] = refl
bytes_eq_comm (x ∷ xs) (y ∷ ys) = rw (==_comm x y, bytes_eq_comm xs ys) refl

or_false : (a b : Bool) → (a || b) ≡ false → (a ≡ false) × (b ≡ false)
or_false false b h = (refl, h)
or_false true b h = cc

-- A change of a grant that keeps its key and does not bring it back.
abbrev IsKeeping : (Grant → Grant) → Type 0
IsKeeping f =
    (g : Grant) → ((f g).public_key ≡ g.public_key) × (active (f g) ≡ true → active g ≡ true)

module _ (p : Packages) where
  -- No active grant has the key of a later active one.
  abbrev pub IsUnshared : List Grant → Type 0
  IsUnshared [] = Unit
  IsUnshared (g ∷ gs) = (active g ≡ true → is_paired p g.public_key gs ≡ false) × IsUnshared gs

  abbrev matches : Bytes → Grant → Bool
  matches key g = active g && bytes_eq (p.sha256 g.public_key) (p.sha256 key)

  is_paired-append :
      (key : Bytes) (gs : List Grant) (x : Grant)
      → is_paired p key gs ≡ false
      → matches key x ≡ false
      → is_paired p key (gs ++ x ∷ []) ≡ false
  unfolding is_paired
  is_paired-append key [] x h k = rw k refl
  is_paired-append key (g ∷ gs) x h k = ground (arith, is_paired-append key gs x)

  matches_comm :
      (g x : Grant)
      → active g ≡ true
      → active x ≡ true
      → matches x.public_key g ≡ matches g.public_key x
  matches_comm g x h k = rw (h, k) (bytes_eq_comm (p.sha256 g.public_key) (p.sha256 x.public_key))

  adds-IsUnshared :
      (gs : List Grant) (x : Grant)
      → active x ≡ true
      → is_paired p x.public_key gs ≡ false
      → IsUnshared gs
      → IsUnshared (gs ++ x ∷ [])
  unfolding is_paired
  adds-IsUnshared [] x live free h = (λ _. refl, tt)
  adds-IsUnshared (g ∷ gs) x live free (first, rest) = (
    λ on. is_paired-append g.public_key gs x (first on) (
        sym (matches_comm g x on live)
        ∙ (or_false (matches x.public_key g) (is_paired p x.public_key gs) free).0),
    adds-IsUnshared gs x live
        ((or_false (matches x.public_key g) (is_paired p x.public_key gs) free).1) rest,
  )

  matches-kept :
      (f : Grant → Grant) (key : Bytes) (g : Grant)
      → IsKeeping f
      → matches key g ≡ false
      → matches key (f g) ≡ false
  matches-kept f key g keep h = elim (Bool-cases (active (f g))) [
    | inr off ↦ rw off refl
    | inl on ↦
        let here : bytes_eq (p.sha256 g.public_key) (p.sha256 key) ≡ false =
          rw ((keep g).1 on) at h in
        rw (on, (keep g).0) here
  ]

  update-is_paired :
      (f : Grant → Grant) (key : Bytes) (gs : List Grant) (d : String)
      → IsKeeping f
      → is_paired p key gs ≡ false
      → is_paired p key (update_grant f gs d) ≡ false
  unfolding is_paired update_grant
  update-is_paired f key [] d keep h = h
  update-is_paired f key (g ∷ gs) d keep h =
      let (here, there) = or_false (matches key g) (is_paired p key gs) h in
      elim (Bool-cases (str_eq g.id d)) [
        | inl e ↦ rw (e, matches-kept f key g keep here) there
        | inr e ↦ rw (e, here) (update-is_paired f key gs d keep there)
      ]

  update-IsUnshared :
      (f : Grant → Grant) (gs : List Grant) (d : String)
      → IsKeeping f
      → IsUnshared gs
      → IsUnshared (update_grant f gs d)
  unfolding update_grant
  update-IsUnshared f [] d keep h = h
  update-IsUnshared f (g ∷ gs) d keep (first, rest) = elim (Bool-cases (str_eq g.id d)) [
    | inl h ↦ rw h (λ on. ap (λ k. is_paired p k gs) (keep g).0 ∙ first ((keep g).1 on), rest)
    | inr h ↦ rw h (
      λ on. update-is_paired f g.public_key gs d keep (first on),
      update-IsUnshared f gs d keep rest,
    )
  ]

  change-IsUnshared : (gs hs : List Grant) → GrantChange p gs hs → IsUnshared gs → IsUnshared hs
  change-IsUnshared gs hs unchanged h = h
  change-IsUnshared gs hs (adds x live free) h = adds-IsUnshared gs x live free h
  change-IsUnshared gs hs (revokes_one env d) h =
      update-IsUnshared (revoked p env) gs d (λ g. (refl, λ on. cc)) h
  change-IsUnshared gs hs (rescopes_one env d scopes) h =
      update-IsUnshared (with_scopes p env scopes) gs d (λ g. (refl, λ on. on)) h

  -- Where no two active grants of a store have keys with one fingerprint, that stays so under any
  -- operations.
  pub run-IsUnshared :
      (s : Store) (ops : List (Env × Operation))
      → IsUnshared s.state.grants
      → IsUnshared (run p s ops).state.grants
  run-IsUnshared s ops h = run-keeps p IsUnshared change-IsUnshared s ops h
