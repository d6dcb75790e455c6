-- ===== src/Base/Maps.antt =====
-- A Go map as an association list over a Boolean test of keys: a write replaces the entry in place
-- or adds one at the end.
use mathlib.Core.Path.{◌≡◌, refl, subst}
use mathlib.Core.Logic.{◌↔◌, inl, inr}
use mathlib.Core.Bool.{Bool, true, false}
use mathlib.Core.Option.{Option, none, some, some_inj}
use mathlib.Core.List.{List, [], ◌∷◌}
use native.Mathlib.Omega.{arith}
use text.Mathlib.TextEquality.{eq_iff}
use Prim.Native.Nat.{ℕ}
use Prim.Native.String.{String}
use mohuddle.Base.Tests.{if◌then◌else◌, ◌==◌, str_eq, ==_iff, Bool-cases}
use mohuddle.Base.Lists.{All}

-- Equality of keys.
pub record Eq {ℓ} (K : Type ℓ) : Type ℓ where
  pub beq : K → K → Bool
  pub beq_iff : (a b : K) → (beq a b ≡ true) ↔ (a ≡ b)

instance abbrev pub nat_eq : Eq ℕ
nat_eq = record { beq = ◌==◌; beq_iff = ==_iff }

instance abbrev pub string_eq : Eq String
string_eq = record { beq = str_eq; beq_iff = eq_iff }

module _ {ℓ κ} {K : Type ℓ} {V : Type κ} ⦃e : Eq K⦄ where
  unfoldable pub lookup : K → List (K × V) → Option V
  lookup k [] = none
  lookup k ((j, v) ∷ m) = if e.beq j k then some v else lookup k m

  unfoldable pub insert : K → V → List (K × V) → List (K × V)
  insert k v [] = (k, v) ∷ []
  insert k v ((j, w) ∷ m) = if e.beq j k then (k, v) ∷ m else (j, w) ∷ insert k v m

  unfoldable pub delete : K → List (K × V) → List (K × V)
  delete k [] = []
  delete k ((j, w) ∷ m) = let rest = delete k m in if e.beq j k then rest else (j, w) ∷ rest

module _ {ℓ κ} {K : Type ℓ} {V : Type κ} where
  -- What `for _, v := range m` does where the rounds do not meet: each value by itself.
  unfoldable pub map_values : (V → V) → List (K × V) → List (K × V)
  map_values f [] = []
  map_values f ((k, v) ∷ m) = (k, f v) ∷ map_values f m

  -- A predicate on every value of a map.
  abbrev pub AllValues {ι} : (V → Type ι) → List (K × V) → Type ι
  AllValues P m = All (λ e. P e.1) m

  pub AllValues-map_values {ι υ} :
      (P : V → Type ι) (Q : V → Type υ) (f : V → V)
      → ((v : V) → P v → Q (f v))
      → (m : List (K × V)) → AllValues P m
      → AllValues Q (map_values f m)
  unfolding map_values
  AllValues-map_values P Q f keep [] h = tt
  AllValues-map_values P Q f keep ((k, v) ∷ m) h =
      (keep v h.0, AllValues-map_values P Q f keep m h.1)

module _ {ℓ κ ι} {K : Type ℓ} {V : Type κ} ⦃e : Eq K⦄ (P : V → Type ι) where
  pub AllValues-insert :
      (k : K) (v : V) (m : List (K × V)) → P v → AllValues P m → AllValues P (insert k v m)
  unfolding insert
  AllValues-insert k v [] p h = (p, tt)
  AllValues-insert k v ((j, w) ∷ m) p h = ground (arith, AllValues-insert k v m p h.1)

  pub AllValues-delete : (k : K) (m : List (K × V)) → AllValues P m → AllValues P (delete k m)
  unfolding delete
  AllValues-delete k [] h = tt
  AllValues-delete k ((j, w) ∷ m) h = ground (arith, AllValues-delete k m h.1)

  pub AllValues-lookup :
      (k : K) (m : List (K × V)) (v : V) → lookup k m ≡ some v → AllValues P m → P v
  unfolding lookup
  AllValues-lookup k [] v q h = cc
  AllValues-lookup k ((j, w) ∷ m) v q h = elim (Bool-cases (e.beq j k)) [
    | inl hit ↦ subst P (some_inj.0 (rw hit at q)) h.0
    | inr miss ↦ AllValues-lookup k m v (rw miss at q) h.1
  ]

-- A read after a write. Keys that a test tells apart are other keys.
module _ {ℓ κ} {K : Type ℓ} {V : Type κ} ⦃e : Eq K⦄ where
  pub lookup-insert : (k : K) (v : V) (m : List (K × V)) → lookup k (insert k v m) ≡ some v
  unfolding lookup insert
  lookup-insert k v [] = ground (arith, e.beq_iff k k)
  lookup-insert k v ((j, w) ∷ m) = ground (arith, e.beq_iff k k, lookup-insert k v m)

  pub lookup-insert_other :
      (i k : K) (v : V) (m : List (K × V))
      → e.beq k i ≡ false
      → lookup i (insert k v m) ≡ lookup i m
  unfolding lookup insert
  lookup-insert_other i k v [] h = rw h refl
  lookup-insert_other i k v ((j, w) ∷ m) h = elim (Bool-cases (e.beq j k)) [
    | inl same ↦ ground (arith, h, same, e.beq_iff j k)
    | inr differs ↦ ground (arith, h, differs, lookup-insert_other i k v m h)
  ]

  pub lookup-delete : (k : K) (m : List (K × V)) → lookup k (delete k m) ≡ none
  unfolding lookup delete
  lookup-delete k [] = refl
  lookup-delete k ((j, w) ∷ m) = elim (Bool-cases (e.beq j k)) [
    | inl same ↦ rw same (lookup-delete k m)
    | inr differs ↦ rw (differs, differs) (lookup-delete k m)
  ]

  pub lookup-delete_other :
      (i k : K) (m : List (K × V)) → e.beq k i ≡ false → lookup i (delete k m) ≡ lookup i m
  unfolding lookup delete
  lookup-delete_other i k [] h = refl
  lookup-delete_other i k ((j, w) ∷ m) h =
      ground (arith, h, e.beq_iff j k, lookup-delete_other i k m h)

-- A predicate on the entries of a map.
module _ {ℓ κ ι} {K : Type ℓ} {V : Type κ} ⦃e : Eq K⦄ (P : K × V → Type ι) where
  pub All-insert : (k : K) (v : V) (m : List (K × V)) → P (k, v) → All P m → All P (insert k v m)
  unfolding insert
  All-insert k v [] p h = (p, tt)
  All-insert k v ((j, w) ∷ m) p h = ground (arith, All-insert k v m p h.1)

  pub All-delete : (k : K) (m : List (K × V)) → All P m → All P (delete k m)
  unfolding delete
  All-delete k [] h = tt
  All-delete k ((j, w) ∷ m) h = ground (arith, All-delete k m h.1)

  pub All-lookup : (k : K) (m : List (K × V)) (v : V) → lookup k m ≡ some v → All P m → P (k, v)
  unfolding lookup
  All-lookup k [] v q h = cc
  All-lookup k ((j, w) ∷ m) v q h = elim (Bool-cases (e.beq j k)) [
    | inl hit ↦ ground (arith, e.beq_iff j k, h.0)
    | inr miss ↦ All-lookup k m v (rw miss at q) h.1
  ]
