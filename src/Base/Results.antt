-- ===== src/Base/Results.antt =====
-- Go's pair of a value and an error, of which exactly one is set.
use mathlib.Core.Path.{◌≡◌, refl}
use mathlib.Core.Option.{Option, none, some}

pub data Result {ℓ κ} (X : Type κ) (A : Type ℓ) : Type (ℓ ⊔ κ) where
  ok : A → Result X A
  err : X → Result X A

infixl 5 ◌>>=◌
abbrev pub ◌>>=◌ {ℓ κ ι} :
    {X : Type ι} {A : Type ℓ} {B : Type κ} → Result X A → (A → Result X B) → Result X B
ok a >>= f = f a
err x >>= f = err x

infixl 5 ◌>>◌
abbrev pub ◌>>◌ {ℓ κ ι} :
    {X : Type ι} {A : Type ℓ} {B : Type κ} → Result X A → Result X B → Result X B
ok a >> r = r
err x >> r = err x

abbrev pub or_fail {ℓ κ} : {X : Type κ} {A : Type ℓ} → Option A → X → Result X A
or_fail none x = err x
or_fail (some a) x = ok a

-- A chain of fallible steps that succeeds has a first step that succeeds.
pub first_step {ℓ κ ι} :
    {X : Type ι} {A : Type ℓ} {B : Type κ} (r : Result X A) (next : A → Result X B) {y : B}
    → (r >>= next) ≡ ok y
    → (x : A) × (next x ≡ ok y) × (r ≡ ok x)
first_step (ok x) next q = (x, q, refl)
first_step (err x) next q = cc

pub or_fail-eq-ok {ℓ κ} :
    {X : Type κ} {A : Type ℓ} (o : Option A) (x : X) {a : A} → or_fail o x ≡ ok a → o ≡ some a
or_fail-eq-ok none x q = cc
or_fail-eq-ok (some b) x q = cc

pub ok_inj {ℓ κ} : {X : Type κ} {A : Type ℓ} {a b : A} → Path (Result X A) (ok a) (ok b) → a ≡ b
ok_inj e = cc

pub last_step {ℓ κ ι} :
    {X : Type ι} {A : Type ℓ} {B : Type κ} (r : Result X A) (s : Result X B) {y : B}
    → (r >> s) ≡ ok y
    → s ≡ ok y
last_step (ok x) s q = q
last_step (err x) s q = cc

pub head_step {ℓ κ ι} :
    {X : Type ι} {A : Type ℓ} {B : Type κ} (r : Result X A) (s : Result X B) {y : B}
    → (r >> s) ≡ ok y
    → (x : A) × (r ≡ ok x)
head_step (ok x) s q = (x, refl)
head_step (err x) s q = cc
