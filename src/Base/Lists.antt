-- ===== src/Base/Lists.antt =====
-- Lists measured by native numbers, and a predicate on every element.
use Prim.Native.Nat.{ℕ, zero, suc, ◌+◌, ◌-◌, ◌≤◌, ◌<◌}
use mathlib.Core.Path.{◌≡◌, refl, ap}
use mathlib.Core.Option.{Option, none, some}
use mathlib.Core.List.{List, [], ◌∷◌, ◌++◌, map}
use native.Mathlib.Omega.{arith}

module _ {ℓ} {A : Type ℓ} where
  abbrev pub length : List A → ℕ
  length [] = 0
  length (x ∷ xs) = suc (length xs)

  abbrev pub drop : ℕ → List A → List A
  drop zero xs = xs
  drop (suc n) [] = []
  drop (suc n) (x ∷ xs) = drop n xs

  abbrev pub take : ℕ → List A → List A
  take zero xs = []
  take (suc n) [] = []
  take (suc n) (x ∷ xs) = x ∷ take n xs

  pub take-append-drop : (n : ℕ) (xs : List A) → take n xs ++ drop n xs ≡ xs
  take-append-drop zero xs = refl
  take-append-drop (suc n) [] = refl
  take-append-drop (suc n) (x ∷ xs) = ap (λ l. x ∷ l) (take-append-drop n xs)

  pub length-append : (xs ys : List A) → length (xs ++ ys) ≡ length xs + length ys
  length-append [] ys = omega arith
  length-append (x ∷ xs) ys = omega (arith, length-append xs ys)

  pub length-drop : (n : ℕ) (xs : List A) → length (drop n xs) ≡ length xs - n
  length-drop zero xs = omega arith
  length-drop (suc n) [] = omega arith
  length-drop (suc n) (x ∷ xs) = omega (arith, length-drop n xs)

  -- The sum of a measure over a list.
  abbrev pub total : (A → ℕ) → List A → ℕ
  total f [] = 0
  total f (x ∷ xs) = f x + total f xs

  pub total-append : (f : A → ℕ) (xs ys : List A) → total f (xs ++ ys) ≡ total f xs + total f ys
  total-append f [] ys = omega arith
  total-append f (x ∷ xs) ys = omega (arith, total-append f xs ys)

module _ {ℓ κ} {A : Type ℓ} (P : A → Type κ) where
  abbrev pub All : List A → Type κ
  All [] = Unit
  All (x ∷ xs) = P x × All xs

  pub All-append : (xs ys : List A) → All xs → All ys → All (xs ++ ys)
  All-append [] ys hx hy = hy
  All-append (x ∷ xs) ys hx hy = (hx.0, All-append xs ys hx.1 hy)

module _ {ℓ κ ι} {A : Type ℓ} {B : Type κ} (P : B → Type ι) where
  pub All-map : (f : A → B) (xs : List A) → All (λ a. P (f a)) xs → All P (map f xs)
  All-map f [] h = h
  All-map f (x ∷ xs) h = (h.0, All-map f xs h.1)

module _ {ℓ κ ι} {A : Type ℓ} {P : A → Type κ} {Q : A → Type ι} where
  pub All-impl : ((a : A) → P a → Q a) → (xs : List A) → All P xs → All Q xs
  All-impl f [] h = tt
  All-impl f (x ∷ xs) h = (f x h.0, All-impl f xs h.1)

module _ {ℓ} {A : Type ℓ} where
  abbrev pub get_elem? : List A → ℕ → Option A
  get_elem? [] i = none
  get_elem? (x ∷ xs) zero = some x
  get_elem? (x ∷ xs) (suc i) = get_elem? xs i

  abbrev pub set : List A → ℕ → A → List A
  set [] i v = []
  set (x ∷ xs) zero v = v ∷ xs
  set (x ∷ xs) (suc i) v = x ∷ set xs i v

  abbrev pub get_last? : List A → Option A
  get_last? [] = none
  get_last? (x ∷ []) = some x
  get_last? (x ∷ y ∷ xs) = get_last? (y ∷ xs)

  -- Write the last element.
  abbrev pub set_last : List A → A → List A
  set_last [] v = []
  set_last (x ∷ []) v = v ∷ []
  set_last (x ∷ y ∷ xs) v = x ∷ set_last (y ∷ xs) v

  pub drop-get_elem? :
      (i : ℕ) (xs : List A) (x : A) → get_elem? xs i ≡ some x → drop i xs ≡ x ∷ drop (suc i) xs
  drop-get_elem? i [] x e = cc
  drop-get_elem? zero (y ∷ xs) x e = ground arith
  drop-get_elem? (suc i) (y ∷ xs) x e = drop-get_elem? i xs x e

  pub lt_of_get_elem? : (i : ℕ) (xs : List A) (x : A) → get_elem? xs i ≡ some x → i < length xs
  lt_of_get_elem? i [] x e = cc
  lt_of_get_elem? zero (y ∷ xs) x e = omega arith
  lt_of_get_elem? (suc i) (y ∷ xs) x e = omega (arith, lt_of_get_elem? i xs x e)

  pub le_of_get_elem? : (i : ℕ) (xs : List A) → get_elem? xs i ≡ none → length xs ≤ i
  le_of_get_elem? i [] e = omega arith
  le_of_get_elem? zero (y ∷ xs) e = cc
  le_of_get_elem? (suc i) (y ∷ xs) e = omega (arith, le_of_get_elem? i xs e)

  pub drop-set : (i : ℕ) (xs : List A) (v : A) → drop (suc i) (set xs i v) ≡ drop (suc i) xs
  drop-set i [] v = refl
  drop-set zero (x ∷ xs) v = refl
  drop-set (suc i) (x ∷ xs) v = drop-set i xs v

  pub length-set : (i : ℕ) (xs : List A) (v : A) → length (set xs i v) ≡ length xs
  length-set i [] v = refl
  length-set zero (x ∷ xs) v = refl
  length-set (suc i) (x ∷ xs) v = ap suc (length-set i xs v)

  pub drop-append : (i : ℕ) (xs ys : List A) → i ≤ length xs → drop i (xs ++ ys) ≡ drop i xs ++ ys
  drop-append zero xs ys h = refl
  drop-append (suc i) [] ys h = absurd (omega arith)
  drop-append (suc i) (x ∷ xs) ys h = drop-append i xs ys (omega arith)

  pub drop-length : (i : ℕ) (xs : List A) → length xs ≤ i → drop i xs ≡ []
  drop-length zero [] h = refl
  drop-length zero (x ∷ xs) h = absurd (omega arith)
  drop-length (suc i) [] h = refl
  drop-length (suc i) (x ∷ xs) h = drop-length i xs (omega arith)

  pub length-set_last : (xs : List A) (v : A) → length (set_last xs v) ≡ length xs
  length-set_last [] v = refl
  length-set_last (x ∷ []) v = refl
  length-set_last (x ∷ y ∷ xs) v = ap suc (length-set_last (y ∷ xs) v)

  -- Behind a prefix that does not reach the end, the last element is the list's.
  pub drop_last :
      (i : ℕ) (xs : List A)
      → i < length xs
      → (get_last? (drop i xs) ≡ get_last? xs)
        × ((v : A) → drop i (set_last xs v) ≡ set_last (drop i xs) v)
  drop_last zero xs h = (refl, λ v. refl)
  drop_last (suc i) [] h = absurd (omega arith)
  drop_last (suc i) (x ∷ []) h = absurd (omega arith)
  drop_last (suc i) (x ∷ y ∷ xs) h = drop_last i (y ∷ xs) (omega arith)

  -- A list with a last element is what stands before it, then it.
  pub split_last :
      (xs : List A) (x : A)
      → get_last? xs ≡ some x
      → (ys : List A) × (xs ≡ ys ++ x ∷ []) × ((v : A) → set_last xs v ≡ ys ++ v ∷ [])
  split_last [] x e = cc
  split_last (y ∷ []) x e = ([], ground arith, λ v. refl)
  split_last (y ∷ z ∷ xs) x e =
      let (ys, same, written) = split_last (z ∷ xs) x e in
      (y ∷ ys, ap (λ l. y ∷ l) same, λ v. ap (λ l. y ∷ l) (written v))
