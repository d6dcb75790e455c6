-- ===== src/Room/Conversations/Failover.antt =====
-- internal/room/conversations.go: one automatic attempt of another provider, and no more.
pub mod Withdrawal
pub mod Assigned
pub mod Finished
pub mod Bounded
use mohuddle.Base.{
  ℕ, zero, suc, ◌+◌, ◌-◌, ◌≤◌, ◌<◌, ◌≡◌, refl, sym, ap, subst, ◌∙◌, inl, inr, Bool, true, false,
  not, ◌&&◌, ◌||◌, String, List, [], ◌∷◌, ◌++◌, Option, none, some, All, ltb, leb, ◌==◌, str_eq,
  is_empty, Bool-cases, if◌then◌else◌, ok, err, arith, length, eq_iff, ==_iff,
}
use mohuddle.Chat.Participants.{provider}
use mohuddle.Room.Continuations.{ConversationState, terminal}
use mohuddle.Room.Conversations.{
  ConversationJob, ConversationAttempt, window_attempts, window_attempt_count,
}
use mohuddle.Room.Conversations.Attempts.{used_provider, without_last, is_open, attempt_of}
use mohuddle.Room.Conversations.Finish.{complete_at}

-- No provider has two attempts of one window.
abbrev pub IsDistinct : List ConversationAttempt → Type 0
IsDistinct [] = Unit
IsDistinct (a ∷ rest) = (used_provider a.provider a.window rest ≡ false) × IsDistinct rest

abbrev pub IsFresh : ℕ → List ConversationAttempt → Type 0
IsFresh window = All (λ a. a.window ≤ window)

-- In each window at most two attempts, of different providers.
abbrev pub IsFair : List ConversationAttempt → Type 0
IsFair attempts = ((w : ℕ) → window_attempts w attempts ≤ 2) × IsDistinct attempts

abbrev pub counted : Bool → ℕ
counted true = 1
counted false = 0

pub window_attempts-snoc :
    (w : ℕ) (a : ConversationAttempt) (xs : List ConversationAttempt)
    → window_attempts w (xs ++ a ∷ []) ≡ window_attempts w xs + counted (a.window == w)
window_attempts-snoc w a [] = of_test (a.window == w)
  where
    of_test : (b : Bool) → (if b then 1 else 0) ≡ 0 + counted b
    of_test true = refl
    of_test false = refl
window_attempts-snoc w a (b ∷ xs) =
    of_test (b.window == w) (window_attempts w (xs ++ a ∷ [])) (window_attempts w xs)
      (counted (a.window == w)) (window_attempts-snoc w a xs)
  where
    of_test :
        (t : Bool) (m n k : ℕ) → m ≡ n + k → (if t then suc m else m) ≡ (if t then suc n else n) + k
    of_test true m n k h = omega arith
    of_test false m n k h = h

pub window_attempts-fresh :
    (w window : ℕ) (xs : List ConversationAttempt)
    → IsFresh window xs
    → window < w
    → window_attempts w xs ≡ 0
window_attempts-fresh w window [] h lt = refl
window_attempts-fresh w window (a ∷ xs) (h, hs) lt =
    let other : (a.window == w) ≡ false = ground arith in
    rw other (window_attempts-fresh w window xs hs lt)

pub window_attempts-complete_at :
    (w k now : ℕ) (text : String) (xs : List ConversationAttempt)
    → window_attempts w (complete_at k now text xs) ≡ window_attempts w xs
window_attempts-complete_at w k now text [] = refl
window_attempts-complete_at w zero now text (a ∷ xs) = refl
window_attempts-complete_at w (suc k) now text (a ∷ xs) =
    rw (window_attempts-complete_at w k now text xs) refl

pub used_provider-complete_at :
    (p : String) (w k now : ℕ) (text : String) (xs : List ConversationAttempt)
    → used_provider p w (complete_at k now text xs) ≡ used_provider p w xs
used_provider-complete_at p w k now text [] = refl
used_provider-complete_at p w zero now text (a ∷ xs) = refl
used_provider-complete_at p w (suc k) now text (a ∷ xs) =
    rw (used_provider-complete_at p w k now text xs) refl

pub complete_at-IsDistinct :
    (k now : ℕ) (text : String) (xs : List ConversationAttempt)
    → IsDistinct xs
    → IsDistinct (complete_at k now text xs)
complete_at-IsDistinct k now text [] h = h
complete_at-IsDistinct zero now text (a ∷ xs) h = h
complete_at-IsDistinct (suc k) now text (a ∷ xs) (h, hs) = (
  used_provider-complete_at a.provider a.window k now text xs ∙ h,
  complete_at-IsDistinct k now text xs hs,
)

pub complete_at-IsFresh :
    (window k now : ℕ) (text : String) (xs : List ConversationAttempt)
    → IsFresh window xs
    → IsFresh window (complete_at k now text xs)
complete_at-IsFresh window k now text [] h = h
complete_at-IsFresh window zero now text (a ∷ xs) h = h
complete_at-IsFresh window (suc k) now text (a ∷ xs) (h, hs) =
    (h, complete_at-IsFresh window k now text xs hs)

pub used_provider-snoc :
    (p : String) (w : ℕ) (a : ConversationAttempt) (xs : List ConversationAttempt)
    → used_provider p w xs ≡ false
    → ((a.window == w) && str_eq a.provider p) ≡ false
    → used_provider p w (xs ++ a ∷ []) ≡ false
used_provider-snoc p w a [] h e = rw e refl
used_provider-snoc p w a (b ∷ xs) h e =
    of_test ((b.window == w) && str_eq b.provider p) (λ h. used_provider-snoc p w a xs h e) h
  where
    of_test :
        (t : Bool)
        → (used_provider p w xs ≡ false → used_provider p w (xs ++ a ∷ []) ≡ false)
        → (t || used_provider p w xs) ≡ false
        → (t || used_provider p w (xs ++ a ∷ [])) ≡ false
    of_test true rest h = h
    of_test false rest h = rest h

same_sym :
    (w v : ℕ) (p q : String) → ((w == v) && str_eq p q) ≡ false → ((v == w) && str_eq q p) ≡ false
same_sym w v p q h = elim (Bool-cases (v == w)) [
  | inl e ↦ elim (Bool-cases (str_eq q p)) [
    | inl d ↦
        let n : (w == v) ≡ true = ground arith in
        let m : str_eq p q ≡ true = (eq_iff p q).1 (sym ((eq_iff q p).0 d)) in cc
    | inr d ↦ cc
  ]
  | inr e ↦ rw e refl
]

pub snoc-IsDistinct :
    (a : ConversationAttempt) (xs : List ConversationAttempt)
    → used_provider a.provider a.window xs ≡ false
    → IsDistinct xs
    → IsDistinct (xs ++ a ∷ [])
snoc-IsDistinct a [] u h = (refl, tt)
snoc-IsDistinct a (b ∷ xs) u (h, hs) =
    of_test ((b.window == a.window) && str_eq b.provider a.provider) refl
      (λ u. snoc-IsDistinct a xs u hs) u
  where
    of_test :
        (t : Bool)
        → ((b.window == a.window) && str_eq b.provider a.provider) ≡ t
        → (used_provider a.provider a.window xs ≡ false → IsDistinct (xs ++ a ∷ []))
        → (t || used_provider a.provider a.window xs) ≡ false
        → IsDistinct (b ∷ xs ++ a ∷ [])
    of_test true e rest u = cc
    of_test false e rest u = (
      used_provider-snoc b.provider b.window a xs h
          (same_sym b.window a.window b.provider a.provider e),
      rest u,
    )

pub snoc-IsFresh :
    (window : ℕ) (a : ConversationAttempt) (xs : List ConversationAttempt)
    → IsFresh window xs
    → a.window ≤ window
    → IsFresh window (xs ++ a ∷ [])
snoc-IsFresh window a [] h e = (e, tt)
snoc-IsFresh window a (b ∷ xs) (h, hs) e = (h, snoc-IsFresh window a xs hs e)
