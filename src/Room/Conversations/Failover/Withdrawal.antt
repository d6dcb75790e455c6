-- ===== src/Room/Conversations/Failover/Withdrawal.antt =====
-- internal/room/conversations.go: what a withdrawn assignment leaves of a window.
use mohuddle.Base.{
  ℕ, suc, ◌-◌, ◌≤◌, ◌≡◌, refl, ap, Bool, true, false, ◌&&◌, ◌||◌, String, List, [], ◌∷◌, ◌==◌,
  str_eq, if◌then◌else◌, arith,
}
use mohuddle.Room.Conversations.{ConversationAttempt, window_attempts}
use mohuddle.Room.Conversations.Attempts.{used_provider, without_last, is_open}
use mohuddle.Room.Conversations.Failover.{IsDistinct, IsFresh}

-- A withdrawn launch is of the last attempt, of the current window, which is open.
abbrev pub IsLast : (launch window : ℕ) → List ConversationAttempt → Type 0
IsLast launch window [] = Unit
IsLast launch window (a ∷ []) = (launch ≡ 0) × (is_open a.completed_at ≡ true) × (a.window ≡ window)
IsLast launch window (a ∷ b ∷ rest) = IsLast (launch - 1) window (b ∷ rest)

pub without_last-used_provider :
    (p : String) (w launch : ℕ) (xs : List ConversationAttempt)
    → used_provider p w xs ≡ false
    → used_provider p w (without_last launch xs) ≡ false
without_last-used_provider p w launch [] h = h
without_last-used_provider p w launch (a ∷ []) h = of_test ((launch == 0) && is_open a.completed_at)
  where
    of_test : (t : Bool) → used_provider p w (if t then [] else a ∷ []) ≡ false
    of_test true = refl
    of_test false = h
without_last-used_provider p w launch (a ∷ b ∷ rest) h =
    of_test ((a.window == w) && str_eq a.provider p)
      (λ h. without_last-used_provider p w (launch - 1) (b ∷ rest) h) h
  where
    of_test :
        (t : Bool)
        → (used_provider p w (b ∷ rest) ≡ false
            → used_provider p w (without_last (launch - 1) (b ∷ rest)) ≡ false)
        → (t || used_provider p w (b ∷ rest)) ≡ false
        → (t || used_provider p w (without_last (launch - 1) (b ∷ rest))) ≡ false
    of_test true later h = h
    of_test false later h = later h

pub without_last-IsDistinct :
    (launch : ℕ) (xs : List ConversationAttempt)
    → IsDistinct xs
    → IsDistinct (without_last launch xs)
without_last-IsDistinct launch [] h = h
without_last-IsDistinct launch (a ∷ []) h = of_test ((launch == 0) && is_open a.completed_at)
  where
    of_test : (t : Bool) → IsDistinct (if t then [] else a ∷ [])
    of_test true = tt
    of_test false = h
without_last-IsDistinct launch (a ∷ b ∷ rest) (h, hs) = (
  without_last-used_provider a.provider a.window (launch - 1) (b ∷ rest) h,
  without_last-IsDistinct (launch - 1) (b ∷ rest) hs,
)

pub without_last-IsFresh :
    (window launch : ℕ) (xs : List ConversationAttempt)
    → IsFresh window xs
    → IsFresh window (without_last launch xs)
without_last-IsFresh window launch [] h = h
without_last-IsFresh window launch (a ∷ []) h = of_test ((launch == 0) && is_open a.completed_at)
  where
    of_test : (t : Bool) → IsFresh window (if t then [] else a ∷ [])
    of_test true = tt
    of_test false = h
without_last-IsFresh window launch (a ∷ b ∷ rest) (h, hs) =
    (h, without_last-IsFresh window (launch - 1) (b ∷ rest) hs)

pub window_attempts-without_last :
    (w launch : ℕ) (xs : List ConversationAttempt)
    → window_attempts w (without_last launch xs) ≤ window_attempts w xs
window_attempts-without_last w launch [] = omega arith
window_attempts-without_last w launch (a ∷ []) = of_test ((launch == 0) && is_open a.completed_at)
  where
    of_test : (t : Bool) → window_attempts w (if t then [] else a ∷ []) ≤ window_attempts w (a ∷ [])
    of_test true = omega arith
    of_test false = omega arith
window_attempts-without_last w launch (a ∷ b ∷ rest) =
    of_test (a.window == w) (window_attempts w (without_last (launch - 1) (b ∷ rest)))
      (window_attempts w (b ∷ rest)) (window_attempts-without_last w (launch - 1) (b ∷ rest))
  where
    of_test : (t : Bool) (m n : ℕ) → m ≤ n → (if t then suc m else m) ≤ (if t then suc n else n)
    of_test true m n h = omega arith
    of_test false m n h = h

last_attempt :
    (window launch : ℕ) (a : ConversationAttempt) (xs : List ConversationAttempt)
    → IsLast launch window (a ∷ xs)
    → suc (window_attempts window (without_last launch (a ∷ xs))) ≡ window_attempts window (a ∷ xs)
last_attempt window launch a [] (l, o, e) =
    let first : (launch == 0) ≡ true = ground arith in
    let own : (a.window == window) ≡ true = ground arith in rw first (rw o (rw own refl))
last_attempt window launch a (b ∷ rest) l =
    of_test (a.window == window) (window_attempts window (without_last (launch - 1) (b ∷ rest)))
      (window_attempts window (b ∷ rest)) (last_attempt window (launch - 1) b rest l)
  where
    of_test :
        (t : Bool) (m n : ℕ) → suc m ≡ n → suc (if t then suc m else m) ≡ (if t then suc n else n)
    of_test true m n h = ap suc h
    of_test false m n h = h

-- The withdrawal makes room for another attempt in the window.
pub window_attempts-IsLast :
    (window launch : ℕ) (xs : List ConversationAttempt)
    → IsLast launch window xs
    → window_attempts window xs ≤ 2
    → window_attempts window (without_last launch xs) ≤ 1
window_attempts-IsLast window launch [] l h = omega arith
window_attempts-IsLast window launch (a ∷ xs) l h =
    let e = last_attempt window launch a xs l in omega arith
