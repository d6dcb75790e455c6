-- ===== src/Room/Conversations/Failover/Assigned.antt =====
-- internal/room/conversations.go: an assignment keeps the attempts of each window to two providers.
use mohuddle.Base.{
  Result, ℕ, suc, ◌≤◌, ◌≡◌, refl, sym, subst, inl, inr, Bool, true, false, not, ◌&&◌, String, List,
  [], ◌∷◌, ◌++◌, Option, none, some, ◌==◌, Bool-cases, if◌then◌else◌, arith, All-impl, ==_iff,
}
use mohuddle.Chat.Participants.{provider}
use mohuddle.Room.Continuations.{ConversationState, answering, retrying}
use mohuddle.Room.Conversations.{
  ConversationJob, ConversationAttempt, FailureLine, window_attempts, fail,
}
use mohuddle.Room.Conversations.Inbox.{again}
use mohuddle.Room.Conversations.Attempts.{
  used_provider, attempt_of, is_idle, eligible, first_eligible, or_next, select_responder,
  add_attempt, state_of,
}
use mohuddle.Room.Conversations.Finish.{complete_at}
use mohuddle.Room.Conversations.Failover.{
  IsFresh, IsFair, window_attempts-snoc, window_attempts-fresh, window_attempts-complete_at,
  complete_at-IsDistinct, complete_at-IsFresh, snoc-IsDistinct, snoc-IsFresh,
}

-- A conversation that looks for a responder has had at most one attempt in its window.
abbrev pub HasRoom : ConversationState → ℕ → List ConversationAttempt → Type 0
HasRoom state window xs = is_idle state ≡ true → window_attempts window xs ≤ 1

abbrev pub IsKept : List ConversationAttempt → ℕ → Type 0
IsKept xs window = IsFair xs × IsFresh window xs

abbrev pub IsBounded : ConversationJob → Type 0
IsBounded j = IsKept j.attempts j.attempt_window × HasRoom j.state j.attempt_window j.attempts

pub fail-IsBounded :
    (reason : String) (line : FailureLine) (now : ℕ) (saved : Result String ℕ) (j : ConversationJob)
    → IsKept j.attempts j.attempt_window
    → IsBounded (fail reason line now saved j)
unfolding fail
fail-IsBounded reason line now saved j h = (h, λ e. cc)

pub complete_at-IsKept :
    (k now : ℕ) (text : String) (xs : List ConversationAttempt) (window : ℕ)
    → IsKept xs window
    → IsKept (complete_at k now text xs) window
complete_at-IsKept k now text xs window ((c, d), f) = (
  (
    λ w. subst (λ n. n ≤ 2) (sym (window_attempts-complete_at w k now text xs)) (c w),
    complete_at-IsDistinct k now text xs d,
  ),
  complete_at-IsFresh window k now text xs f,
)

pub again-IsBounded :
    (now : ℕ) (j : ConversationJob) → IsKept j.attempts j.attempt_window → IsBounded (again now j)
again-IsBounded now j ((c, d), f) = (
  ((c, d), All-impl (λ a h. le_suc a.window j.attempt_window h) j.attempts f),
  λ e.
      subst (λ n. n ≤ 1)
        (sym (
          window_attempts-fresh (suc j.attempt_window) j.attempt_window j.attempts f (omega arith)))
        (omega arith),
)
  where
    le_suc : (m n : ℕ) → m ≤ n → m ≤ suc n
    le_suc m n h = omega arith

state_of-busy : (n : ℕ) → is_idle (state_of n) ≡ false
state_of-busy n = of_test (n == 1)
  where
    of_test : (t : Bool) → is_idle (if t then answering else retrying) ≡ false
    of_test true = refl
    of_test false = refl

pub add_attempt-IsBounded :
    (now : ℕ) (temporary : Bool) (p : String) (j : ConversationJob)
    → IsBounded j
    → is_idle j.state ≡ true
    → used_provider (provider p) j.attempt_window j.attempts ≡ false
    → IsBounded (add_attempt now temporary p j)
add_attempt-IsBounded now temporary p j (((c, d), f), room) idle unused = (
  (
    (count, snoc-IsDistinct (attempt_of now p j) j.attempts unused d),
    snoc-IsFresh j.attempt_window (attempt_of now p j) j.attempts f (omega arith),
  ),
  λ e.
      let busy =
        state_of-busy (window_attempts j.attempt_window (j.attempts ++ attempt_of now p j ∷ [])) in
      cc,
)
  where
    count : (w : ℕ) → window_attempts w (j.attempts ++ attempt_of now p j ∷ []) ≤ 2
    count w =
        rw (window_attempts-snoc w (attempt_of now p j) j.attempts)
          (elim (Bool-cases (j.attempt_window == w)) [
            | inl e ↦ rw e (
                let own : j.attempt_window ≡ w = (==_iff j.attempt_window w).0 e in
                let one : window_attempts j.attempt_window j.attempts ≤ 1 = room idle in
                let two : window_attempts w j.attempts ≤ 1 =
                  subst (λ w. window_attempts w j.attempts ≤ 1) own one in
                omega arith)
            | inr e ↦ rw e (let two = c w in omega arith)
          ])

eligible-unused :
    (free : String → Bool) (j : ConversationJob) (p : String)
    → eligible free j p ≡ true
    → used_provider (provider p) j.attempt_window j.attempts ≡ false
eligible-unused free j p h =
    of_test (used_provider (provider p) j.attempt_window j.attempts) (free p) h
  where
    of_test : (u f : Bool) → (not u && f) ≡ true → u ≡ false
    of_test true f h = cc
    of_test false f h = refl

abbrev pub IsUnused : ConversationJob → Option String → Type 0
IsUnused j none = Unit
IsUnused j (some p) = used_provider (provider p) j.attempt_window j.attempts ≡ false

first_eligible-IsUnused :
    (free : String → Bool) (j : ConversationJob) (ps : List String)
    → IsUnused j (first_eligible free j ps)
first_eligible-IsUnused free j [] = tt
first_eligible-IsUnused free j (p ∷ ps) =
    of_test (eligible free j p) (eligible-unused free j p) (first_eligible-IsUnused free j ps)
  where
    of_test :
        (t : Bool)
        → (t ≡ true → IsUnused j (some p))
        → IsUnused j (first_eligible free j ps)
        → IsUnused j (if t then some p else first_eligible free j ps)
    of_test true h rest = h refl
    of_test false h rest = rest

or_next-IsUnused :
    (j : ConversationJob) (o q : Option String)
    → IsUnused j o
    → IsUnused j q
    → IsUnused j (or_next o q)
or_next-IsUnused j (some p) q h k = h
or_next-IsUnused j none q h k = k

pub select_responder-IsUnused :
    (free : String → Bool) (of_chatgpt : Bool) (helpers others anyone temporaries : List String)
    (j : ConversationJob)
    → IsUnused j (select_responder free of_chatgpt helpers others anyone temporaries j)
unfolding select_responder
select_responder-IsUnused free of_chatgpt helpers others anyone temporaries j =
    or_next-IsUnused j (first_eligible free j j.requested) _ (first j.requested) (rest of_chatgpt)
  where
    first : (ps : List String) → IsUnused j (first_eligible free j ps)
    first = first_eligible-IsUnused free j

    rest :
        (t : Bool)
        → IsUnused j (
            if t
            then none
            else or_next (first_eligible free j helpers) (
                or_next
                  (first_eligible free j others)
                  (or_next (first_eligible free j anyone) (first_eligible free j temporaries))))
    rest true = tt
    rest false = or_next-IsUnused j (first_eligible free j helpers) _ (first helpers) (
        or_next-IsUnused j (first_eligible free j others) _ (first others)
          (or_next-IsUnused j (first_eligible free j anyone) _ (first anyone) (first temporaries)))
