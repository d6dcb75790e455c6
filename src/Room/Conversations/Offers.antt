-- ===== src/Room/Conversations/Offers.antt =====
-- internal/chat/conversation.go, room/conversations.go: the inbox offers what the room accepts.
use mohuddle.Room.Continuations.{
  ConversationState, finding, waiting, answering, retrying, answered, needs_attention, failed,
  dismissed, cancelled,
}
use mohuddle.Base.{
  suc, ℕ, ◌≡◌, refl, ◌∙◌, ◌==◌, ap, Bool, true, false, not, List, [], ◌∷◌, ok, err, if◌then◌else◌,
}
use mohuddle.Room.Conversations.{ConversationJob}
use mohuddle.Room.Conversations.Inbox.{
  category_of, ConversationAction, cancel_action, dismiss_action, not_active, or_same, dismiss_all,
  count_category, count_inbox, InboxCounts, available_actions, actions_of, inbox_category,
  InboxCategory, working, new_answer, action_needed, hidden, is_working, Answer, cancel, dismiss,
  dismiss_as,
}

-- The client may cancel, or dismiss.
abbrev pub may_cancel : List ConversationAction → Bool
may_cancel [] = false
may_cancel (cancel_action ∷ rest) = true
may_cancel (_ ∷ rest) = may_cancel rest

abbrev pub may_dismiss : List ConversationAction → Bool
may_dismiss [] = false
may_dismiss (dismiss_action ∷ rest) = true
may_dismiss (_ ∷ rest) = may_dismiss rest

abbrev pub accepts : Answer → Bool
accepts (ok _) = true
accepts (err _) = false

cancel-is_working :
    (now : ℕ) (j : ConversationJob) → is_working (inbox_category j) ≡ accepts (cancel now j)
unfolding cancel
cancel-is_working now j = of_test (is_working (inbox_category j)) _
  where
    of_test :
        (t : Bool) (k : ConversationJob) → t ≡ accepts (if not t then err not_active else ok k)
    of_test true k = refl
    of_test false k = refl

-- Cancelling is among the actions that the inbox offers exactly where the room does it, and so is
-- dismissing.
pub available_actions-accepts :
    (now : ℕ) (j : ConversationJob)
    → (may_cancel (available_actions j) ≡ accepts (cancel now j))
      × (may_dismiss (available_actions j) ≡ accepts (dismiss now j))
unfolding dismiss
available_actions-accepts now j =
    (of_cancel (inbox_category j) ∙ cancel-is_working now j, of_dismiss (inbox_category j))
  where
    of_cancel : (c : InboxCategory) → may_cancel (actions_of c) ≡ is_working c
    of_cancel working = refl
    of_cancel new_answer = refl
    of_cancel action_needed = refl
    of_cancel hidden = refl

    of_dismiss : (c : InboxCategory) → may_dismiss (actions_of c) ≡ accepts (dismiss_as c now j)
    of_dismiss working = refl
    of_dismiss new_answer = refl
    of_dismiss action_needed = refl
    of_dismiss hidden = refl

read-hidden :
    (p : Bool) (s : ConversationState) (u w : Bool)
    → (if p then category_of s u w else hidden) ≡ new_answer
    → (if p then category_of s false w else hidden) ≡ hidden
read-hidden false s u w e = refl
read-hidden true finding u w e = cc
read-hidden true waiting u w e = cc
read-hidden true answering u w e = cc
read-hidden true retrying u w e = cc
read-hidden true answered u w e = refl
read-hidden true needs_attention u true e = cc
read-hidden true needs_attention u false e = refl
read-hidden true failed u w e = refl
read-hidden true dismissed u w e = refl
read-hidden true cancelled u w e = refl

dismissed-hidden : (p : Bool) → (if p then category_of dismissed false false else hidden) ≡ hidden
dismissed-hidden true = refl
dismissed-hidden false = refl

-- What is left of a conversation in the counts.
remains : InboxCategory → InboxCategory
remains working = working
remains _ = hidden

dismiss_as-remains :
    (c : InboxCategory) (now : ℕ) (j : ConversationJob)
    → inbox_category j ≡ c
    → inbox_category (or_same (dismiss_as c now j) j) ≡ remains c
unfolding remains
dismiss_as-remains working now j e = e
dismiss_as-remains hidden now j e = e
dismiss_as-remains new_answer now j e =
    read-hidden (j.promoted_sequence == 0) j.state j.unread j.requires_work e
dismiss_as-remains action_needed now j e = dismissed-hidden (j.promoted_sequence == 0)

count_category-remains :
    (c : InboxCategory) (n m : InboxCounts)
    → n.workings ≡ m.workings
    → (count_category (remains c) n).workings ≡ (count_category c m).workings
unfolding remains
count_category-remains working n m e = ap suc e
count_category-remains new_answer n m e = e
count_category-remains action_needed n m e = e
count_category-remains hidden n m e = e

count_category-shown :
    (c : InboxCategory) (n : InboxCounts)
    → ((count_category (remains c) n).new_answers ≡ n.new_answers)
      × ((count_category (remains c) n).actions_needed ≡ n.actions_needed)
unfolding remains
count_category-shown working n = (refl, refl)
count_category-shown new_answer n = (refl, refl)
count_category-shown action_needed n = (refl, refl)
count_category-shown hidden n = (refl, refl)

count_inbox-dismiss_all :
    (now : ℕ) (js : List ConversationJob) (n m : InboxCounts)
    → n.workings ≡ m.workings
    → ((count_inbox (dismiss_all now js) n).new_answers ≡ n.new_answers)
      × ((count_inbox (dismiss_all now js) n).actions_needed ≡ n.actions_needed)
      × ((count_inbox (dismiss_all now js) n).workings ≡ (count_inbox js m).workings)
count_inbox-dismiss_all now [] n m e = (refl, refl, e)
count_inbox-dismiss_all now (j ∷ js) n m e =
    rw (count_inbox, dismiss_as-remains (inbox_category j) now j refl)
      (let rest =
          count_inbox-dismiss_all now js (count_category (remains (inbox_category j)) n)
            (count_category (inbox_category j) m)
            (count_category-remains (inbox_category j) n m e) in
        let shown = count_category-shown (inbox_category j) n in
        (rest.0 ∙ shown.0, rest.1 ∙ shown.1, rest.2))

abbrev pub nothing : InboxCounts
nothing = record { new_answers = 0; workings = 0; actions_needed = 0 }

-- After all were dismissed the inbox shows no new answer and no action that is needed, and the
-- conversations that work are as many as before.
pub dismiss_all-count_inbox :
    (now : ℕ) (js : List ConversationJob)
    → ((count_inbox (dismiss_all now js) nothing).new_answers ≡ 0)
      × ((count_inbox (dismiss_all now js) nothing).actions_needed ≡ 0)
      × ((count_inbox (dismiss_all now js) nothing).workings ≡ (count_inbox js nothing).workings)
dismiss_all-count_inbox now js = count_inbox-dismiss_all now js nothing nothing refl
