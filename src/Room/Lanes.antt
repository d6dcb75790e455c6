-- ===== src/Room/Lanes.antt =====
-- internal/room/shared.go: the lanes that bound the calls to each provider across rooms.
pub mod Fair
pub mod Bounded
mod Tests
use mohuddle.Base.{
  ℕ, zero, suc, ◌+◌, ◌-◌, ◌≤◌, ◌≡◌, ◌≢◌, ◌⊎◌, Bool, true, false, not, String, List, [], ◌∷◌, ◌++◌,
  Option, none, some, ltb, ◌==◌, str_eq, if◌then◌else◌, length, get_elem?, lookup, insert,
  string_eq, max,
}

-- A ticket is a pointer, so it has an identity.
pub record SharedTicket : Type 0 where
  pub id : ℕ
  pub room : String

-- `granted` holds the tickets whose `ready` is closed and whose place has not been given back.
pub record SharedLane : Type 0 where
  pub active : ℕ
  pub limit : ℕ
  pub last : String
  pub queue : List SharedTicket
  pub granted : List SharedTicket

abbrev pub new_lane : ℕ → SharedLane
new_lane limit = record { active = 0; limit = limit; last = ""; queue = []; granted = [] }

-- The place of the first ticket of another room.
pub find_other : String → List SharedTicket → Option ℕ
find_other last [] = none
find_other last (t ∷ q) =
    let later = find_other last q in
    if str_eq t.room last then elim later [ none ↦ none | some i ↦ some (suc i) ] else some 0

pub index_of_next : String → List SharedTicket → ℕ
index_of_next last q = elim (find_other last q) [ none ↦ 0 | some i ↦ i ]

pub remove_at : ℕ → List SharedTicket → List SharedTicket
remove_at i [] = []
remove_at zero (t ∷ q) = q
remove_at (suc i) (t ∷ q) = t ∷ remove_at i q

pub admit : SharedTicket → List SharedTicket → SharedLane → SharedLane
admit t rest l = record l {
  queue = rest;
  active = l.active + 1;
  last = t.room;
  granted = l.granted ++ t ∷ [];
}

admit_next : SharedLane → SharedLane
unfolding index_of_next
admit_next l = elim (get_elem? l.queue (index_of_next l.last l.queue)) [
  | none ↦ l
  | some t ↦ admit t (remove_at (index_of_next l.last l.queue) l.queue) l
]

-- The loop, for as many rounds as tickets wait.
dispatch_rounds : ℕ → SharedLane → SharedLane
unfolding admit_next
dispatch_rounds zero l = l
dispatch_rounds (suc n) l =
    let rest = dispatch_rounds n (admit_next l) in if ltb l.active l.limit then rest else l

pub dispatch : SharedLane → SharedLane
dispatch l = dispatch_rounds (length l.queue) l

pub has_ticket : ℕ → List SharedTicket → Bool
has_ticket id [] = false
has_ticket id (t ∷ q) = let rest = has_ticket id q in if t.id == id then true else rest

remove_ticket : ℕ → List SharedTicket → List SharedTicket
remove_ticket id [] = []
remove_ticket id (t ∷ q) = let rest = remove_ticket id q in if t.id == id then q else t ∷ rest

-- acquireProvider up to its first unlock.
pub enqueue : SharedTicket → SharedLane → SharedLane
enqueue t l = dispatch (record l { queue = l.queue ++ t ∷ [] })

give_back : ℕ → SharedLane → SharedLane
unfolding remove_ticket
give_back id l = record l { active = l.active - 1; granted = remove_ticket id l.granted }

-- The context ends: a ticket that waits leaves, and one whose place came meanwhile gives it back.
pub withdraw : ℕ → SharedLane → SharedLane
unfolding give_back
withdraw id l =
    if has_ticket id l.queue
    then dispatch (record l { queue = remove_ticket id l.queue })
    else dispatch (give_back id l)

-- The function that acquireProvider returns: `once`, so only while the place is held.
pub release : ℕ → SharedLane → SharedLane
unfolding give_back
release id l = if has_ticket id l.granted then dispatch (give_back id l) else l

pub set_limit : ℕ → SharedLane → SharedLane
set_limit limit l = dispatch (record l { limit = max 1 limit })

abbrev pub Lanes : Type 0
Lanes = List (String × SharedLane)

abbrev or_lane : SharedLane → Option SharedLane → SharedLane
or_lane new none = new
or_lane new (some l) = l

-- The lane of a provider, made where it is missing.
pub lane_or : SharedLane → String → Lanes → SharedLane
lane_or new provider s = or_lane new (lookup provider s)

pub set_provider_limit : String → ℕ → Lanes → Lanes
unfolding lane_or
set_provider_limit provider limit s =
    insert provider (set_limit limit (lane_or (new_lane 0) provider s)) s

pub acquire_provider : String → SharedTicket → ℕ → Lanes → Lanes
unfolding lane_or
acquire_provider provider t limit s =
    insert provider (enqueue t (lane_or (new_lane (max 1 limit)) provider s)) s
