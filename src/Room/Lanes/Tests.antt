-- ===== src/Room/Lanes/Tests.antt =====
-- Two rooms that share one place of a provider.
use mohuddle.Base.{ℕ, ◌≡◌, refl, String, [], ◌∷◌, arith, AllValues}
use mohuddle.Room.Lanes.{
  SharedTicket, SharedLane, Lanes, new_lane, acquire_provider, enqueue, dispatch, dispatch_rounds,
  admit_next, admit, index_of_next, find_other, remove_at, has_ticket, release, give_back,
  remove_ticket,
}
use mohuddle.Room.Lanes.Fair.{Settles, dispatch-Settles}
use mohuddle.Room.Lanes.Bounded.{IsLane, Reach, no_calls, after, acquires, history-IsLane}

abbrev ticket : ℕ → String → SharedTicket
ticket id room = record { id = id; room = room }

-- Room "a" asks twice, then room "b": with one place, "b" comes before the second call of "a".
abbrev three_calls : SharedLane
three_calls = enqueue (ticket 3 "b") (enqueue (ticket 2 "a") (enqueue (ticket 1 "a") (new_lane 1)))

other_room_next : (release 1 three_calls).granted ≡ ticket 3 "b" ∷ []
unfolding release give_back remove_ticket has_ticket enqueue dispatch dispatch_rounds admit_next
    admit index_of_next find_other remove_at
other_room_next = refl

dispatch-Settles_example :
    Settles "a" (record three_calls { limit = 2 }) (dispatch (record three_calls { limit = 2 }))
dispatch-Settles_example = dispatch-Settles "a" (record three_calls { limit = 2 })

abbrev two_rooms : Lanes
two_rooms = acquire_provider "codex" (ticket 2 "b") 1 (acquire_provider "codex" (ticket 1 "a") 1 [])

two_rooms-Reach : Reach 1 two_rooms
two_rooms-Reach =
    after _ _ (after _ _ no_calls (acquires "codex" (ticket 1 "a") 1 [] (omega arith)))
      (acquires "codex" (ticket 2 "b") 1 _ (omega arith))

history-IsLane_example : AllValues (IsLane 1) two_rooms
history-IsLane_example = history-IsLane 1 two_rooms (omega arith) two_rooms-Reach
