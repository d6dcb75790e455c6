-- ===== src/Chat/Corrections/Totals.antt =====
-- internal/chat/types.go: the totals of the corrections.
use mohuddle.Base.{◌+◌, ◌≡◌, refl, String, List, [], ◌∷◌, length, string_eq, arith}
use mohuddle.Chat.Participants.{agents}
use mohuddle.Chat.Corrections.{
  Correction, CorrectionStatus, pending_status, disputed_status, accepted_status, retracted_status,
  CorrectionCounts, no_counts, Message, correction_ledger, count_offer, count_received, is_accepted,
  count_correction, count_all, no_agent_counts, correction_statistics,
}

-- Every correction is counted once, by its outcome.
abbrev pub IsTotal : CorrectionCounts → Type 0
IsTotal n = (n.offered ≡ n.accepted + n.retracted + n.pending) × (n.accepted_received ≡ n.accepted)

one-IsTotal :
    (s : CorrectionStatus) (n : CorrectionCounts)
    → IsTotal n
    → IsTotal (count_received (is_accepted s) (count_offer s n))
unfolding count_received is_accepted count_offer
one-IsTotal pending_status n (h, k) = (omega (arith, h), k)
one-IsTotal disputed_status n (h, k) = (omega (arith, h), k)
one-IsTotal accepted_status n (h, k) = (omega (arith, h), omega (arith, k))
one-IsTotal retracted_status n (h, k) = (omega (arith, h), k)

one-offered :
    (s : CorrectionStatus) (n : CorrectionCounts)
    → (count_received (is_accepted s) (count_offer s n)).offered ≡ n.offered + 1
unfolding count_received is_accepted count_offer
one-offered pending_status n = refl
one-offered disputed_status n = refl
one-offered accepted_status n = refl
one-offered retracted_status n = refl

count_all-IsTotal :
    (cs : List Correction) (room : CorrectionCounts) (by_agent : List (String × CorrectionCounts))
    → IsTotal room
    → IsTotal (count_all cs (room, by_agent)).0
      × ((count_all cs (room, by_agent)).0.offered ≡ room.offered + length cs)
unfolding count_all count_correction
count_all-IsTotal [] room by_agent h = (h, omega arith)
count_all-IsTotal (c ∷ cs) room by_agent h =
    let (a, b) =
      count_all-IsTotal cs (count_received (is_accepted c.status) (count_offer c.status room))
        (count_correction c (room, by_agent)).1 (one-IsTotal c.status room h) in
    (a, omega (arith, b, one-offered c.status room))

-- The totals of a room count every correction of the ledger once, as accepted, retracted or pending.
pub correction_statistics-IsTotal :
    (messages : List Message)
    → IsTotal (correction_statistics messages).0
      × ((correction_statistics messages).0.offered ≡ length (correction_ledger messages))
unfolding correction_statistics
correction_statistics-IsTotal messages =
    let (whole, counted) =
      count_all-IsTotal (correction_ledger messages) no_counts (no_agent_counts agents)
        (refl, refl) in
    (whole, omega (arith, counted))
