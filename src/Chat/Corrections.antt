-- ===== src/Chat/Corrections.antt =====
-- internal/chat/types.go: the ledger of corrections that a transcript proves, and its totals.
pub mod Sources
pub mod Attributed
pub mod Totals
pub mod Final
mod Tests
use mohuddle.Base.{
  ℕ, zero, suc, ◌+◌, Bool, true, false, not, ◌&&◌, ◌||◌, String, List, [], ◌∷◌, ◌++◌, Option, none,
  some, ltb, leb, ◌==◌, str_eq, is_empty, if◌then◌else◌, length, get_elem?, set, lookup, insert,
  nat_eq, string_eq,
}
use mohuddle.Chat.Participants.{agents, valid_agent, is_blank}

pub data CorrectionEventType : Type 0 where
  offered disputed accepted retracted unknown : CorrectionEventType

pub record CorrectionEvent : Type 0 where
  pub kind : CorrectionEventType
  pub correction_sequence : ℕ
  pub corrected_sequence : ℕ
  pub proposer : String
  pub target : String

pub data CorrectionStatus : Type 0 where
  pending_status disputed_status accepted_status retracted_status : CorrectionStatus

pub record Correction : Type 0 where
  pub correction_sequence : ℕ
  pub corrected_sequence : ℕ
  pub proposer : String
  pub target : String
  pub status : CorrectionStatus
  pub status_sequence : ℕ
  pub created_at : ℕ
  pub updated_at : ℕ

-- The fields of a message that the ledger reads.
pub record Message : Type 0 where
  pub sequence : ℕ
  pub author : String
  pub kind : String
  pub text : String
  pub correction_events : List CorrectionEvent
  pub created_at : ℕ

pub sequence_count : ℕ → List Message → ℕ
sequence_count n [] = 0
sequence_count n (m ∷ rest) =
    if m.sequence == n then sequence_count n rest + 1 else sequence_count n rest

-- sort.SliceStable by the sequence.
pub place : Message → List Message → List Message
place m [] = m ∷ []
place m (x ∷ xs) =
    let rest = place m xs in if leb m.sequence x.sequence then m ∷ x ∷ xs else x ∷ rest

pub sort_messages : List Message → List Message
unfolding place
sort_messages [] = []
sort_messages (m ∷ rest) = place m (sort_messages rest)

pub is_unique : List Message → Message → Bool
unfolding sequence_count
is_unique all m = not (m.sequence == 0) && sequence_count m.sequence all == 1

pub by_sequence : List Message → List Message → List (ℕ × Message)
unfolding is_unique
by_sequence all [] = []
by_sequence all (m ∷ rest) =
    let later = by_sequence all rest in if is_unique all m then insert m.sequence m later else later

-- A text message of an agent that says something.
pub is_said : Message → Bool
is_said m = str_eq m.kind "message" && valid_agent m.author && not (is_blank m.text)

is_offer : CorrectionEventType → Bool
is_offer offered = true
is_offer disputed = false
is_offer accepted = false
is_offer retracted = false
is_offer unknown = false

is_resolution : CorrectionEventType → Bool
is_resolution offered = false
is_resolution disputed = true
is_resolution accepted = true
is_resolution retracted = true
is_resolution unknown = false

events_of : (CorrectionEventType → Bool) → List CorrectionEvent → List CorrectionEvent
events_of p [] = []
events_of p (e ∷ rest) = if p e.kind then e ∷ events_of p rest else events_of p rest

-- The only event, where there is just one.
only : List CorrectionEvent → Option CorrectionEvent
only [] = none
only (e ∷ []) = some e
only (e ∷ f ∷ rest) = none

set_status : CorrectionStatus → Message → Correction → Correction
set_status status m c = record c {
  status = status;
  status_sequence = m.sequence;
  updated_at = m.created_at;
}

is_disputed : CorrectionStatus → Bool
is_disputed disputed_status = true
is_disputed pending_status = false
is_disputed accepted_status = false
is_disputed retracted_status = false

pub is_terminal : CorrectionStatus → Bool
is_terminal accepted_status = true
is_terminal retracted_status = true
is_terminal pending_status = false
is_terminal disputed_status = false

resolve_open : CorrectionEventType → Message → Correction → Correction
unfolding set_status is_disputed
resolve_open accepted m c = if str_eq m.author c.target then set_status accepted_status m c else c
resolve_open disputed m c =
    if str_eq m.author c.target && not (is_disputed c.status)
    then set_status disputed_status m c
    else c
resolve_open retracted m c =
    if str_eq m.author c.proposer then set_status retracted_status m c else c
resolve_open offered m c = c
resolve_open unknown m c = c

resolved : CorrectionEvent → Message → Correction → Correction
unfolding is_terminal resolve_open
resolved e m c = if is_terminal c.status then c else resolve_open e.kind m c

-- The ledger, and the place of each correction in it.
pub record Ledger : Type 0 where
  pub entries : List Correction
  pub corrections : List (ℕ × ℕ)

resolve_at : Option ℕ → CorrectionEvent → Message → Ledger → Ledger
unfolding resolved
resolve_at none e m l = l
resolve_at (some i) e m l =
    if leb m.sequence e.correction_sequence then l else elim (get_elem? l.entries i) [
      | none ↦ l
      | some c ↦ record l { entries = set l.entries i (resolved e m c) }
    ]

resolve : Option CorrectionEvent → Message → Ledger → Ledger
unfolding resolve_at
resolve none m l = l
resolve (some e) m l = resolve_at (lookup e.correction_sequence l.corrections) e m l

-- The offer is the message's own and names the author of the corrected message.
is_valid_offer : CorrectionEvent → Message → Message → Bool
unfolding is_said
is_valid_offer e m corrected =
    e.correction_sequence == m.sequence
    && ltb e.corrected_sequence m.sequence
    && is_said corrected
    && not (str_eq corrected.author m.author)
    && str_eq e.proposer m.author
    && str_eq e.target corrected.author

pub is_some : Option ℕ → Bool
is_some none = false
is_some (some i) = true

new_correction : CorrectionEvent → Message → Correction
new_correction e m = record {
  correction_sequence = e.correction_sequence;
  corrected_sequence = e.corrected_sequence;
  proposer = e.proposer;
  target = e.target;
  status = pending_status;
  status_sequence = 0;
  created_at = m.created_at;
  updated_at = m.created_at;
}

offer_for : Option Message → CorrectionEvent → Message → Ledger → Ledger
unfolding is_valid_offer is_some new_correction
offer_for none e m l = l
offer_for (some corrected) e m l =
    if is_valid_offer e m corrected && not (is_some (lookup e.correction_sequence l.corrections))
    then record l {
      entries = l.entries ++ new_correction e m ∷ [];
      corrections = insert e.correction_sequence (length l.entries) l.corrections;
    }
    else l

offer : Option CorrectionEvent → List (ℕ × Message) → Message → Ledger → Ledger
unfolding offer_for
offer none known m l = l
offer (some e) known m l = offer_for (lookup e.corrected_sequence known) e m l

replay_message : List Message → List (ℕ × Message) → Message → Ledger → Ledger
unfolding is_unique offer resolve only events_of is_said is_offer is_resolution
replay_message all known m l =
    if is_unique all m && is_said m
    then offer (only (events_of is_offer m.correction_events)) known m
        (resolve (only (events_of is_resolution m.correction_events)) m l)
    else l

pub replay : List Message → List (ℕ × Message) → List Message → Ledger → Ledger
unfolding replay_message
replay all known [] l = l
replay all known (m ∷ rest) l = replay all known rest (replay_message all known m l)

pub correction_ledger : List Message → List Correction
unfolding replay by_sequence
correction_ledger messages =
    let ordered = sort_messages messages in
    (replay messages (by_sequence messages ordered) ordered
      (record { entries = []; corrections = [] })).entries

pub record CorrectionCounts : Type 0 where
  pub offered : ℕ
  pub accepted : ℕ
  pub retracted : ℕ
  pub pending : ℕ
  pub accepted_received : ℕ

abbrev pub no_counts : CorrectionCounts
no_counts = record { offered = 0; accepted = 0; retracted = 0; pending = 0; accepted_received = 0 }

count_offer : CorrectionStatus → CorrectionCounts → CorrectionCounts
count_offer accepted_status n = record n { offered = n.offered + 1; accepted = n.accepted + 1 }
count_offer retracted_status n = record n { offered = n.offered + 1; retracted = n.retracted + 1 }
count_offer pending_status n = record n { offered = n.offered + 1; pending = n.pending + 1 }
count_offer disputed_status n = record n { offered = n.offered + 1; pending = n.pending + 1 }

is_accepted : CorrectionStatus → Bool
is_accepted accepted_status = true
is_accepted pending_status = false
is_accepted disputed_status = false
is_accepted retracted_status = false

count_received : Bool → CorrectionCounts → CorrectionCounts
count_received yes_ n = if yes_ then record n { accepted_received = n.accepted_received + 1 } else n

abbrev pub counts_of : String → List (String × CorrectionCounts) → CorrectionCounts
counts_of p m = elim (lookup p m) [ none ↦ no_counts | some n ↦ n ]

-- One correction of the loop: the counts of the proposer are read before those of the target change.
count_correction :
    Correction
    → CorrectionCounts × List (String × CorrectionCounts)
    → CorrectionCounts × List (String × CorrectionCounts)
unfolding count_offer count_received is_accepted
count_correction c (room, by_agent) =
    let proposer = count_offer c.status (counts_of c.proposer by_agent) in
    let received =
      if is_accepted c.status
      then insert c.target (count_received true (counts_of c.target by_agent)) by_agent
      else by_agent in
    (
      count_received (is_accepted c.status) (count_offer c.status room),
      insert c.proposer proposer received,
    )

count_all :
    List Correction
    → CorrectionCounts × List (String × CorrectionCounts)
    → CorrectionCounts × List (String × CorrectionCounts)
unfolding count_correction
count_all [] n = n
count_all (c ∷ rest) n = count_all rest (count_correction c n)

no_agent_counts : List String → List (String × CorrectionCounts)
no_agent_counts [] = []
no_agent_counts (p ∷ rest) = (p, no_counts) ∷ no_agent_counts rest

pub correction_statistics : List Message → CorrectionCounts × List (String × CorrectionCounts)
unfolding count_all no_agent_counts
correction_statistics messages =
    count_all (correction_ledger messages) (no_counts, no_agent_counts agents)
