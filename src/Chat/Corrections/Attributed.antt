-- ===== src/Chat/Corrections/Attributed.antt =====
-- internal/chat/types.go: who a correction of the ledger is by, and about whom.
use mathlib.Core.Option.{some_inj}
use mohuddle.Base.{
  String, not, ◌++◌, length, insert, leb, ℕ, zero, suc, ◌<◌, ◌≡◌, refl, subst, Bool, if◌then◌else◌,
  inl, inr, true, false, ◌&&◌, List, [], ◌∷◌, Option, none, some, str_eq, get_elem?, set, lookup,
  nat_eq, All, All-append, arith, Bool-cases, Option-cases, eq_iff,
}
use mohuddle.Chat.Corrections.Sources.{
  with_sequence, Among, Among-All, sort_messages-All, IsKnown, known_lem, unique-sole,
}
use mohuddle.Chat.Corrections.{
  CorrectionEvent, Correction, Message, Ledger, is_said, set_status, resolve_open, resolved,
  resolve_at, resolve, is_valid_offer, new_correction, offer_for, offer, replay_message, replay,
  correction_ledger, sort_messages, by_sequence, is_unique, only, events_of, is_offer,
  is_resolution, accepted, disputed, retracted, offered, unknown, CorrectionEventType,
  CorrectionStatus, is_some, is_terminal,
}

-- The two messages that a correction comes from: alone with their sequences in the transcript, both said
-- by the agents that the correction names, the corrected one earlier and by another agent.
pub record Attribution (messages : List Message) (n k : ℕ) (proposer target : String) : Type 0 where
  pub offering : Message
  pub corrected : Message
  pub is_offering : with_sequence n messages ≡ offering ∷ []
  pub is_corrected : with_sequence k messages ≡ corrected ∷ []
  pub by_proposer : offering.author ≡ proposer
  pub by_target : corrected.author ≡ target
  pub is_of_another : str_eq target proposer ≡ false
  pub is_earlier : k < n
  pub offering_said : is_said offering ≡ true
  pub corrected_said : is_said corrected ≡ true

abbrev pub IsAttributed : List Message → Correction → Type 0
IsAttributed messages c =
    Attribution messages c.correction_sequence c.corrected_sequence c.proposer c.target

module _ (all : List Message) where
  abbrev IsLedger : Ledger → Type 0
  IsLedger l = All (IsAttributed all) l.entries

  All-set :
      (xs : List Correction) (i : ℕ) (v : Correction)
      → IsAttributed all v
      → All (IsAttributed all) xs
      → All (IsAttributed all) (set xs i v)
  All-set [] i v h hs = tt
  All-set (x ∷ xs) zero v h hs = (h, hs.1)
  All-set (x ∷ xs) (suc i) v h hs = (hs.0, All-set xs i v h hs.1)

  All-get :
      (xs : List Correction) (i : ℕ) (c : Correction)
      → get_elem? xs i ≡ some c
      → All (IsAttributed all) xs
      → IsAttributed all c
  All-get [] i c h hs = cc
  All-get (x ∷ xs) zero c h hs = subst (IsAttributed all) (some_inj.0 h) hs.0
  All-get (x ∷ xs) (suc i) c h hs = All-get xs i c h hs.1

  changed-IsAttributed :
      (b : Bool) (status : CorrectionStatus) (m : Message) (c : Correction)
      → IsAttributed all c
      → IsAttributed all (if b then set_status status m c else c)
  unfolding set_status
  changed-IsAttributed true status m c h = h
  changed-IsAttributed false status m c h = h

  open-IsAttributed :
      (k : CorrectionEventType) (m : Message) (c : Correction)
      → IsAttributed all c
      → IsAttributed all (resolve_open k m c)
  unfolding resolve_open
  open-IsAttributed accepted m c h = changed-IsAttributed _ _ m c h
  open-IsAttributed disputed m c h = changed-IsAttributed _ _ m c h
  open-IsAttributed retracted m c h = changed-IsAttributed _ _ m c h
  open-IsAttributed offered m c h = h
  open-IsAttributed unknown m c h = h

  resolved-IsAttributed :
      (e : CorrectionEvent) (m : Message) (c : Correction)
      → IsAttributed all c
      → IsAttributed all (resolved e m c)
  unfolding resolved
  resolved-IsAttributed e m c h = elim (Bool-cases (is_terminal c.status)) [
    | inl closed ↦ rw closed h
    | inr still ↦ rw still (open-IsAttributed e.kind m c h)
  ]

  resolve_at-IsLedger :
      (o : Option ℕ) (e : CorrectionEvent) (m : Message) (l : Ledger)
      → IsLedger l
      → IsLedger (resolve_at o e m l)
  unfolding resolve_at
  resolve_at-IsLedger none e m l h = h
  resolve_at-IsLedger (some i) e m l h = elim (Bool-cases (leb m.sequence e.correction_sequence)) [
    | inl late ↦ rw late h
    | inr later ↦ elim (Option-cases (get_elem? l.entries i)) [
      | inl missing ↦ rw (later, missing) h
      | inr (c, found) ↦
          rw (later, found)
            (All-set l.entries i (resolved e m c)
              (resolved-IsAttributed e m c (All-get l.entries i c found h)) h)
    ]
  ]

  resolve-IsLedger :
      (o : Option CorrectionEvent) (m : Message) (l : Ledger)
      → IsLedger l
      → IsLedger (resolve o m l)
  unfolding resolve
  resolve-IsLedger none m l h = h
  resolve-IsLedger (some e) m l h =
      resolve_at-IsLedger (lookup e.correction_sequence l.corrections) e m l h

  new-IsAttributed :
      (e : CorrectionEvent) (m k : Message)
      → Among m all
      → is_unique all m ≡ true
      → is_said m ≡ true
      → IsKnown all e.corrected_sequence k
      → is_valid_offer e m k ≡ true
      → IsAttributed all (new_correction e m)
  unfolding new_correction is_valid_offer
  new-IsAttributed e m k among unique s (same, known, there) v =
      let own : m.sequence ≡ e.correction_sequence = ground (arith, v) in
      record {
        offering = m;
        corrected = k;
        is_offering =
            subst (λ n. with_sequence n all ≡ m ∷ []) own (unique-sole all m among unique);
        is_corrected =
            subst (λ n. with_sequence n all ≡ k ∷ []) same (unique-sole all k there known);
        by_proposer = ground (arith, v, eq_iff e.proposer m.author);
        by_target = ground (arith, v, eq_iff e.target k.author);
        is_of_another = ground (arith, v, eq_iff e.proposer m.author, eq_iff e.target k.author);
        is_earlier = ground (arith, v);
        offering_said = s;
        corrected_said = ground (arith, v);
      }

  module _ (m : Message) (among : Among m all) (unique : is_unique all m ≡ true)
      (s : is_said m ≡ true) where
    offer_for-IsLedger :
        (o : Option Message) (e : CorrectionEvent) (l : Ledger)
        → ((k : Message) → o ≡ some k → IsKnown all e.corrected_sequence k)
        → IsLedger l
        → IsLedger (offer_for o e m l)
    unfolding offer_for
    offer_for-IsLedger none e l known h = h
    offer_for-IsLedger (some k) e l known h = elim (Bool-cases (is_valid_offer e m k)) [
      | inr invalid ↦ rw invalid h
      | inl valid ↦ of_new (is_some (lookup e.correction_sequence l.corrections)) valid
    ]
      where
        of_new :
            (b : Bool)
            → is_valid_offer e m k ≡ true
            → IsLedger (
                if is_valid_offer e m k && not b
                then record l {
                  entries = l.entries ++ new_correction e m ∷ [];
                  corrections = insert e.correction_sequence (length l.entries) l.corrections;
                }
                else l)
        of_new true valid = rw valid h
        of_new false valid = rw valid (
            All-append (IsAttributed all) l.entries (new_correction e m ∷ []) h
              (new-IsAttributed e m k among unique s (known k refl) valid, tt))

    offer-IsLedger :
        (o : Option CorrectionEvent) (ms : List Message) (l : Ledger)
        → All (λ x. Among x all) ms
        → IsLedger l
        → IsLedger (offer o (by_sequence all ms) m l)
    unfolding offer
    offer-IsLedger none ms l there h = h
    offer-IsLedger (some e) ms l there h =
        offer_for-IsLedger (lookup e.corrected_sequence (by_sequence all ms)) e l
          (λ k found. known_lem e.corrected_sequence all ms k there found) h

  message-IsLedger :
      (ms : List Message) (m : Message) (l : Ledger)
      → All (λ x. Among x all) ms
      → Among m all
      → IsLedger l
      → IsLedger (replay_message all (by_sequence all ms) m l)
  unfolding replay_message
  message-IsLedger ms m l there among h = elim (Bool-cases (is_unique all m && is_said m)) [
    | inr skipped ↦ rw skipped h
    | inl taken ↦ rw taken (
        offer-IsLedger m among (ground (arith, taken)) (ground (arith, taken))
          (only (events_of is_offer m.correction_events)) ms
          (resolve (only (events_of is_resolution m.correction_events)) m l) there
          (resolve-IsLedger (only (events_of is_resolution m.correction_events)) m l h))
  ]

  replay-IsLedger :
      (known ms : List Message) (l : Ledger)
      → All (λ x. Among x all) known
      → All (λ x. Among x all) ms
      → IsLedger l
      → IsLedger (replay all (by_sequence all known) ms l)
  unfolding replay
  replay-IsLedger known [] l there rest h = h
  replay-IsLedger known (m ∷ ms) l there rest h =
      replay-IsLedger known ms (replay_message all (by_sequence all known) m l) there rest.1
        (message-IsLedger known m l there rest.0 h)

-- Whatever a transcript claims, every correction of its ledger comes from two messages that are the only
-- ones of the transcript with their sequences: the offering one is said by the agent that the correction
-- has as its proposer, and the corrected one, an earlier one, by the other agent that it has as its target.
pub correction_ledger-IsAttributed :
    (messages : List Message) → All (IsAttributed messages) (correction_ledger messages)
unfolding correction_ledger
correction_ledger-IsAttributed messages =
    let ordered = sort_messages messages in
    let there = sort_messages-All (λ x. Among x messages) messages (Among-All messages) in
    replay-IsLedger messages ordered ordered (record { entries = []; corrections = [] }) there there
      tt
