-- ===== src/Chat/Corrections/Tests.antt =====
-- Codex corrects Claude, who accepts and then disputes.
use mohuddle.Base.{ℕ, ◌≡◌, refl, String, List, [], ◌∷◌, some, All, get_elem?, nat_eq}
use mohuddle.Chat.Corrections.{
  CorrectionEvent, CorrectionEventType, offered, accepted, disputed, Correction, accepted_status,
  Message, Ledger, is_terminal, replay, correction_ledger,
}
use mohuddle.Chat.Corrections.Attributed.{IsAttributed, correction_ledger-IsAttributed}
use mohuddle.Chat.Corrections.Final.{replay-final}

abbrev event : CorrectionEventType → CorrectionEvent
event kind = record {
  kind = kind;
  correction_sequence = 2;
  corrected_sequence = 1;
  proposer = "codex";
  target = "claude";
}

abbrev says : ℕ → String → List CorrectionEvent → Message
says n author events = record {
  sequence = n;
  author = author;
  kind = "message";
  text = "x";
  correction_events = events;
  created_at = n;
}

abbrev transcript : List Message
transcript =
    says 3 "claude" (event accepted ∷ [])
    ∷ says 1 "claude" []
    ∷ says 2 "codex" (event offered ∷ [])
    ∷ says 4 "claude" (event disputed ∷ [])
    ∷ []

correction_ledger-IsAttributed_example :
    All (IsAttributed transcript) (correction_ledger transcript)
correction_ledger-IsAttributed_example = correction_ledger-IsAttributed transcript

abbrev closed : Correction
closed = record {
  correction_sequence = 2;
  corrected_sequence = 1;
  proposer = "codex";
  target = "claude";
  status = accepted_status;
  status_sequence = 3;
  created_at = 2;
  updated_at = 3;
}

abbrev after_three : Ledger
after_three = record { entries = closed ∷ []; corrections = (2, 0) ∷ [] }

replay-final_example :
    get_elem?
      (replay transcript [] (says 4 "claude" (event disputed ∷ []) ∷ []) after_three).entries
      0
    ≡ some closed
unfolding is_terminal
replay-final_example =
    replay-final 0 closed refl transcript [] (says 4 "claude" (event disputed ∷ []) ∷ [])
      after_three refl
