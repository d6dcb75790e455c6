-- ===== src/Room/Writers/Keeps.antt =====
-- internal/room/shared.go: a workflow whose turns run, over the steps of all rooms.
use mohuddle.Base.{
  ℕ, ◌+◌, ◌≤◌, ◌<◌, ◌≡◌, sym, ap, subst, ◌∙◌, true, false, String, List, [], ◌∷◌, Option, none,
  str_eq, is_empty, if◌then◌else◌, lookup, string_eq, arith, All,
}
use mohuddle.Room.Writers.{
  SharedCapacity, or_zero, writer_of, turns_of, register_writer, enter_writer,
}
use mohuddle.Room.Writers.Journal.{confirm_workspace_stopped}
use mohuddle.Room.Writers.Runs.{
  Action, registers, enters, tries, releases, retains, finishes, confirms, step, run,
  register-Keeps, enter-Keeps,
}
use mohuddle.Room.Writers.Effects.{confirm_same}
use mohuddle.Room.Writers.Holders.{Has, Keeps-Has, try-Has, release-Has, retain-Has, finish-Has}

-- The turns that an action ends, of one key.
abbrev pub ends_turn : String → Action → ℕ
ends_turn key (registers k room name workflow p) = 0
ends_turn key (enters ws k) = 0
ends_turn key (tries now saved ended ws k) = 0
ends_turn key (releases now saved ws k) = 0
ends_turn key (retains k) = 0
ends_turn key (finishes now saved ws k) = if str_eq k key then 1 else 0
ends_turn key (confirms now saved ws) = 0

abbrev pub ended_turns : String → List Action → ℕ
ended_turns key [] = 0
ended_turns key (a ∷ rest) = ends_turn key a + ended_turns key rest

-- The journal takes what the key's own rounds write.
abbrev pub IsSaved : String → Action → Type 0
IsSaved key (registers k room name workflow p) = Unit
IsSaved key (enters ws k) = Unit
IsSaved key (tries now saved ended ws k) = str_eq k key ≡ true → saved ≡ none
IsSaved key (releases now saved ws k) = Unit
IsSaved key (retains k) = Unit
IsSaved key (finishes now saved ws k) = Unit
IsSaved key (confirms now saved ws) = Unit

module _ (ws key : String) (named : is_empty key ≡ false) where
  confirm-Has :
      (n now : ℕ) (saved : Option String) (w : String) (s : SharedCapacity)
      → Has ws key named n s
      → Has ws key named n (confirm_workspace_stopped now saved w s).0
  confirm-Has n now saved w s h =
      let (a, b) = confirm_same now saved w s in
      (
        ap (λ m. or_zero "" (lookup ws m)) a ∙ h.0,
        subst (λ m. n ≤ or_zero 0 (lookup key m)) (sym b) h.1,
      )

  step-Has :
      (n : ℕ) (a : Action) (s : SharedCapacity)
      → 1 ≤ n
      → IsSaved key a
      → Has ws key named (n + ends_turn key a) s
      → Has ws key named n (step a s)
  step-Has n (registers k room name workflow p) s b ok h =
      Keeps-Has ws key named n s (register_writer k room name workflow p s)
        (register-Keeps k room name workflow p s) (h.0, omega (arith, h.1))
  step-Has n (enters w k) s b ok h =
      Keeps-Has ws key named n s (enter_writer w k s).0 (enter-Keeps w k s)
        (h.0, omega (arith, h.1))
  step-Has n (tries now saved ended w k) s b ok h =
      try-Has ws key named n now saved ended w k s ok (h.0, omega (arith, h.1))
  step-Has n (releases now saved w k) s b ok h =
      release-Has ws key named n now saved w k s b (h.0, omega (arith, h.1))
  step-Has n (retains k) s b ok h = retain-Has ws key named n k s (h.0, omega (arith, h.1))
  step-Has n (finishes now saved w k) s b ok h = finish-Has ws key named n now saved w k s b h
  step-Has n (confirms now saved w) s b ok h = confirm-Has n now saved w s (h.0, omega (arith, h.1))

  run-Has :
      (acts : List Action) (s : SharedCapacity) (n : ℕ)
      → 1 ≤ n
      → All (IsSaved key) acts
      → Has ws key named (n + ended_turns key acts) s
      → Has ws key named n (run acts s)
  run-Has [] s n b ok h = (h.0, omega (arith, h.1))
  run-Has (a ∷ acts) s n b ok h =
      run-Has acts (step a s) n b ok.1
        (step-Has (n + ended_turns key acts) a s (omega (arith, b)) ok.0 (h.0, omega (arith, h.1)))

-- A checkout stays with a workflow that has turns running, whatever all rooms do, its own release
-- included, until as many turns have ended; only its own rounds must find the journal writable.
pub run_keeps_writer :
    (ws key : String) (s : SharedCapacity) (acts : List Action)
    → is_empty key ≡ false
    → writer_of ws s ≡ key
    → ended_turns key acts < turns_of key s
    → All (IsSaved key) acts
    → writer_of ws (run acts s) ≡ key
run_keeps_writer ws key s acts named owner turns ok =
    (run-Has ws key named acts s 1 (omega arith) ok (owner, omega (arith, turns))).0
