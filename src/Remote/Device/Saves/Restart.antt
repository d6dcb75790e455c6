-- ===== src/Remote/Device/Saves/Restart.antt =====
-- internal/remote/device/store.go: a store that is opened again.
use Prim.Native.String.{◌++◌ as append_text}
use mohuddle.Base.{
  or_fail, or_fail-eq-ok, ◌>>=◌, ◌∙◌, ◌≡◌, refl, ap, subst, ◌⊎◌, inl, inr, Bool, true, false,
  String, List, [], ◌∷◌, Option, none, some, ok, ◌>>◌, first_step, last_step, head_step, ok_inj,
  All,
}
use mohuddle.Remote.Device.{Packages, PersistentState, Store, undecodable}
use mohuddle.Remote.Device.Durable.{
  Files, Entry, missing, found, validate_state, load_state, empty_state, opening, fresh, held,
  open_store,
}
use mohuddle.Remote.Device.Grants.{Env}
use mohuddle.Remote.Device.History.{Operation, perform, run}
use mohuddle.Remote.Device.Saves.{Saves, perform-Saves}

-- How the file looks where it is there: a regular file that only its owner reads and writes.
abbrev pub entry_of : Option String → Entry
entry_of none = missing
entry_of (some text) = found true false false 384

-- In every operation the mode of the file could be set again.
abbrev pub KeepsModes : List (Env × Operation) → Type 0
KeepsModes ops = All (λ e. e.0.files.keeps_mode ≡ true) ops

-- What is encoded decodes to the state again.
abbrev pub Decodes : Packages → PersistentState → Type 0
Decodes p state =
    (text : String)
    → p.encode_state state ≡ some text
    → p.decode_state (append_text text "\n") ≡ some state

module _ (p : Packages) where
  -- The file decodes to the state in memory, which is valid, or neither holds anything yet.
  abbrev InSync : Store → Type 0
  InSync s =
      ((s.file ≡ none) × (s.state ≡ empty_state p))
      ⊎ ((text : String) × (s.file ≡ some text)
          × (validate_state p s.state ≡ ok tt)
          × (Decodes p s.state → p.decode_state text ≡ some s.state))

  step-InSync :
      (env : Env) (s : Store) (r : Store × Bool)
      → Saves p env s r
      → env.files.keeps_mode ≡ true
      → InSync s
      → InSync r.0
  step-InSync env s r (inl (state, file)) kept h = rw (state, file) h
  step-InSync env s r (inr (inl (valid, (text, encoded, file), done))) kept h =
      inr (append_text text "\n", file, valid, λ law. law text encoded)
  step-InSync env s r (inr (inr (state, lost, done))) kept h = cc

  run-InSync :
      (s : Store) (ops : List (Env × Operation)) → KeepsModes ops → InSync s → InSync (run p s ops)
  run-InSync s [] kept h = h
  run-InSync s ((env, op) ∷ ops) kept h =
      run-InSync (perform p env s op).0 ops kept.1
        (step-InSync env s (perform p env s op) (perform-Saves p env s op) kept.0 h)

  load_state-InSync :
      (s : Store)
      → Decodes p s.state
      → InSync s
      → load_state p (entry_of s.file) s.file ≡ ok s.state
  unfolding load_state
  load_state-InSync s law (inl (file, state)) = rw (file, state) refl
  load_state-InSync s law (inr (text, file, valid, decodes)) = rw (file, decodes law, valid) refl

  loaded-InSync :
      (content : Option String) (s : Store) (path : String) (f : Files)
      → open_store p path (record f { entry = entry_of content }) content ≡ ok s
      → InSync s
  unfolding open_store load_state
  loaded-InSync none s path f e =
      let loaded = last_step (opening p path (record f { entry = missing })) _ e in
      subst InSync (ok_inj loaded) (inl (refl, refl))
  loaded-InSync (some text) s path f e =
      let loaded =
        last_step (opening p path (record f { entry = found true false false 384 })) _ e in
      let (state', same, checked) =
        first_step
          (or_fail (p.decode_state text) undecodable >>= λ state.
            validate_state p state >> ok state)
          _ loaded in
      let (state, judged, decoded) =
        first_step (or_fail (p.decode_state text) undecodable) _ checked in
      let here : state ≡ state' = ok_inj (last_step (validate_state p state) (ok state) judged) in
      let (u, valid) = head_step (validate_state p state) (ok state) judged in
      let read : p.decode_state text ≡ some state =
        or_fail-eq-ok (p.decode_state text) undecodable decoded in
      subst InSync (ok_inj same) (
        inr (
          text,
          refl,
          subst (λ st. validate_state p st ≡ ok tt) here valid,
          λ law. read ∙ ap some here,
        ))

  -- A store that is opened again after any operations has the grants and invitations that it had, and
  -- no session and no challenge. The conditions: the store was opened with its file as it is saved, or
  -- with none, its directory is as it was, no save failed to set the mode of the new file, and the
  -- encoding of the last state decodes to it.
  pub open_store-run :
      (path : String) (f : Files) (content : Option String) (s : Store)
      (ops : List (Env × Operation))
      → open_store p path (record f { entry = entry_of content }) content ≡ ok s
      → KeepsModes ops
      → Decodes p (run p s ops).state
      → let t = run p s ops in
        (again : Store) × (open_store p path (record f { entry = entry_of t.file }) t.file
          ≡ ok again)
        × (again.state ≡ t.state)
        × (again.sessions ≡ [])
        × (again.challenges ≡ [])
  unfolding open_store opening
  open_store-run path f content s ops opened kept law =
      let t = run p s ops in
      let sync = run-InSync s ops kept (loaded-InSync content s path f opened) in
      let (u, ready) =
        head_step (opening p path (record f { entry = entry_of content })) _ opened in
      (
        fresh p t.state (held p (entry_of t.file) t.file),
        rw (ready, load_state-InSync t law sync) refl,
        refl,
        refl,
        refl,
      )
