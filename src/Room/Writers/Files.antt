-- ===== src/Room/Writers/Files.antt =====
-- internal/room/workspace.go: the files that a writer reports. The path of a file in its checkout comes
-- from the file system, and is "" for one that is outside.
use mohuddle.Base.{
  ℕ, ◌+◌, ◌≤◌, ◌≡◌, refl, inl, inr, Bool, true, false, ◌||◌, String, List, [], ◌∷◌, ◌++◌, Option,
  none, some, leb, ◌==◌, str_eq, is_empty, if◌then◌else◌, length, lookup, insert, string_eq, arith,
  Bool-cases, length-append, eq_iff,
}
use mohuddle.Room.Writers.{WorkspaceWriter, SharedCapacity, persist}

module _ (workspace_file : String → String → String) where
  unfoldable pub has_file : String → List String → Bool
  has_file p [] = false
  has_file p (q ∷ rest) = let later = has_file p rest in if str_eq q p then true else later

  add_file : String → List String → List String
  unfolding has_file
  add_file p dst = if is_empty p || has_file p dst then dst else dst ++ p ∷ []

  -- The i-th report and those after it.
  merge_from : ℕ → List String → String → List String → List String
  unfolding add_file
  merge_from i dst workspace [] = dst
  merge_from i dst workspace (path ∷ paths) =
      let rest =
        merge_from (i + 1) (add_file (workspace_file workspace path) dst) workspace paths in
      if leb 128 i || leb 128 (length dst) then dst else rest

  pub merge_files : List String → String → List String → List String
  unfolding merge_from
  merge_files dst workspace paths = merge_from 0 dst workspace paths

  record_with :
      Option WorkspaceWriter
      → Option String
      → String
      → String
      → List String
      → List String
      → SharedCapacity
      → SharedCapacity
  unfolding merge_files
  record_with none saved workspace key intended observed s = s
  record_with (some r) saved workspace key intended observed s =
      let a = merge_files r.intended_files workspace intended in
      let b = merge_files r.observed_files workspace observed in
      let k = record s {
        records = insert key (record r { intended_files = a; observed_files = b }) s.records;
      } in
      if length a + length b == length r.intended_files + length r.observed_files
      then k
      else (persist saved k).0

  -- The part of recordWorkspaceFiles under the mutex of the shared state.
  pub record_workspace_files :
      Option String → String → String → List String → List String → SharedCapacity → SharedCapacity
  unfolding record_with
  record_workspace_files saved workspace key intended observed s =
      record_with (lookup key s.records) saved workspace key intended observed s

  -- No report twice, none that is outside, and at most 128.
  abbrev pub IsReport : List String → Type 0
  IsReport [] = Unit
  IsReport (p ∷ rest) = (has_file p rest ≡ false) × (is_empty p ≡ false) × IsReport rest

  has_file-append :
      (p q : String) (xs : List String)
      → has_file p xs ≡ false
      → str_eq q p ≡ false
      → has_file p (xs ++ q ∷ []) ≡ false
  unfolding has_file
  has_file-append p q [] h d = ground (arith, d)
  has_file-append p q (x ∷ xs) h d = ground (arith, h, d, has_file-append p q xs)

  append-IsReport :
      (q : String) (xs : List String)
      → has_file q xs ≡ false
      → is_empty q ≡ false
      → IsReport xs
      → IsReport (xs ++ q ∷ [])
  unfolding has_file
  append-IsReport q [] h n r = (refl, n, tt)
  append-IsReport q (x ∷ xs) h n (a, b, c) = elim (Bool-cases (str_eq x q)) [
    | inl same ↦ absurd (ground (arith, h, same))
    | inr differs ↦ (
      has_file-append x q xs a (ground (arith, differs, eq_iff x q, eq_iff q x)),
      b,
      append-IsReport q xs (ground (arith, h, differs)) n c,
    )
  ]

  add-IsReport : (p : String) (dst : List String) → IsReport dst → IsReport (add_file p dst)
  unfolding add_file
  add-IsReport p dst h = elim (Bool-cases (is_empty p || has_file p dst)) [
    | inl skips ↦ rw skips h
    | inr adds ↦ rw adds (append-IsReport p dst (ground (arith, adds)) (ground (arith, adds)) h)
  ]

  add-length : (p : String) (dst : List String) → length (add_file p dst) ≤ length dst + 1
  unfolding add_file
  add-length p dst = ground (arith, length-append dst (p ∷ []))

  merge_from-IsReport :
      (i : ℕ) (dst : List String) (workspace : String) (paths : List String)
      → IsReport dst
      → IsReport (merge_from i dst workspace paths)
  unfolding merge_from
  merge_from-IsReport i dst workspace [] h = h
  merge_from-IsReport i dst workspace (path ∷ paths) h =
      elim (Bool-cases (leb 128 i || leb 128 (length dst))) [
        | inl full ↦ rw full h
        | inr room ↦ rw room (
            merge_from-IsReport (i + 1) (add_file (workspace_file workspace path) dst) workspace
              paths (add-IsReport (workspace_file workspace path) dst h))
      ]

  merge_from-bound :
      (i : ℕ) (dst : List String) (workspace : String) (paths : List String)
      → length dst ≤ 128
      → length (merge_from i dst workspace paths) ≤ 128
  unfolding merge_from
  merge_from-bound i dst workspace [] h = h
  merge_from-bound i dst workspace (path ∷ paths) h =
      elim (Bool-cases (leb 128 i || leb 128 (length dst))) [
        | inl full ↦ rw full h
        | inr room ↦ rw room (
            merge_from-bound (i + 1) (add_file (workspace_file workspace path) dst) workspace paths
              (ground (arith, room, add-length (workspace_file workspace path) dst)))
      ]

  -- A merge of reports into a list without repetitions, without "" and with at most 128 files gives
  -- such a list.
  pub merge_files-IsReport :
      (dst : List String) (workspace : String) (paths : List String)
      → IsReport dst
      → length dst ≤ 128
      → IsReport (merge_files dst workspace paths)
        × (length (merge_files dst workspace paths) ≤ 128)
  unfolding merge_files
  merge_files-IsReport dst workspace paths h b =
      (merge_from-IsReport 0 dst workspace paths h, merge_from-bound 0 dst workspace paths b)
