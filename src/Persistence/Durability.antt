-- ===== src/Persistence/Durability.antt =====
-- What the state store keeps (internal/persistence/state.go): a save shows in full or not at all.
use cannectors.Prelude.{
  ℕ, ◌≡◌, refl, sym, ap, ◌∙◌, arith, inl, inr, Bool, true, false, Bool-cases, Option, none, some,
  [], ◌∷◌, ◌++◌, Text, codes, same, same→eq, is_blank, is_some, if◌then◌else◌, ok,
}
use cannectors.Prelude.Assoc.{lookup, assign, delete, lookup-assign, lookup-delete}
use cannectors.Persistence.Config.{State}
use cannectors.Persistence.StateStore.{
  StoreError, invalid_pipeline_id, no_directory, Files, Os, Write, written, untouched, torn, base,
  file_name, temp_name, remove_file, rename_file, after_write, save_bytes, save, decoded, load,
  delete_found, delete_state, not_removed,
}

abbrev ending : Text → ℕ
ending [] = 0
ending (c ∷ []) = c
ending (c ∷ d ∷ s) = ending (d ∷ s)

ending-append : (s : Text) (c : ℕ) (t : Text) → ending (s ++ (c ∷ t)) ≡ ending (c ∷ t)
ending-append [] c t = refl
ending-append (b ∷ []) c t = refl
ending-append (b ∷ d ∷ s) c t = ending-append (d ∷ s) c t

-- a temporary file is no state file
temp_name-file_name : (i j : Text) → same (temp_name i) (file_name j) ≡ false
unfolding file_name
temp_name-file_name i j = elim (Bool-cases (same (temp_name i) (file_name j))) [
  | inr differs ↦ differs
  | inl equal ↦
      let p = ending-append (file_name i) b'.' (codes "tmp") in
      let q = ending-append (base j) b'.' (codes "json") in
      absurd (omega (arith, p, q, ap ending (same→eq (temp_name i) (file_name j) equal)))
]

-- the state files as `Load` finds them
abbrev pub SameStates : Files → Files → Type 0
SameStates fs gs = (j : Text) → lookup (file_name j) fs ≡ lookup (file_name j) gs

assign_temp-SameStates :
    (i : Text) (bytes : Text) (fs : Files) → SameStates (assign (temp_name i) bytes fs) fs
assign_temp-SameStates i bytes fs j = rw (lookup-assign, temp_name-file_name) refl

delete_temp-SameStates : (i : Text) (fs : Files) → SameStates (delete (temp_name i) fs) fs
delete_temp-SameStates i fs j = rw (lookup-delete, temp_name-file_name) refl

module _ (os : Os) where
  -- What became of a save of `bytes`: all other state files are as they were, and the one that it
  -- writes is so if the save fails.
  abbrev Shows : Text → Text → Files → Files × Option StoreError → Type 0
  Shows i bytes fs (gs, none) =
      (j : Text)
      → lookup (file_name j) gs
        ≡ (if same (file_name i) (file_name j) then some bytes else lookup (file_name j) fs)
  Shows i bytes fs (gs, some e) = SameStates gs fs

  remove_file-SameStates : (i : Text) (fs : Files) → SameStates (remove_file os (temp_name i) fs) fs
  unfolding remove_file
  remove_file-SameStates i fs j = elim (Bool-cases (os.remove_fails (temp_name i))) [
    | inl kept ↦ rw (kept, remove_file) refl
    | inr gone ↦ rw (gone, remove_file) (delete_temp-SameStates i fs j)
  ]

  rename_file-Shows :
      (i bytes : Text) (fs gs : Files)
      → SameStates gs fs
      → Shows i bytes fs (rename_file os i bytes gs)
  unfolding rename_file
  rename_file-Shows i bytes fs gs h = elim (Bool-cases os.rename_fails) [
    | inl bad ↦ rw (bad, rename_file) (λ j. remove_file-SameStates i gs j ∙ h j)
    | inr good ↦
        rw (good, rename_file) (λ j. rw (lookup-assign, delete_temp-SameStates i gs j, h j) refl)
  ]

  after_write-Shows :
      (w : Write) (i bytes : Text) (fs : Files) → Shows i bytes fs (after_write os w i bytes fs)
  unfolding after_write
  after_write-Shows written i bytes fs =
      rename_file-Shows i bytes fs (assign (temp_name i) bytes fs)
        (assign_temp-SameStates i bytes fs)
  after_write-Shows untouched i bytes fs = λ j. refl
  after_write-Shows (torn other) i bytes fs = assign_temp-SameStates i other fs

  -- the bytes of a state as `Save` encodes it
  abbrev stored : Text → State → Option Text
  stored i s = os.encode (record s { pipeline_id = i })

  save_bytes-fails :
      (i : Text) (b : Option Text) (fs : Files)
      → is_some (save_bytes os i b fs).1 ≡ true
      → SameStates (save_bytes os i b fs).0 fs
  unfolding save_bytes
  save_bytes-fails i none fs h = λ j. refl
  save_bytes-fails i (some bytes) fs h =
      go (save_bytes os i (some bytes) fs) (after_write-Shows _ i bytes fs) h
    where
      go :
          (p : Files × Option StoreError)
          → Shows i bytes fs p
          → is_some p.1 ≡ true
          → SameStates p.0 fs
      go (gs, none) shows bad = absurd cc
      go (gs, some e) shows bad = shows

  save_bytes-Shows :
      (i : Text) (b : Option Text) (fs : Files)
      → (save_bytes os i b fs).1 ≡ none
      → (bytes : Text) × (b ≡ some bytes) × Shows i bytes fs ((save_bytes os i b fs).0, none)
  unfolding save_bytes
  save_bytes-Shows i none fs h = absurd cc
  save_bytes-Shows i (some bytes) fs h =
      (bytes, refl, go (save_bytes os i (some bytes) fs) (after_write-Shows _ i bytes fs) h)
    where
      go :
          (p : Files × Option StoreError)
          → Shows i bytes fs p
          → p.1 ≡ none
          → Shows i bytes fs (p.0, none)
      go (gs, none) shows good = shows
      go (gs, some e) shows good = absurd cc

  load-SameStates : (j : Text) (fs gs : Files) → SameStates gs fs → load os j gs ≡ load os j fs
  unfolding load
  load-SameStates j fs gs h = rw (h j) refl

  -- A save that fails, at whatever step and whatever it left in the temporary file, leaves what `Load`
  -- finds for every pipeline as it was.
  pub load-save_fails :
      (i j : Text) (s : Option State) (fs : Files)
      → is_some (save os i s fs).1 ≡ true
      → load os j (save os i s fs).0 ≡ load os j fs
  unfolding save
  load-save_fails i j none fs h = refl
  load-save_fails i j (some s) fs h = elim (Bool-cases (is_blank i)) [
    | inl blank ↦ rw (blank, save) refl
    | inr named ↦ elim (Bool-cases os.make_dir_fails) [
      | inl bad ↦ rw (named, bad, save) refl
      | inr good ↦
          let e : save os i (some s) fs ≡ save_bytes os i (stored i s) fs =
            (rw (named, good, save) refl) in
          rw e (load-SameStates j fs _ (save_bytes-fails i (stored i s) fs (rw⁻¹ e h)))
    ]
  ]

  save-runs :
      (i : Text) (s : State) (fs : Files)
      → (save os i (some s) fs).1 ≡ none
      → save os i (some s) fs ≡ save_bytes os i (stored i s) fs
  unfolding save
  save-runs i s fs good = go (is_blank i) os.make_dir_fails good
    where
      saved : Files × Option StoreError
      saved = save_bytes os i (stored i s) fs

      go :
          (b m : Bool)
          → (if b
              then (fs, some invalid_pipeline_id)
              else if m
              then (fs, some no_directory)
              else saved).1
            ≡ none
          → (if b
              then (fs, some invalid_pipeline_id)
              else if m
              then (fs, some no_directory)
              else saved)
            ≡ saved
      go true m h = absurd cc
      go false true h = absurd cc
      go false false h = refl

  decoded-if :
      (b : Bool) (i : Text) (s : State) (bytes : Text) (old : Option Text)
      → os.decode bytes ≡ some s
      → decoded os (if b then some bytes else old) ≡ (if b then ok (some s) else decoded os old)
  unfolding decoded
  decoded-if true i s bytes old h = rw h refl
  decoded-if false i s bytes old h = refl

  -- After a save that succeeds, `Load` finds the state, with the pipeline's ID in it, for every
  -- pipeline whose ID names the same file, also for another ID, and what it found before for the
  -- others; where a decoded state is the one that was encoded, and the file can be read.
  pub load-save :
      (i j : Text) (s : State) (fs : Files)
      → ((t : State) (bytes : Text) → os.encode t ≡ some bytes → os.decode bytes ≡ some t)
      → (save os i (some s) fs).1 ≡ none
      → is_blank j ≡ false
      → os.read_fails (file_name j) ≡ false
      → load os j (save os i (some s) fs).0 ≡ (
          if same (file_name i) (file_name j)
          then ok (some (record s { pipeline_id = i }))
          else load os j fs)
  unfolding load
  load-save i j s fs decodes good named readable =
      let e = save-runs i s fs good in
      let (bytes, encoded, shows) =
        save_bytes-Shows i (stored i s) fs (ap (λ p. p.1) (sym e) ∙ good) in
      rw (named, readable, e, shows j)
        (decoded-if (same (file_name i) (file_name j)) i (record s { pipeline_id = i }) bytes _
          (decodes _ bytes encoded))

  delete_found-lookup :
      (i j : Text) (o : Option Text) (fs : Files)
      → lookup (file_name i) fs ≡ o
      → (delete_found os i o fs).1 ≡ none
      → lookup (file_name j) (delete_found os i o fs).0
        ≡ (if same (file_name i) (file_name j) then none else lookup (file_name j) fs)
  unfolding delete_found
  delete_found-lookup i j none fs absent good =
      elim (Bool-cases (same (file_name i) (file_name j))) [
        | inl equal ↦ rw (equal, ← (same→eq (file_name i) (file_name j) equal)) absent
        | inr differs ↦ rw differs refl
      ]
  delete_found-lookup i j (some bytes) fs there good = go (os.remove_fails (file_name i)) good
    where
      after : Bool → Files × Option StoreError
      after b = if b then (fs, some not_removed) else (delete (file_name i) fs, none)

      go :
          (b : Bool)
          → (after b).1 ≡ none
          → lookup (file_name j) (after b).0
            ≡ (if same (file_name i) (file_name j) then none else lookup (file_name j) fs)
      go true h = absurd cc
      go false h = lookup-delete (file_name i) (file_name j) fs

  decoded-deleted :
      (b : Bool) (old : Option Text)
      → decoded os (if b then none else old) ≡ (if b then ok none else decoded os old)
  unfolding decoded
  decoded-deleted true old = refl
  decoded-deleted false old = refl

  delete_state-lookup :
      (i j : Text) (fs : Files)
      → (delete_state os i fs).1 ≡ none
      → lookup (file_name j) (delete_state os i fs).0
        ≡ (if same (file_name i) (file_name j) then none else lookup (file_name j) fs)
  unfolding delete_state
  delete_state-lookup i j fs good = go (is_blank i) good
    where
      after : Bool → Files × Option StoreError
      after b =
          if b
          then (fs, some invalid_pipeline_id)
          else delete_found os i (lookup (file_name i) fs) fs

      go :
          (b : Bool)
          → (after b).1 ≡ none
          → lookup (file_name j) (after b).0
            ≡ (if same (file_name i) (file_name j) then none else lookup (file_name j) fs)
      go true h = absurd cc
      go false h = delete_found-lookup i j (lookup (file_name i) fs) fs refl h

  -- After a deletion that succeeds, `Load` finds nothing for every pipeline whose ID names the same
  -- file, and what it found before for the others.
  pub load-delete_state :
      (i j : Text) (fs : Files)
      → (delete_state os i fs).1 ≡ none
      → is_blank j ≡ false
      → os.read_fails (file_name j) ≡ false
      → load os j (delete_state os i fs).0
        ≡ (if same (file_name i) (file_name j) then ok none else load os j fs)
  unfolding load
  load-delete_state i j fs good named readable =
      rw (named, readable, delete_state-lookup i j fs good)
        (decoded-deleted (same (file_name i) (file_name j)) _)
