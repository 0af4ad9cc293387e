-- ===== src/Persistence/StateStore.antt =====
-- The StateStore of internal/persistence/state.go over the files of its directory. The lock makes
-- every method run as a whole.
use cannectors.Prelude.{
  Bool, Option, none, some, List, [], ◌∷◌, ◌++◌, Text, codes, is_blank, is_some, ◌==◌,
  if◌then◌else◌, Result, ok, err,
}
use cannectors.Prelude.Assoc.{lookup, assign, delete}
use cannectors.Persistence.Config.{State}

pub data StoreError : Type 0 where
  invalid_pipeline_id nil_state no_directory not_encoded not_written not_renamed not_read
        not_decoded not_removed :
      StoreError

-- the files of the directory by name
abbrev pub Files : Type 0
Files = List (Text × Text)

-- How a write ends: done, or failed with the file as it was or with other bytes in it.
pub data Write : Type 0 where
  written : Write
  untouched : Write
  torn : Text → Write

-- The calls of os and encoding/json: which of them fail, by file name where there is one.
pub record Os : Type 0 where
  pub make_dir_fails : Bool
  pub write : Text → Write
  pub rename_fails : Bool
  pub remove_fails : Text → Bool
  pub read_fails : Text → Bool
  pub encode : State → Option Text
  pub decode : Text → Option State

-- what follows the last slash of a name without slashes at its end
unfoldable pub after_slash : Text → Text → Text
after_slash kept [] = kept
after_slash kept (c ∷ s) =
    let cut = after_slash [] s in
    let more = after_slash (kept ++ (c ∷ [])) s in if c == b'/' then cut else more

-- without the slashes at its end
unfoldable pub trim_slashes : Text → Text
trim_slashes [] = []
trim_slashes (c ∷ s) =
    let rest = trim_slashes s in
    if is_blank rest then (if c == b'/' then [] else c ∷ []) else c ∷ rest

-- filepath.Base on Unix
unfoldable pub base : Text → Text
unfolding trim_slashes after_slash
base s =
    if is_blank s
    then codes "."
    else if is_blank (trim_slashes s)
    then codes "/"
    else after_slash [] (trim_slashes s)

-- filePath, as a name in the directory
unfoldable pub file_name : Text → Text
unfolding base
file_name id = base id ++ codes ".json"

abbrev pub temp_name : Text → Text
unfolding file_name
temp_name id = file_name id ++ codes ".tmp"

module _ (os : Os) where
  unfoldable pub remove_file : Text → Files → Files
  unfolding delete
  remove_file name fs = if os.remove_fails name then fs else delete name fs

  -- the rename of the temporary file, which is removed if that fails
  unfoldable pub rename_file : Text → Text → Files → Files × Option StoreError
  unfolding remove_file assign delete
  rename_file id bytes fs =
      if os.rename_fails
      then (remove_file (temp_name id) fs, some not_renamed)
      else (assign (file_name id) bytes (delete (temp_name id) fs), none)

  unfoldable pub after_write : Write → Text → Text → Files → Files × Option StoreError
  unfolding rename_file assign
  after_write written id bytes fs = rename_file id bytes (assign (temp_name id) bytes fs)
  after_write untouched id bytes fs = (fs, some not_written)
  after_write (torn other) id bytes fs = (assign (temp_name id) other fs, some not_written)

  unfoldable pub save_bytes : Text → Option Text → Files → Files × Option StoreError
  unfolding after_write
  save_bytes id none fs = (fs, some not_encoded)
  save_bytes id (some bytes) fs = after_write (os.write (temp_name id)) id bytes fs

  -- Save; the state is stored under the pipeline's ID.
  unfoldable pub save : Text → Option State → Files → Files × Option StoreError
  unfolding save_bytes
  save id none fs = (fs, some (if is_blank id then invalid_pipeline_id else nil_state))
  save id (some s) fs =
      if is_blank id
      then (fs, some invalid_pipeline_id)
      else if os.make_dir_fails
      then (fs, some no_directory)
      else save_bytes id (os.encode (record s { pipeline_id = id })) fs

  unfoldable pub decoded : Option Text → Result StoreError (Option State)
  decoded none = ok none
  decoded (some bytes) = elim (os.decode bytes) [ none ↦ err not_decoded | some s ↦ ok (some s) ]

  -- Load; a missing file is no error.
  unfoldable pub load : Text → Files → Result StoreError (Option State)
  unfolding decoded lookup
  load id fs =
      if is_blank id
      then err invalid_pipeline_id
      else if os.read_fails (file_name id)
      then err not_read
      else decoded (lookup (file_name id) fs)

  unfoldable pub delete_found : Text → Option Text → Files → Files × Option StoreError
  unfolding delete
  delete_found id none fs = (fs, none)
  delete_found id (some bytes) fs =
      if os.remove_fails (file_name id)
      then (fs, some not_removed)
      else (delete (file_name id) fs, none)

  -- Delete; a missing file is no error.
  unfoldable pub delete_state : Text → Files → Files × Option StoreError
  unfolding delete_found lookup
  delete_state id fs =
      if is_blank id
      then (fs, some invalid_pipeline_id)
      else delete_found id (lookup (file_name id) fs) fs

  -- Exists
  unfoldable pub exists : Text → Files → Result StoreError Bool
  unfolding lookup
  exists id fs =
      if is_blank id
      then err invalid_pipeline_id
      else if os.read_fails (file_name id)
      then err not_read
      else ok (is_some (lookup (file_name id) fs))
