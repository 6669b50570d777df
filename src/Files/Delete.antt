-- ===== src/Files/Delete.antt =====
-- deleteAllFiles and deleteDirectory of source/EACopyShared.cpp. A directory is searched once, when
-- its deletion begins. The fuel is the depth of the nesting, and `none` says that it ran out.
use eacopy.Base.{
  ℕ, zero, suc, Bool, true, false, ◌&&◌, not, List, [], ◌∷◌, ◌++◌, Option, none, some, ◌==◌,
  if◌then◌else◌, WString, codes,
}
use eacopy.Paths.{convert_to_short_path, is_dot_or_dot_dot, split_last, backslash}
use eacopy.Os.{
  Os, Entry, not_found, found, error_path_not_found, error_no_more_files, is_readonly, is_directory,
  is_reparse_point,
}
use eacopy.Files.{is_error, delete_file, set_file_writable}

-- The directory's path with a backslash at the end.
unfoldable pub with_backslash : WString → WString
with_backslash directory = elim (split_last backslash directory) [
  | some (before, []) ↦ directory
  | _ ↦ directory ++ backslash ∷ []
]

module _ (w : Os) (error_on_missing_file : Bool) where
  -- How an operation on one entry ends: the loop goes on, or the function returns.
  abbrev Deleted : Type 0
  Deleted = Option Bool × w.State

  unfoldable pub delete_entry_file : WString → ℕ → w.State → Deleted
  delete_entry_file full_name attributes s =
      let (writable, s1) =
        (if is_readonly attributes then set_file_writable w full_name true s else (true, s)) in
      if not writable && is_error (w.last_error s1) error_on_missing_file
      then (some false, s1)
      else (let (deleted, s2) = delete_file w full_name error_on_missing_file s1 in
          (some deleted, s2))

  unfoldable pub delete_entry_link : WString → w.State → Deleted
  delete_entry_link full_name s =
      let (failure, s1) = w.remove_directory (convert_to_short_path full_name) s in
      elim failure [
        | none ↦ (some true, s1)
        | some error ↦ (some (not (is_error error error_on_missing_file)), s1)
      ]

  -- One entry of the directory, where `descend` is deleteDirectory.
  unfoldable pub delete_entry : (WString → w.State → Deleted) → WString → Entry → w.State → Deleted
  unfolding delete_entry_file delete_entry_link
  delete_entry descend dir entry s =
      if not (is_directory entry.attributes)
      then delete_entry_file (dir ++ entry.name) entry.attributes s
      else if is_dot_or_dot_dot entry.name
      then (some true, s)
      else if is_reparse_point entry.attributes
      then delete_entry_link (dir ++ entry.name) s
      else descend (dir ++ entry.name) s

  unfoldable pub delete_entries :
      (WString → w.State → Deleted) → WString → List Entry → ℕ → w.State → Deleted
  delete_entries descend dir [] error s = (some (error == error_no_more_files), s)
  delete_entries descend dir (entry ∷ entries) error s =
      let (gone, s1) = delete_entry descend dir entry s in
      elim gone [
        | none ↦ (none, s1)
        | some false ↦ (some false, s1)
        | some true ↦ delete_entries descend dir entries error s1
      ]

  -- deleteAllFiles, with whether the path was found.
  unfoldable pub delete_all_files_with :
      (WString → w.State → Deleted) → WString → w.State → Deleted × Bool
  unfolding delete_entries
  delete_all_files_with descend directory s =
      let dir = with_backslash directory in
      elim (w.find_files (dir ++ codes "*.*") s) [
        | not_found error ↦
            if error == error_path_not_found
            then ((some true, s), false)
            else ((some false, s), true)
        | found entries error ↦ (delete_entries descend dir entries error s, true)
      ]

  abbrev then_remove : WString → Deleted × Bool → Deleted
  then_remove directory ((none, s), path_found) = (none, s)
  then_remove directory ((some false, s), path_found) = (some false, s)
  then_remove directory ((some true, s), false) = (some true, s)
  then_remove directory ((some true, s), true) =
      let (failure, s1) = w.remove_directory (convert_to_short_path directory) s in
      elim failure [
        | none ↦ (some true, s1)
        | some error ↦ (some (not (is_error error error_on_missing_file)), s1)
      ]

  -- deleteDirectory
  unfoldable pub delete_directory : ℕ → WString → w.State → Deleted
  unfolding delete_all_files_with
  delete_directory zero directory s = (none, s)
  delete_directory (suc depth) directory s =
      then_remove directory (delete_all_files_with (delete_directory depth) directory s)

  unfoldable pub delete_all_files : ℕ → WString → w.State → Deleted
  unfolding delete_directory delete_all_files_with
  delete_all_files depth directory s =
      (delete_all_files_with (delete_directory depth) directory s).0
