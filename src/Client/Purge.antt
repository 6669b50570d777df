-- ===== src/Client/Purge.antt =====
-- purgeFilesInDirectory of source/EACopyClient.cpp. It runs after all files were handled. Directories are
-- entered to a depth that is given; `stuck` when that does not suffice.
use eacopy.Base.{
  ℕ, zero, suc, Bool, true, false, ◌&&◌, ◌||◌, not, List, [], ◌∷◌, ◌++◌, Option, none, some, length,
  drop, ltb, ◌==◌, if◌then◌else◌, WString, codes, is_empty,
}
use eacopy.Paths.{backslash, is_dot_or_dot_dot}
use eacopy.Os.{
  Os, Entry, not_found, found, is_directory, is_readonly, is_reparse_point, error_file_not_found,
  error_no_more_files,
}
use eacopy.Settings.{Settings}
use eacopy.Files.{delete_file, set_file_writable}
use eacopy.Files.Delete.{delete_directory}
use eacopy.Client.{
  Work, Ended, value, stuck, Step, pure, attempt, ◌>>=◌, Libraries, Link, to_dest, holds,
  is_ignored_directory, is_file_with_attribute_allowed,
}
use eacopy.Client.Requests.{send_delete_all_files}
use eacopy.Client.Handle.{reaches}

module _ (w : Os) (libraries : Libraries w) (settings : Settings) (link : Link) where
  abbrev pub relative_dest : WString → WString
  relative_dest path =
      if ltb (length settings.dest_directory) (length path)
      then drop (length settings.dest_directory) path
      else []

  -- RemoveDirectoryW
  abbrev remove_link : WString → w.State → Bool × w.State
  remove_link path s =
      let (failure, s1) = w.remove_directory path s in
      (elim failure [ none ↦ true | some error ↦ false ], s1)

  abbrev removed : Bool × w.State → Option Bool × w.State
  removed (b, s) = (some b, s)

  -- The deletion of an entry that was not handled.
  unfoldable pub purge_entry : ℕ → WString → Entry → w.State → Option Bool × w.State
  purge_entry depth path entry s =
      if is_directory entry.attributes
      then (if is_reparse_point entry.attributes
          then removed (remove_link (path ++ entry.name) s)
          else delete_directory w false depth (path ++ entry.name) s)
      else removed (
          delete_file w (path ++ entry.name) false (
            if is_readonly entry.attributes
            then (set_file_writable w (path ++ entry.name) true s).1
            else s))

  -- What the code does with an entry.
  pub data Fate : Type 0 where
    spared deleted entered : Fate

  -- The path of an entry as it is kept among the handled ones.
  abbrev pub handled_path : WString → Entry → WString
  handled_path path entry =
      relative_dest path
      ++ entry.name
      ++ (if is_directory entry.attributes then backslash ∷ [] else [])

  unfoldable pub fate_of : List WString → WString → Entry → Fate
  fate_of handled path entry =
      if not (is_directory entry.attributes)
        && not (is_file_with_attribute_allowed settings entry.attributes)
      then spared
      else if is_directory entry.attributes && is_dot_or_dot_dot entry.name
      then spared
      else if holds (handled_path path entry) handled
      then (if is_directory entry.attributes then entered else spared)
      else if is_ignored_directory libraries.matches settings entry.name
      then spared
      else deleted

  abbrev pub of_deletion : Option Bool × w.State → Work w.State → Ended Bool × Work w.State
  of_deletion (none, s) work = (stuck, record work { os = s })
  of_deletion (some b, s) work = (value b, record work { os = s })

  -- An entry, where `enter` purges a directory: whether all went well.
  unfoldable pub purge_one :
      (WString → ℕ → Step w.State Bool) → ℕ → WString → Entry → Step w.State Bool
  unfolding fate_of purge_entry
  purge_one enter depth path entry work = elim (fate_of work.handled_files path entry) [
    | spared ↦ (value true, work)
    | deleted ↦ of_deletion (purge_entry depth path entry work.os) work
    | entered ↦ enter (path ++ entry.name ++ backslash ∷ []) entry.attributes work
  ]

  -- The loop over the entries, which goes on after an error.
  unfoldable pub purge_entries :
      (WString → ℕ → Step w.State Bool) → ℕ → WString → List Entry → Step w.State Bool
  unfolding purge_one
  purge_entries enter depth path [] = pure true
  purge_entries enter depth path (entry ∷ entries) = do
    went ← purge_one enter depth path entry
    rest ← purge_entries enter depth path entries
    pure (went && rest)

  -- The search, when the server cannot delete the directory whole.
  unfoldable pub purge_search : (WString → ℕ → Step w.State Bool) → ℕ → WString → Step w.State Bool
  unfolding purge_entries
  purge_search enter depth path work = elim (w.find_files (path ++ codes "*.*") work.os) [
    | not_found error ↦ (value (error == error_file_not_found), work)
    | found entries error ↦
        (purge_entries enter depth path entries >>= λ went.
        pure (went && error == error_no_more_files))
          work
  ]

  -- purgeFilesInDirectory
  unfoldable pub purge_files_in_directory : ℕ → WString → ℕ → Step w.State Bool
  unfolding purge_search
  purge_files_in_directory zero path attributes = λ work. (stuck, work)
  purge_files_in_directory (suc depth) path attributes =
      let search = purge_search (purge_files_in_directory depth) depth path in
      λ work.
        let relative = relative_dest path in
        let nothing_handled =
          (is_empty relative && is_empty work.handled_files)
          || (not (is_empty relative) && not (holds relative work.handled_files)) in
        if is_reparse_point attributes
        then (value true, work)
        else if reaches w libraries settings link to_dest work && nothing_handled
        then attempt (send_delete_all_files w libraries relative) work
        else search work
