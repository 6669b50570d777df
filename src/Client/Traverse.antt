-- ===== src/Client/Traverse.antt =====
-- traverseFilesInDirectory and findFilesInDirectory of source/EACopyClient.cpp.
use eacopy.Base.{
  ℕ, zero, suc, ◌-◌, Bool, true, false, ◌&&◌, ◌||◌, not, List, [], ◌∷◌, ◌++◌, Option, none, some,
  length, drop, ltb, ◌==◌, if◌then◌else◌, WString, codes,
}
use eacopy.Paths.{is_dot_or_dot_dot}
use eacopy.Os.{Os, Entry, not_found, found, is_directory, error_file_not_found, error_no_more_files}
use eacopy.Settings.{Settings}
use eacopy.Keys.{FileInfo, no_time}
use eacopy.Client.{
  value, failed, Step, pure, fail, attempt, ◌>>=◌, ◌>>◌, change_stats, Libraries, Link, to_source,
  NameAndFileInfo, is_file_with_attribute_allowed,
}
use eacopy.Client.Requests.{send_find_files}
use eacopy.Client.ProcessFile.{count_retry}
use eacopy.Client.Handle.{reaches, handle_file, handle_directory}

-- getFileInfo of a search's entry leaves the creation time out.
abbrev pub entry_info : Entry → FileInfo
entry_info entry = record entry.info { creation_time = no_time }

unfoldable pub has_star : WString → Bool
has_star [] = false
has_star (c ∷ text) = c == b'*' || has_star text

module _ (w : Os) (libraries : Libraries w) (settings : Settings) (link : Link) where
  abbrev relative : WString → WString
  relative path =
      if ltb (length settings.source_directory) (length path)
      then drop (length settings.source_directory) path
      else []

  -- The files of a server's answer.
  unfoldable pub handle_files : WString → WString → List NameAndFileInfo → Step w.State (Unit {0})
  handle_files source_path dest_path [] = pure tt
  handle_files source_path dest_path (file ∷ files) =
      (if is_directory file.attributes
        then pure tt
        else handle_file w libraries settings link source_path dest_path file.name file.info
            file.attributes)
      >> handle_files source_path dest_path files

  -- The directories of a server's answer.
  unfoldable pub handle_directories :
      WString → WString → WString → ℕ → List NameAndFileInfo → Step w.State (Unit {0})
  handle_directories source_path dest_path wildcard depth [] = pure tt
  handle_directories source_path dest_path wildcard depth (file ∷ files) =
      (if is_directory file.attributes && not (depth == 0)
        then handle_directory w libraries settings link source_path dest_path file.name wildcard
            (depth - 1)
        else pure tt)
      >> handle_directories source_path dest_path wildcard depth files

  unfoldable pub traverse_by_server : ℕ → WString → WString → WString → ℕ → Step w.State (Unit {0})
  unfolding handle_files handle_directories
  traverse_by_server rounds source_path dest_path wildcard depth = do
    files ← send_find_files w libraries rounds (relative source_path ++ wildcard)
    handle_files source_path dest_path files
    directories ← send_find_files w libraries rounds (relative source_path ++ codes "*.*")
    handle_directories source_path dest_path wildcard depth directories

  -- findFirstFile, over the retries that are left. `may_be_missing` tells which errors end the search
  -- with nothing found.
  unfoldable pub search_rounds : ℕ → (ℕ → Bool) → WString → Step w.State (Option (List Entry × ℕ))
  search_rounds zero may_be_missing path = λ work. elim (w.find_files path work.os) [
    | found entries error ↦ (value (some (entries, error)), work)
    | not_found error ↦ if may_be_missing error then (value none, work) else (failed, work)
  ]
  search_rounds (suc retries) may_be_missing path =
      let rest = change_stats count_retry >> search_rounds retries may_be_missing path in
      λ work. elim (w.find_files path work.os) [
        | found entries error ↦ (value (some (entries, error)), work)
        | not_found error ↦ if may_be_missing error then (value none, work) else rest work
      ]

  -- An entry of the search.
  unfoldable pub handle_entry : WString → WString → WString → ℕ → Entry → Step w.State (Unit {0})
  handle_entry source_path dest_path wildcard depth entry =
      if is_directory entry.attributes
      then (if not (depth == 0) && not (is_dot_or_dot_dot entry.name)
          then handle_directory w libraries settings link source_path dest_path entry.name wildcard
              (depth - 1)
          else pure tt)
      else if is_file_with_attribute_allowed settings entry.attributes
          && libraries.matches entry.name wildcard
      then handle_file w libraries settings link source_path dest_path entry.name (entry_info entry)
          entry.attributes
      else pure tt

  unfoldable pub handle_entries :
      WString → WString → WString → ℕ → List Entry → Step w.State (Unit {0})
  unfolding handle_entry
  handle_entries source_path dest_path wildcard depth [] = pure tt
  handle_entries source_path dest_path wildcard depth (entry ∷ entries) =
      handle_entry source_path dest_path wildcard depth entry
      >> handle_entries source_path dest_path wildcard depth entries

  abbrev ended_well : ℕ → Step w.State (Unit {0})
  ended_well error = if error == error_no_more_files then pure tt else fail

  unfoldable pub traverse_by_search : WString → WString → WString → ℕ → Step w.State (Unit {0})
  unfolding search_rounds handle_entries has_star
  traverse_by_search source_path dest_path wildcard depth =
      search_rounds settings.retry_count
        (λ error. error == error_file_not_found && has_star wildcard)
        (source_path ++ (if has_star wildcard then codes "*.*" else wildcard))
      >>= λ listing. elim listing [
        | none ↦ pure tt
        | some (entries, error) ↦
            (handle_entries source_path dest_path wildcard depth entries >> ended_well error)
      ]

  -- traverseFilesInDirectory
  unfoldable pub traverse_files_in_directory :
      ℕ → WString → WString → WString → ℕ → Step w.State (Unit {0})
  unfolding traverse_by_server traverse_by_search
  traverse_files_in_directory rounds source_path dest_path wildcard depth work =
      if reaches w libraries settings link to_source work
      then traverse_by_server rounds source_path dest_path wildcard depth work
      else traverse_by_search source_path dest_path wildcard depth work

  -- What findFilesInDirectory keeps of a search.
  unfoldable pub allowed_entries : List Entry → List NameAndFileInfo
  allowed_entries [] = []
  allowed_entries (entry ∷ entries) =
      let rest = allowed_entries entries in
      if not (is_directory entry.attributes)
        && not (is_file_with_attribute_allowed settings entry.attributes)
      then rest
      else if is_directory entry.attributes && is_dot_or_dot_dot entry.name
      then rest
      else (record { name = entry.name; info = entry_info entry; attributes = entry.attributes })
        ∷ rest

  -- findFilesInDirectory
  unfoldable pub find_files_in_directory : ℕ → WString → Step w.State (List NameAndFileInfo)
  unfolding search_rounds allowed_entries
  find_files_in_directory rounds path work =
      if reaches w libraries settings link to_source work
      then send_find_files w libraries rounds (relative path ++ codes "*.*") work
      else (search_rounds settings.retry_count (λ error. false) (path ++ codes "*.*") >>= λ listing.
            elim listing [
              | none ↦ pure []
              | some (entries, error) ↦ (ended_well error >> pure (allowed_entries entries))
            ])
          work

  -- processDir: false when there is no directory in the queue.
  unfoldable pub process_dir : ℕ → Step w.State Bool
  unfolding traverse_files_in_directory
  process_dir rounds work = elim work.dir_entries [
    | [] ↦ (value false, work)
    | entry ∷ entries ↦
        (attempt (
              traverse_files_in_directory rounds entry.source_dir entry.dest_dir entry.wildcard
                entry.depth_left)
            >>= λ went. pure true)
          (record work { dir_entries = entries })
  ]
