-- ===== src/Client/Handle.antt =====
-- What source/EACopyClient.cpp does with a path that it has found: the directories above it are made, and
-- it is queued once. Waiting and the log are left out.
use eacopy.Base.{
  ℕ, zero, suc, ◌-◌, Bool, true, false, ◌&&◌, ◌||◌, not, List, [], ◌∷◌, ◌++◌, Option, none, some,
  length, drop, take, ◌==◌, if◌then◌else◌, WString, is_empty, codes,
}
use eacopy.Keys.{FileInfo}
use eacopy.Paths.{split_last, backslash, file_name_of}
use eacopy.Os.{Os, is_directory, error_file_not_found, error_path_not_found}
use eacopy.Settings.{Settings}
use eacopy.Files.{get_file_info}
use eacopy.Files.Directories.{ensure_directory}
use eacopy.Client.{
  Work, value, failed, fault, stuck, Step, pure, fail, recover, ◌>>=◌, ◌>>◌, change_stats,
  ClientStats, add64, CopyEntry, DirEntry, Libraries, Link, no_link, to_dest, to_source, holds,
  add_path, any_matches, is_ignored_directory,
}
use eacopy.Client.Requests.{send_create_directory_command, send_get_file_attributes}
use eacopy.Client.ProcessFile.{count_fail, count_retry}

unfoldable pub count_directory : ClientStats → ClientStats
count_directory stats = record stats { create_dir_count = add64 stats.create_dir_count 1 }

abbrev add_paths : List WString → List WString → List WString
add_paths [] paths = paths
add_paths (p ∷ ps) paths = add_paths ps (add_path p paths)

abbrev create_directories : {S : Type 0} → List WString → Step S (Unit {0})
create_directories created work =
    (value tt, record work { created_dirs = add_paths created work.created_dirs })

-- A path up to its last backslash.
abbrev pub directory_part : WString → Option WString
directory_part path = elim (split_last backslash path) [
  | none ↦ none
  | some (before, behind) ↦ some (before ++ backslash ∷ [])
]

-- The directories above a path, from itself up, as the loop of addDirectoryToHandledFiles goes over
-- them, over at most as many rounds as are given. It stops at one that is held already.
unfoldable pub handled_above : ℕ → WString → List WString → List WString
unfolding add_path
handled_above zero path handled = handled
handled_above (suc rounds) path handled =
    if holds path handled then handled else elim (directory_part (take (length path - 1) path)) [
      | none ↦ add_path path handled
      | some above ↦ handled_above rounds above (add_path path handled)
    ]

-- What is found of a path, or the error.
pub data Sought : Type 0 where
  there : FileInfo → (attributes : ℕ) → Sought
  not_there : ℕ → Sought

module _ (w : Os) (libraries : Libraries w) (settings : Settings) (link : Link) where
  abbrev pub reaches : Link → Work w.State → Bool
  reaches to_dest work = (elim link [ to_dest ↦ true | _ ↦ false ]) && libraries.is_open work.os
  reaches to_source work = (elim link [ to_source ↦ true | _ ↦ false ]) && libraries.is_open work.os
  reaches no_link work = false

  -- ensureDirectory of the system, as the client calls it: a symbolic link is always replaced, and the
  -- setting for that is given as the other option.
  unfoldable pub make_directory : WString → ℕ → Step w.State (Unit {0})
  make_directory directory attributes work =
      let made =
        ensure_directory w directory attributes true settings.replace_sym_links_at_destination
          work.os in
      if made.usable
      then create_directories made.created (record work { os = made.state })
      else (if made.stuck then stuck else failed, record work { os = made.state })

  -- Client::ensureDirectory
  unfoldable pub ensure_client_directory : WString → ℕ → Step w.State (Unit {0})
  unfolding make_directory
  ensure_client_directory directory attributes work = elim (split_last backslash directory) [
    | none ↦ (if is_empty directory then fault else failed, work)
    | some (before, b ∷ behind) ↦ (failed, work)
    | some (before, []) ↦
        if reaches to_dest work
        then (send_create_directory_command w libraries settings directory >>= create_directories)
            work
        else make_directory directory attributes work
  ]

  -- The loop around ensureDirectory, over the retries that are left.
  unfoldable pub ensure_rounds : ℕ → WString → ℕ → Step w.State (Unit {0})
  unfolding ensure_client_directory
  ensure_rounds zero directory attributes = ensure_client_directory directory attributes
  ensure_rounds (suc retries) directory attributes = λ work.
      recover (change_stats count_retry >> ensure_rounds retries directory attributes)
        (ensure_client_directory directory attributes work)

  abbrev pub handle : List WString → Step w.State (Unit {0})
  handle handled work = (value tt, record work { handled_files = handled })

  -- The rest of the loop over the directories above.
  abbrev climb : WString → Step w.State (Unit {0})
  climb path work = elim (directory_part (take (length path - 1) path)) [
    | none ↦ (value tt, work)
    | some above ↦ handle (handled_above (length path) above work.handled_files) work
  ]

  abbrev pub or_empty : Option WString → WString
  or_empty none = []
  or_empty (some path) = path

  -- What follows the first insertion: the directory is made, and those above it are held.
  unfoldable pub add_new_directory : WString → WString → ℕ → Step w.State (Unit {0})
  unfolding ensure_rounds handled_above
  add_new_directory path dest_full_path attributes = do
    λ work. handle (add_path path work.handled_files) work
    ensure_rounds settings.retry_count (or_empty (directory_part dest_full_path)) attributes
    change_stats count_directory
    climb path

  -- addDirectoryToHandledFiles
  unfoldable pub add_directory_to_handled_files : WString → ℕ → Step w.State (Unit {0})
  unfolding add_new_directory
  add_directory_to_handled_files dest_full_path attributes work =
      elim (directory_part (drop (length settings.dest_directory) dest_full_path)) [
        | none ↦ (value tt, work)
        | some path ↦
            if holds path work.handled_files
            then (value tt, work)
            else add_new_directory path dest_full_path attributes work
      ]

  abbrev pub queue_file : CopyEntry → Step w.State (Unit {0})
  queue_file entry work = (value tt, record work { copy_entries = work.copy_entries ++ entry ∷ [] })

  -- handleFile
  unfoldable pub handle_file : WString → WString → WString → FileInfo → ℕ → Step w.State (Unit {0})
  unfolding add_directory_to_handled_files
  handle_file source_path dest_path file_name file_info attributes work =
      let dest_file_name =
        (if settings.flatten_destination then file_name_of file_name else file_name) in
      let dest_full_path = dest_path ++ dest_file_name in
      let dest_file = drop (length settings.dest_directory) dest_full_path in
      if any_matches libraries.matches dest_full_path settings.exclude_wildcards
      then (value tt, work)
      else if holds dest_file work.handled_files
      then (value tt, work)
      else (add_directory_to_handled_files dest_full_path
              (get_file_info w source_path work.os).attributes
            >> queue_file (record {
              src = source_path ++ file_name;
              dst = dest_file;
              src_info = file_info;
              attributes = attributes;
            }))
          (record work { handled_files = add_path dest_file work.handled_files })

  abbrev pub queue_directory : DirEntry → Step w.State (Unit {0})
  queue_directory entry work =
      (value tt, record work { dir_entries = work.dir_entries ++ entry ∷ [] })

  -- handleDirectory
  unfoldable pub handle_directory :
      WString → WString → WString → WString → ℕ → Step w.State (Unit {0})
  unfolding add_directory_to_handled_files
  handle_directory source_path dest_path directory wildcard depth_left work =
      let new_source = source_path ++ directory ++ backslash ∷ [] in
      let new_dest =
        (if not settings.flatten_destination && not (is_empty directory)
          then dest_path ++ directory ++ backslash ∷ []
          else dest_path) in
      let queue = queue_directory (record {
        source_dir = new_source;
        dest_dir = new_dest;
        wildcard = wildcard;
        depth_left = depth_left;
      }) in
      if is_ignored_directory libraries.matches settings directory
      then (value tt, work)
      else if settings.copy_empty_subdirectories
      then (add_directory_to_handled_files new_dest (get_file_info w new_source work.os).attributes
            >> queue)
          work
      else queue work

  -- handleMissingFile: whether a file may be missing.
  unfoldable pub handle_missing_file : WString → List WString → Bool
  handle_missing_file file_name handled =
      any_matches libraries.matches file_name settings.optional_wildcards
      || (any_matches libraries.matches file_name settings.exclude_wildcards
          || holds file_name handled)

  -- handlePath, for a path that is there.
  unfoldable pub handle_known_path :
      WString → WString → WString → ℕ → FileInfo → Step w.State (Unit {0})
  unfolding handle_file handle_directory
  handle_known_path source_path dest_path file_name attributes file_info =
      if is_directory attributes
      then handle_directory source_path dest_path file_name (codes "*.*") settings.copy_subdir_depth
      else elim file_name [
        | c ∷ name ↦ handle_file source_path dest_path (c ∷ name) file_info attributes
        | [] ↦ elim (split_last backslash source_path) [
          | none ↦ fail
          | some (before, behind) ↦
              handle_file (before ++ backslash ∷ []) dest_path behind file_info attributes
        ]
      ]

  unfoldable pub find_path : WString → WString → Step w.State Sought
  find_path source_path file_name work =
      if reaches to_source work
      then (send_get_file_attributes w libraries file_name >>= λ (info, attributes, error).
            pure (if error == 0 then there info attributes else not_there error))
          work
      else (let r = get_file_info w (source_path ++ file_name) work.os in
          (
            value (if r.attributes == 0 then not_there r.error else there r.info r.attributes),
            work,
          ))

  abbrev is_missing : ℕ → Bool
  is_missing error = error_file_not_found == error || error_path_not_found == error

  -- What a round of handlePath leads to, where `retry` is what follows an error.
  unfoldable pub after_search :
      Step w.State (Unit {0}) → WString → WString → WString → Sought → Step w.State (Unit {0})
  unfolding handle_known_path handle_missing_file
  after_search retry source_path dest_path file_name (there info attributes) work =
      handle_known_path source_path dest_path file_name attributes info work
  after_search retry source_path dest_path file_name (not_there error) work =
      if is_missing error && handle_missing_file file_name work.handled_files
      then (value tt, work)
      else retry work

  -- handlePath, over the retries that are left.
  unfoldable pub handle_path : ℕ → WString → WString → WString → Step w.State (Unit {0})
  unfolding find_path after_search
  handle_path zero source_path dest_path file_name =
      find_path source_path file_name
      >>= after_search (change_stats count_fail) source_path dest_path file_name
  handle_path (suc retries) source_path dest_path file_name =
      find_path source_path file_name
      >>= after_search
          (change_stats count_retry >> handle_path retries source_path dest_path file_name)
          source_path dest_path file_name
