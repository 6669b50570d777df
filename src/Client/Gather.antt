-- ===== src/Client/Gather.antt =====
-- gatherFilesOrWildcardsFromFile and processQueuedWildcardFileEntries of source/EACopyClient.cpp: the
-- input files, and the directories they list.
use eacopy.Base.{
  ℕ, Bool, true, false, ◌&&◌, ◌||◌, not, List, [], ◌∷◌, ◌++◌, Option, none, some, length, drop, map,
  ltb, ◌==◌, if◌then◌else◌, WString, codes,
}
use eacopy.Base.Bytes.{Bytes}
use eacopy.Paths.{
  backslash, slash, split_last, to_lower, is_absolute_path, convert_slash_to_backslash,
  equals_ignore_case, starts_with_ignore_case,
}
use eacopy.Os.{Os}
use eacopy.Settings.{Settings}
use eacopy.Client.{
  value, failed, fault, Step, pure, fail, ◌>>=◌, ◌>>◌, change_stats, Libraries, Link, add_path,
  NameAndFileInfo,
}
use eacopy.Client.Arguments.{parse_cmdline}
use eacopy.Client.Lines.{widen, handle_files_or_wildcards_from_file}
use eacopy.Client.Handle.{handle_path, handle_known_path, handle_missing_file}
use eacopy.Client.ProcessFile.{count_fail}
use eacopy.Client.Traverse.{find_files_in_directory}

abbrev less_codes : WString → WString → Bool
less_codes a [] = false
less_codes [] (b ∷ bs) = true
less_codes (a ∷ as') (b ∷ bs) = ltb a b || (a == b && less_codes as' bs)

-- lessIgnoreCase
unfoldable pub less_ignore_case : WString → WString → Bool
less_ignore_case a b = less_codes (map to_lower a) (map to_lower b)

-- An insertion into a set of names, in its order.
unfoldable pub insert_name : WString → List WString → List WString
insert_name name [] = name ∷ []
insert_name name (n ∷ names) =
    let rest = n ∷ insert_name name names in
    if equals_ignore_case name n
    then n ∷ names
    else if less_ignore_case name n
    then name ∷ n ∷ names
    else rest

-- `findFileCache[directory].insert(name)`
unfoldable pub cache_name :
    WString → WString → List (WString × List WString) → List (WString × List WString)
unfolding insert_name
cache_name directory name [] = (directory, name ∷ []) ∷ []
cache_name directory name ((d, names) ∷ cache) =
    let rest = (d, names) ∷ cache_name directory name cache in
    if equals_ignore_case directory d
    then (d, insert_name name names) ∷ cache
    else if less_ignore_case directory d
    then (directory, name ∷ []) ∷ (d, names) ∷ cache
    else rest

-- `lookup.find`
unfoldable pub find_name : WString → List NameAndFileInfo → Option NameAndFileInfo
find_name name [] = none
find_name name (entry ∷ entries) =
    let rest = find_name name entries in
    if equals_ignore_case name entry.name then some entry else rest

module _ (w : Os) (libraries : Libraries w) (settings : Settings) (link : Link) where
  -- The options of a line, of which there is one.
  unfoldable pub gather_options : (purge_dir : WString) → List WString → Step w.State (Unit {0})
  gather_options purge_dir [] work = (value tt, work)
  gather_options purge_dir (option ∷ options) work =
      if starts_with_ignore_case option (codes "/PURGE")
      then gather_options purge_dir options
          (record work { purge_dirs = add_path purge_dir work.purge_dirs })
      else (failed, work)

  -- A path of a line, relative to the source. `none` when it is none of the source's.
  unfoldable pub below_source : (source_path path : WString) → Option WString
  below_source source_path path =
      if is_absolute_path path
      then (if starts_with_ignore_case path source_path
          then some (drop (length source_path) path)
          else if settings.flatten_destination
          then some path
          else none)
      else some path

  -- The path is handled at once or kept for later.
  unfoldable pub gather_path :
      (modified_root_paths : Bool)
      → (source_path dest_path path : WString) → Step w.State (Unit {0})
  unfolding below_source cache_name
  gather_path modified source_path dest_path path = elim (below_source source_path path) [
    | none ↦ fail
    | some relative ↦
        if modified || not settings.use_optimized_wild_card_file_search
        then handle_path w libraries settings link settings.retry_count source_path dest_path
            relative
        else (λ work. (
          value tt,
          record work {
            find_file_cache = (elim (split_last backslash relative) [
              | none ↦ cache_name [] relative work.find_file_cache
              | some (before, behind) ↦
                  cache_name (before ++ backslash ∷ []) behind work.find_file_cache
            ]);
          },
        ))
  ]

  -- The directory to purge for a line with a destination.
  abbrev pub listed_purge_dir : (new_dest : WString) → WString
  listed_purge_dir new_dest = new_dest ++ [] ++ backslash ∷ []

  -- The destination that a line names.
  abbrev pub listed_dest : (dest name : WString) → WString
  listed_dest dest name = dest ++ convert_slash_to_backslash name ++ backslash ∷ []

  abbrev pub starts_option : WString → Bool
  starts_option [] = false
  starts_option (c ∷ cs) = c == slash

  -- The arguments of a line: source [dest] [options].
  unfoldable pub gather_arguments : (source dest : WString) → List WString → Step w.State (Unit {0})
  unfolding gather_options gather_path
  gather_arguments source dest [] = pure tt
  gather_arguments source dest (first ∷ []) =
      gather_path false source dest (convert_slash_to_backslash first)
  gather_arguments source dest (first ∷ second ∷ options) =
      let path = convert_slash_to_backslash first in
      let new_source = (if is_absolute_path path then path else source ++ path) in
      let new_dest = listed_dest dest second in
      if starts_option second
      then gather_options (dest ++ path ++ backslash ∷ []) (second ∷ options)
        >> gather_path false source dest path
      else gather_options (listed_purge_dir new_dest) options
        >> gather_path true new_source new_dest []

  -- What gatherFilesOrWildcardsFromFile does with a line.
  unfoldable pub gather_line : (source dest : WString) → Bytes → Step w.State (Unit {0})
  unfolding gather_arguments
  gather_line source dest line = elim (parse_cmdline line) [
    | none ↦ (λ work. (fault, work))
    | some arguments ↦ gather_arguments source dest (map widen arguments)
  ]

  -- gatherFilesOrWildcardsFromFile
  unfoldable pub gather_files_or_wildcards_from_file :
      ℕ → WString → WString → WString → Step w.State (Unit {0})
  unfolding gather_line
  gather_files_or_wildcards_from_file rounds source file_name dest =
      handle_files_or_wildcards_from_file w libraries settings link settings.retry_count
        (gather_line source dest) rounds source file_name dest

  -- The names of a directory, each looked up among what was found there.
  unfoldable pub process_names :
      (source dest directory : WString)
      → List NameAndFileInfo
      → List WString
      → Step w.State (Unit {0})
  unfolding find_name
  process_names source dest directory found [] work = (value tt, work)
  process_names source dest directory found (name ∷ names) work = elim (find_name name found) [
    | some entry ↦
        (handle_known_path w libraries settings link source dest (directory ++ name)
              entry.attributes entry.info
            >> process_names source dest directory found names)
          work
    | none ↦
        if handle_missing_file w libraries settings link (directory ++ name) work.handled_files
        then process_names source dest directory found names work
        else (change_stats count_fail >> fail) work
  ]

  -- processQueuedWildcardFileEntries
  unfoldable pub process_entries :
      ℕ → (source dest : WString) → List (WString × List WString) → Step w.State (Unit {0})
  unfolding process_names
  process_entries rounds source dest [] = pure tt
  process_entries rounds source dest ((directory, names) ∷ cache) =
      find_files_in_directory w libraries settings link rounds (source ++ directory) >>= λ found.
      process_names source dest directory found names >> process_entries rounds source dest cache
