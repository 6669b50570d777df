-- ===== src/Files/Directories.antt =====
-- replaceIfSymLink, ensureDirectory, deleteAllFiles and deleteDirectory of source/EACopyShared.cpp.
use eacopy.Base.{
  ℕ, zero, suc, Bool, true, false, ◌&&◌, not, List, [], ◌∷◌, ◌++◌, none, some, length, ltb, ◌==◌,
  if◌then◌else◌, WString,
}
use eacopy.Paths.{convert_to_short_path, char_at, split_last, backslash}
use eacopy.Os.{
  Os, error_file_not_found, error_path_not_found, error_already_exists, is_directory,
  is_reparse_point,
}
use eacopy.Files.{get_file_info}

-- Whether a directory's path may be used, the directories created, and the new state. `stuck` when
-- the fuel runs out.
pub record Ensured (S : Type 0) : Type 0 where
  pub usable : Bool
  pub stuck : Bool
  pub created : List WString
  pub state : S

-- Without one backslash at the end, unless the path is as short as a root.
unfoldable pub trimmed : WString → WString
trimmed directory =
    if ltb 3 (length directory)
    then elim (split_last backslash directory) [ some (before, []) ↦ before | _ ↦ directory ]
    else directory

module _ (w : Os) where
  abbrev done : Bool → List WString → w.State → Ensured w.State
  done usable created s = record { usable = usable; stuck = false; created = created; state = s }

  -- replaceIfSymLink
  unfoldable pub replace_if_sym_link : WString → ℕ → w.State → Bool × w.State
  replace_if_sym_link directory attributes s =
      if not (is_directory attributes)
      then (false, s)
      else if not (is_reparse_point attributes)
      then (true, s)
      else (let (failure, s1) = w.remove_directory directory s in
          elim failure [
            | some error ↦ (false, s1)
            | none ↦
                let (failure', s2) = w.create_directory directory s1 in
                elim failure' [ none ↦ (true, s2) | some error ↦ (false, s2) ]
          ])

  abbrev replaced : Bool → WString → ℕ → List WString → w.State → Ensured w.State
  replaced false directory attributes created s = done true created s
  replaced true directory attributes created s =
      let (usable, s1) = replace_if_sym_link directory attributes s in done usable created s1

  -- What follows a CreateDirectoryW that succeeded.
  abbrev directory_made : WString → WString → ℕ → List WString → w.State → Ensured w.State
  directory_made directory path attributes created s =
      if not (attributes == 0) && is_directory attributes
      then (let (failure, s1) = w.set_attributes path attributes s in
          elim failure [
            | some error ↦ done false created s1
            | none ↦ done true (created ++ directory ∷ []) s1
          ])
      else done true (created ++ directory ∷ []) s

  -- The end of ensureDirectory, when the parent is there.
  unfoldable pub create_in_parent : WString → ℕ → List WString → w.State → Ensured w.State
  create_in_parent directory attributes created s =
      let path = convert_to_short_path directory in
      let (failure, s1) = w.create_directory path s in
      elim failure [
        | none ↦ directory_made directory path attributes created s1
        | some error ↦ done (error == error_already_exists) created s1
      ]

  -- ensureDirectory from the loop over backslashes on. Each call is on a shorter path.
  unfoldable pub ensure_parents : ℕ → WString → ℕ → Bool → List WString → w.State → Ensured w.State
  unfolding create_in_parent trimmed replace_if_sym_link
  ensure_parents zero path attributes replace created s = record {
    usable = false;
    stuck = true;
    created = created;
    state = s;
  }
  ensure_parents (suc fuel) path attributes replace created s =
      let directory = trimmed path in
      let dir_info = get_file_info w directory s in
      elim (split_last backslash directory) [
        | none ↦ done (char_at directory 1 == b':') created s
        | some (parent, name) ↦
            if is_directory dir_info.attributes
            then replaced replace directory dir_info.attributes created s
            else if not (dir_info.attributes == 0)
            then done false created s
            else if not (dir_info.error == error_file_not_found)
                && not (dir_info.error == error_path_not_found)
            then done false created s
            else (let above = ensure_parents fuel parent attributes false created s in
                elim above.usable [
                  | false ↦ above
                  | true ↦ create_in_parent directory attributes above.created above.state
                ])
      ]

  -- ensureDirectory
  unfoldable pub ensure_directory : WString → ℕ → Bool → Bool → w.State → Ensured w.State
  unfolding ensure_parents
  ensure_directory directory attributes replace expect_creation s =
      let walk = λ (s' : w.State).
        ensure_parents (suc (length directory)) directory attributes replace [] s' in
      if not expect_creation
      then walk s
      else (let (failure, s1) = w.create_directory directory s in
          elim failure [
            | none ↦ directory_made directory directory attributes [] s1
            | some error ↦
                let dir_info = get_file_info w directory s1 in
                if not (error == error_already_exists)
                then walk s1
                else if dir_info.attributes == 0
                then done false [] s1
                else if not (is_directory dir_info.attributes)
                then done false [] s1
                else replaced replace directory dir_info.attributes [] s1
          ])
