-- ===== src/Files.antt =====
-- source/EACopyShared.cpp: the operations on files and directories, on Windows. Counters, timers and
-- log lines are left out. A function that returns bool gives its result and the new state.
pub mod Directories
pub mod Delete
pub mod Links
pub mod InMemory
mod Tests
pub mod Writable
pub mod Ensure
pub mod Copy
pub mod CopyContent
use eacopy.Base.{
  ℕ, zero, suc, ◌-◌, ◌*◌, ◌/◌, Bool, true, false, ◌&&◌, ◌||◌, not, List, [], ◌∷◌, ◌++◌, Option,
  none, some, length, ltb, ◌==◌, if◌then◌else◌, WString, codes,
}
use eacopy.Keys.{FileInfo, no_time, equals}
use eacopy.Paths.{convert_to_short_path, is_dot_or_dot_dot, char_at, split_last, backslash}
use eacopy.Os.{
  Os, Stat, missing, present, Entry, Listing, not_found, found, error_file_not_found,
  error_path_not_found, error_already_exists, error_file_exists, error_no_more_files, is_readonly,
  is_directory, is_reparse_point,
}

abbrev pub no_info : FileInfo
no_info = record { creation_time = no_time; last_write_time = no_time; file_size = 0 }

-- What getFileInfo returns and fills in, and the last error.
pub record Info : Type 0 where
  pub attributes : ℕ
  pub info : FileInfo
  pub error : ℕ

abbrev info_of : Stat → Info
info_of (missing e) = record { attributes = 0; info = no_info; error = e }
info_of (present a i) = record {
  attributes = a;
  info = record i { creation_time = no_time };
  error = 0;
}

-- isError
unfoldable pub is_error : ℕ → Bool → Bool
is_error error error_on_missing_file =
    error_on_missing_file
    || (not (error_file_not_found == error) && not (error_path_not_found == error))

module _ (w : Os) where
  -- getFileInfo(FileInfo&, const wchar_t*, IOStats&)
  unfoldable pub get_file_info : WString → w.State → Info
  get_file_info full_file_name s = info_of (w.stat (convert_to_short_path full_file_name) s)

  -- deleteFile
  unfoldable pub delete_file : WString → Bool → w.State → Bool × w.State
  unfolding is_error
  delete_file full_path error_on_missing_file s =
      let (failure, s1) = w.delete_file (convert_to_short_path full_path) s in
      elim failure [
        | none ↦ (true, s1)
        | some error ↦ (not (is_error error error_on_missing_file), s1)
      ]

  -- moveFile
  unfoldable pub move_file : WString → WString → w.State → Bool × w.State
  move_file source dest s =
      let (failure, s1) = w.move_file source dest s in
      elim failure [ none ↦ (true, s1) | some error ↦ (false, s1) ]

  abbrev pub attributes_set : Option ℕ × w.State → Bool × w.State
  attributes_set (none, s) = (true, s)
  attributes_set (some error, s) = (false, s)

  -- setFileWritable. The error it tests is the last one before it, as GetFileAttributesW sets none
  -- when it succeeds.
  unfoldable pub set_file_writable : WString → Bool → w.State → Bool × w.State
  set_file_writable full_path writable s =
      let path = convert_to_short_path full_path in
      elim (w.stat path s) [
        | missing error ↦ (true, s)
        | present attributes i ↦
            if w.last_error s == error_file_not_found
            then (true, s)
            else if writable
            then (if is_readonly attributes
                then attributes_set (w.set_attributes path (attributes - 1) s)
                else (true, s))
            else (if not (is_readonly attributes)
                then attributes_set
                    (w.set_attributes path (if is_readonly attributes then 1 else 0) s)
                else (true, s))
      ]

  -- setFileHidden
  unfoldable pub set_file_hidden : WString → Bool → w.State → Bool × w.State
  set_file_hidden full_path hidden s =
      attributes_set
        (w.set_attributes (convert_to_short_path full_path) (if hidden then 2 else 128) s)

  -- What createFileLink returns and fills in; `stuck` when the rounds given run out.
  pub data Link : Type 0 where
    linked skipped refused stuck : Link

  -- createFileLink, over the rounds of its loop.
  unfoldable pub link_rounds : ℕ → WString → FileInfo → WString → Bool → w.State → Link × w.State
  unfolding get_file_info
  link_rounds zero full_path info source_path delete_and_retry s = (stuck, s)
  link_rounds (suc rounds) full_path info source_path delete_and_retry s =
      let (failure, s1) = w.create_hard_link full_path source_path s in
      elim failure [
        | none ↦ (linked, s1)
        | some error ↦
            if not (error == error_already_exists)
            then (refused, s1)
            else if equals info (get_file_info full_path s1).info
            then (skipped, s1)
            else if not delete_and_retry
            then (refused, s1)
            else (let (deleted, s2) = delete_file full_path true s1 in
                elim deleted [
                  | false ↦ (refused, s2)
                  | true ↦ link_rounds rounds full_path info source_path delete_and_retry s2
                ])
      ]

  unfoldable pub create_file_link :
      WString → FileInfo → WString → Bool → ℕ → w.State → Link × w.State
  unfolding link_rounds
  create_file_link full_path info source_path delete_and_retry rounds s =
      link_rounds rounds (convert_to_short_path full_path) info (convert_to_short_path source_path)
        delete_and_retry s

  -- What copyFile returns and fills in.
  pub data Copied : Type 0 where
    copied : ℕ → Copied
    existed not_copied : Copied

  -- copyFile with useSystemCopy.
  unfoldable pub system_copy_file : WString → FileInfo → WString → Bool → w.State → Copied × w.State
  unfolding set_file_writable
  system_copy_file source source_info dest fail_if_exists s =
      let source' = convert_to_short_path source in
      let dest' = convert_to_short_path dest in
      let (_, s1) = set_file_writable dest' true s in
      let (failure, s2) = w.copy_file source' dest' fail_if_exists s1 in
      elim failure [
        | none ↦ (copied source_info.file_size, s2)
        | some error ↦ (if error == error_file_exists then existed else not_copied, s2)
      ]
