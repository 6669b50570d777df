-- ===== src/Client/Requests.antt =====
-- Client::Connection of source/EACopyClient.cpp: the commands for directories and file infos.
use eacopy.Base.{
  ℕ, zero, suc, ◌+◌, ◌-◌, ◌*◌, List, [], ◌∷◌, ◌++◌, Option, none, some, length, drop, take, ltb,
  leb, ◌==◌, if◌then◌else◌, WString,
}
use eacopy.Base.Bytes.{Bytes, from_le, read_number}
use eacopy.Keys.{FileInfo, FileTime, no_time}
use eacopy.Paths.{split_last, backslash}
use eacopy.Os.{Os}
use eacopy.Settings.{Settings}
use eacopy.Client.{
  value, fault, stuck, Step, pure, fail, ◌>>=◌, ◌>>◌, send_or_fail, receive_or_fail, Request,
  create_dir, delete_files, find_files, get_file_info, Libraries, buffer_size, max_path,
  NameAndFileInfo,
}

-- A directory without its last name.
unfoldable pub directory_above : WString → WString
directory_above directory = elim (split_last backslash (take (length directory - 1) directory)) [
  | none ↦ []
  | some (before, behind) ↦ before ++ backslash ∷ []
]

-- The directories that a response counts, from the lowest up. The length of an empty path is not
-- lowered.
unfoldable pub created_above : ℕ → WString → Option (List WString)
created_above zero directory = some []
created_above (suc zero) directory = some (directory ∷ [])
created_above (suc (suc count)) [] = none
created_above (suc (suc count)) (c ∷ directory) =
    elim (created_above (suc count) (directory_above (c ∷ directory))) [
      | none ↦ none
      | some above ↦ some ((c ∷ directory) ∷ above)
    ]

-- The text up to the terminator, and what stands behind it; `none` without a terminator.
unfoldable pub take_name : Bytes → Option (WString × Bytes)
take_name [] = none
take_name (b ∷ []) = none
take_name (b ∷ c ∷ bytes) =
    let rest = take_name bytes in
    if b + 256 * c == 0
    then some ([], bytes)
    else elim rest [ none ↦ none | some (name, behind) ↦ some ((b + 256 * c) ∷ name, behind) ]

abbrev pub named : ℕ → FileTime → ℕ → Option (WString × Bytes) → Option (NameAndFileInfo × Bytes)
named attributes time size none = none
named attributes time size (some (name, behind)) = some (
  record {
    name = name;
    info = record { creation_time = no_time; last_write_time = time; file_size = size };
    attributes = attributes;
  },
  behind,
)

abbrev pub behind_size : ℕ → FileTime → Option (ℕ × Bytes) → Option (NameAndFileInfo × Bytes)
behind_size attributes time none = none
behind_size attributes time (some (size, bytes)) = named attributes time size (take_name bytes)

abbrev pub behind_high : ℕ → ℕ → Option (ℕ × Bytes) → Option (NameAndFileInfo × Bytes)
behind_high attributes low none = none
behind_high attributes low (some (high, bytes)) =
    behind_size attributes (record { low = low; high = high }) (read_number 8 bytes)

abbrev pub behind_low : ℕ → Option (ℕ × Bytes) → Option (NameAndFileInfo × Bytes)
behind_low attributes none = none
behind_low attributes (some (low, bytes)) = behind_high attributes low (read_number 4 bytes)

abbrev pub behind_attributes : Option (ℕ × Bytes) → Option (NameAndFileInfo × Bytes)
behind_attributes none = none
behind_attributes (some (attributes, bytes)) = behind_low attributes (read_number 4 bytes)

-- An entry of a block, and what stands behind it.
unfoldable pub parse_entry : Bytes → Option (NameAndFileInfo × Bytes)
unfolding take_name
parse_entry bytes = behind_attributes (read_number 4 bytes)

-- The loop over a block, over as many rounds as it has bytes. A block that does not end with an entry
-- is read past its end.
unfoldable pub parse_block : ℕ → Bytes → Option (List NameAndFileInfo)
unfolding parse_entry
parse_block rounds [] = some []
parse_block zero (b ∷ bytes) = none
parse_block (suc rounds) (b ∷ bytes) = elim (parse_entry (b ∷ bytes)) [
  | none ↦ none
  | some (entry, behind) ↦ elim (parse_block rounds behind) [
    | none ↦ none
    | some entries ↦ some (entry ∷ entries)
  ]
]

abbrev pub of_option : {S A : Type 0} → Option A → Step S A
of_option none work = (fault, work)
of_option (some a) work = (value a, work)

module _ (w : Os) (libraries : Libraries w) where
  -- sendCommand, behind the copy of a path into the command.
  unfoldable pub send_request : Request → WString → Step w.State (Unit {0})
  send_request request path =
      if leb max_path (length path) then fail else send_or_fail w (libraries.layout request)

  -- sendCreateDirectoryCommand: the directories that were created.
  unfoldable pub send_create_directory_command : Settings → WString → Step w.State (List WString)
  unfolding send_request created_above
  send_create_directory_command settings directory = do
    let relative = drop (length settings.dest_directory) directory
    send_request (create_dir relative) relative
    bytes ← receive_or_fail w 1
    let response = from_le bytes
    if response == 1
        then fail
        else if response == 0
        then fail
        else of_option (created_above (response - 2) directory)

  -- sendDeleteAllFiles
  unfoldable pub send_delete_all_files : WString → Step w.State (Unit {0})
  unfolding send_request
  send_delete_all_files dir = do
    send_request (delete_files dir) dir
    bytes ← receive_or_fail w 1
    if from_le bytes == 2 then fail else if from_le bytes == 1 then fail else pure tt

  -- The loop of sendFindFiles over the blocks. The buffer for a block is the first of three in one
  -- allocation; a block that is larger than these is received past their end.
  unfoldable pub receive_blocks : ℕ → List NameAndFileInfo → Step w.State (List NameAndFileInfo)
  unfolding parse_block
  receive_blocks zero files = λ work. (stuck, work)
  receive_blocks (suc rounds) files = do
    bytes ← receive_or_fail w 4
    let size = from_le bytes
    if size == 0
        then pure files
        else if size == 4294967295
        then fail
        else if ltb (3 * buffer_size) size
        then (λ work. (fault, work))
        else (do
          block ← receive_or_fail w size
          entries ← of_option (parse_block size block)
          receive_blocks rounds (files ++ entries))

  -- sendFindFiles
  unfoldable pub send_find_files : ℕ → WString → Step w.State (List NameAndFileInfo)
  unfolding send_request receive_blocks
  send_find_files rounds path = do send_request (find_files path) path; receive_blocks rounds []

  abbrev time_of : Bytes → FileTime
  time_of bytes = record { low = from_le (take 4 bytes); high = from_le (take 4 (drop 4 bytes)) }

  -- What stands in the buffer that sendGetFileAttributes receives: info, attributes and error.
  unfoldable pub decode_file_info : Bytes → FileInfo × ℕ × ℕ
  decode_file_info bytes = (
    record {
      creation_time = time_of bytes;
      last_write_time = time_of (drop 8 bytes);
      file_size = from_le (take 8 (drop 16 bytes));
    },
    from_le (take 4 (drop 24 bytes)),
    from_le (take 4 (drop 28 bytes)),
  )

  -- sendGetFileAttributes
  unfoldable pub send_get_file_attributes : WString → Step w.State (FileInfo × ℕ × ℕ)
  unfolding send_request decode_file_info
  send_get_file_attributes path = do
    send_request (get_file_info path) path
    bytes ← receive_or_fail w 32
    pure (decode_file_info bytes)
