-- ===== src/Server/Listing.antt =====
-- CommandType_FindFiles and CommandType_GetFileInfo of source/EACopyServer.cpp. `buffer_size` is
-- CopyContextBufferSize.
use eacopy.Base.{
  ℕ, ◌+◌, ◌*◌, Bool, ◌&&◌, not, List, [], ◌∷◌, ◌++◌, length, leb, ◌==◌, if◌then◌else◌, WString,
}
use eacopy.Base.Bytes.{Bytes, le, text_bytes}
use eacopy.Keys.{FileTime}
use eacopy.Paths.{is_dot_or_dot_dot}
use eacopy.Os.{Os, Entry, found, not_found, error_no_more_files, is_directory}
use eacopy.Files.{get_file_info}
use eacopy.Server.{Connection, value, fault, Step, pure, give_up, ◌>>=◌, ◌>>◌, send_or_close}

abbrev pub name_bytes : Entry → ℕ
name_bytes entry = (length entry.name + 1) * 2

abbrev time_bytes : FileTime → Bytes
time_bytes t = le 4 t.low ++ le 4 t.high

-- An entry as it stands in the buffer, its name with the terminator.
unfoldable pub entry_bytes : Entry → Bytes
entry_bytes entry =
    le 4 entry.attributes
    ++ (time_bytes entry.info.last_write_time
        ++ (le 8 entry.info.file_size ++ (text_bytes entry.name ++ 0 ∷ 0 ∷ [])))

abbrev pub is_left_out : Entry → Bool
is_left_out entry = is_directory entry.attributes && is_dot_or_dot_dot entry.name

-- The bytes of all entries that are not left out.
abbrev pub listing_bytes : List Entry → Bytes
listing_bytes [] = []
listing_bytes (entry ∷ entries) =
    let rest = listing_bytes entries in
    if is_left_out entry then rest else entry_bytes entry ++ rest

module _ (w : Os) (connection : Connection) (buffer_size : ℕ) where
  -- The lambda writeBlock, which leaves the buffer empty.
  unfoldable pub write_block : Bytes → Step w.State Bytes
  write_block buffer = do send_or_close w (le 4 (length buffer)); send_or_close w buffer; pure []

  -- An entry written behind the buffer's contents. The buffer is the first of three in one allocation of
  -- CopyContext; past the end of that this is undefined behaviour.
  unfoldable pub append_entry : Entry → Bytes → Step w.State Bytes
  append_entry entry buffer world =
      if leb (length (buffer ++ entry_bytes entry)) (3 * buffer_size)
      then (value (buffer ++ entry_bytes entry), world)
      else (fault, world)

  -- A round of the loop.
  unfoldable pub add_entry : Entry → Bytes → Step w.State Bytes
  unfolding write_block append_entry
  add_entry entry buffer =
      if is_left_out entry
      then pure buffer
      else if leb buffer_size (name_bytes entry + 20)
      then (write_block buffer >>= append_entry entry)
      else append_entry entry buffer

  unfoldable pub add_entries : List Entry → Bytes → Step w.State Bytes
  unfolding add_entry
  add_entries [] buffer = pure buffer
  add_entries (entry ∷ entries) buffer = add_entry entry buffer >>= add_entries entries

  -- The end of the loop: the last block, and an empty one.
  unfoldable pub end_listing : ℕ → Bytes → Step w.State (Unit {0})
  unfolding write_block
  end_listing error buffer =
      if not (error == error_no_more_files)
      then give_up
      else (write_block buffer >>= λ empty. write_block empty >>= λ empty'. pure tt)

  unfoldable pub find_files_command : WString → Step w.State (Unit {0})
  unfolding add_entries end_listing
  find_files_command path world = elim (w.find_files (connection.server_path ++ path) world.os) [
    | not_found error ↦ send_or_close w (le 4 4294967295) world
    | found entries error ↦ (add_entries entries [] >>= end_listing error) world
  ]

  -- The attributes and the error stand behind the file's times and size. A failing send is passed over.
  unfoldable pub get_file_info_command : WString → Step w.State (Unit {0})
  get_file_info_command path world =
      let r = get_file_info w (connection.server_path ++ path) world.os in
      let bytes =
        time_bytes r.info.creation_time
        ++ (time_bytes r.info.last_write_time
            ++ (le 8 r.info.file_size
                ++ (le 4 r.attributes ++ le 4 (if r.attributes == 0 then r.error else 0)))) in
      let (ended, world') = send_or_close w bytes world in (value tt, world')
