-- ===== src/Server/Write.antt =====
-- CommandType_WriteFile of source/EACopyServer.cpp, without EACOPY_ALLOW_RSYNC. Counters are left out.
use eacopy.Base.{
  ℕ, Bool, true, false, ◌&&◌, ◌||◌, not, List, [], ◌∷◌, ◌++◌, Option, none, some, take, drop, leb,
  ◌==◌, if◌then◌else◌, WString, is_empty, text_eq,
}
use eacopy.Base.Bytes.{Bytes, from_le}
use eacopy.Keys.{Hash, no_hash, FileInfo, FileKey, equals}
use eacopy.Database.{FileRec, get_record, get_record_of_hash, add_to_files_history}
use eacopy.Paths.{split_last, backslash, file_name_of, equals_ignore_case}
use eacopy.Os.{Os, is_readonly}
use eacopy.Files.{
  Info, get_file_info, set_file_writable, Link, linked, skipped, refused, create_file_link, copied,
  system_copy_file,
}
use eacopy.Network.Transfer.{
  finished, given_up, unfinished, WriteType, compressed, Decompressed, receive_file,
}
use eacopy.Server.{
  ServerSettings, Connection, value, closed, fault, stuck, Step, pure, ◌>>=◌, ◌>>◌, call,
  change_database, send_or_close, receive_or_close, get_use_buffered_io,
}

pub data WriteResponse : Type 0 where
  copy copy_delta copy_using_smb link odx skip hash_wanted bad_destination : WriteResponse

-- The byte that is sent for a response.
abbrev pub response_byte : WriteResponse → ℕ
response_byte copy = 0
response_byte copy_delta = 1
response_byte copy_using_smb = 2
response_byte link = 3
response_byte odx = 4
response_byte skip = 5
response_byte hash_wanted = 6
response_byte bad_destination = 7

pub record WriteCommand : Type 0 where
  pub write_type : WriteType
  pub info : FileInfo
  pub path : WString

-- The response and the hash that the handler has found so far.
pub record Decision : Type 0 where
  pub response : WriteResponse
  pub hash : Hash

abbrev pub is_compressed : WriteType → Bool
is_compressed compressed = true
is_compressed _ = false

abbrev pub copies : WriteResponse → Bool
copies copy = true
copies copy_using_smb = true
copies _ = false

abbrev pub is_settled : WriteResponse → Bool
is_settled link = true
is_settled odx = true
is_settled skip = true
is_settled _ = false

abbrev hash_of : Bytes → Hash
hash_of bytes = record { first = from_le (take 8 bytes); second = from_le (drop 8 bytes) }

-- The path up to the last backslash; without one the code reads before its text.
abbrev directory_of : WString → Option WString
directory_of path = elim (split_last backslash path) [
  | none ↦ none
  | some (before, behind) ↦ some (before ++ backslash ∷ [])
]

-- FilesSet::find, without regard to case.
abbrev pub contains : WString → List WString → Bool
contains p [] = false
contains p (q ∷ qs) = equals_ignore_case p q || contains p qs

module _ (w : Os) (settings : ServerSettings) (connection : Connection) where
  abbrev pub full_path_of : WString → WString
  full_path_of path = connection.server_path ++ path

  -- The key under which a file is recorded.
  unfoldable pub key_of : WString → FileInfo → FileKey
  key_of path info = record {
    name = if settings.use_links_relative_path then path else file_name_of path;
    last_write_time = info.last_write_time;
    file_size = info.file_size;
  }

  -- copyFile from a file of the server, where a response says what else is to be done.
  unfoldable pub odx_copy : FileRec → Info → WString → WriteResponse → Step w.State WriteResponse
  odx_copy local info full_path otherwise = do
    call (λ s. (
      tt,
      (if is_readonly info.attributes then (set_file_writable w local.name true s).1 else s),
    ))
    result ← call (system_copy_file w local.name info.info full_path false)
    pure (elim result [ copied n ↦ odx | _ ↦ otherwise ])

  -- createFileLink, where `otherwise` is what follows when it fails.
  unfoldable pub link_or :
      ℕ → WString → FileInfo → FileRec → Step w.State WriteResponse → Step w.State WriteResponse
  link_or rounds full_path info local otherwise = do
    result ← call (create_file_link w full_path info local.name true rounds)
    elim result [
      | linked ↦ pure link
      | skipped ↦ pure skip
      | refused ↦ otherwise
      | Link.stuck ↦ λ world. (stuck, world)
    ]

  -- The branch for a key that is recorded: the recorded file is linked to if it is still the same.
  unfoldable pub reuse_local : ℕ → WriteCommand → FileRec → Decision → Step w.State Decision
  unfolding link_or odx_copy
  reuse_local rounds cmd local start = do
    info ← call (λ s. (get_file_info w local.name s, s))
    if not (info.attributes == 0) && equals cmd.info info.info
        then if text_eq (full_path_of cmd.path) local.name
          then pure (record { response = skip; hash = local.hash })
          else (do
            response ← link_or rounds (full_path_of cmd.path) cmd.info local (
                if settings.use_odx
                then odx_copy local info (full_path_of cmd.path) start.response
                else pure start.response)
            pure (record { response = response; hash = local.hash }))
        else pure start

  -- The branch for another key: the file may be at its place already.
  unfoldable pub skip_existing : WriteCommand → FileRec → Decision → Step w.State Decision
  skip_existing cmd local start world = elim (directory_of (full_path_of cmd.path)) [
    | none ↦ (fault, world)
    | some directory ↦
        let other = get_file_info w (full_path_of cmd.path) world.os in
        if not (contains directory world.created_dirs)
          && (not (other.attributes == 0) && equals cmd.info other.info)
        then (value (record { response = skip; hash = local.hash }), world)
        else (value start, world)
  ]

  unfoldable pub decide : ℕ → WriteCommand → Step w.State Decision
  unfolding key_of reuse_local skip_existing
  decide rounds cmd world =
      let local = get_record (key_of cmd.path cmd.info) world.database in
      let start : Decision = record {
        response =
            if connection.is_server_path_external && not (is_compressed cmd.write_type)
            then copy_using_smb
            else copy;
        hash = no_hash;
      } in
      if not (is_empty local.name) && leb settings.use_links_threshold cmd.info.file_size
      then reuse_local rounds cmd local start world
      else skip_existing cmd local start world

  -- A recorded file with the client's hash is copied on the server, if the settings allow it.
  unfoldable pub odx_hashed : WriteCommand → FileRec → WriteResponse → Step w.State WriteResponse
  unfolding odx_copy
  odx_hashed cmd local response = do
    info ← call (λ s. (get_file_info w local.name s, s))
    if settings.use_odx && not (info.attributes == 0)
        then odx_copy local info (full_path_of cmd.path) response
        else pure response

  -- What follows when the client's hash is that of a recorded file.
  unfoldable pub reuse_hashed :
      ℕ → WriteCommand → FileRec → WriteResponse → Step w.State WriteResponse
  unfolding link_or odx_hashed
  reuse_hashed rounds cmd local response =
      if leb settings.use_links_threshold cmd.info.file_size
      then link_or rounds (full_path_of cmd.path) cmd.info local (odx_hashed cmd local response)
      else odx_hashed cmd local response

  -- The question for the hash, if the settings want it and a copy is still to be made.
  unfoldable pub ask_hash : ℕ → WriteCommand → Decision → Step w.State Decision
  unfolding reuse_hashed
  ask_hash rounds cmd decision =
      if settings.use_hash && copies decision.response
      then (do
        send_or_close w (response_byte hash_wanted ∷ [])
        bytes ← receive_or_close w 16
        local ← λ world. (
          elim (get_record_of_hash (hash_of bytes) world.database) [
            | none ↦ fault
            | some rec ↦ value rec
          ],
          world,
        )
        response ←
            (if is_empty local.name
              then pure decision.response
              else reuse_hashed rounds cmd local decision.response)
        pure (record { response = response; hash = hash_of bytes }))
      else pure decision

  abbrev pub record_key : WriteCommand → Hash → Step w.State (Unit {0})
  record_key cmd hash =
      change_database (add_to_files_history (key_of cmd.path cmd.info) hash (full_path_of cmd.path))

  -- The file itself, from the client: whether it was written, and how many of the bytes behind the
  -- command were taken.
  unfoldable pub take_file :
      (Bytes → Decompressed)
      → ℕ
      → WriteCommand
      → Bytes
      → Bytes
      → WriteResponse
      → Step w.State (Bool × ℕ)
  take_file decompress rounds cmd front buffer copy_using_smb world =
      (receive_or_close w 1 >>= λ bytes. pure (not (from_le bytes == 0), 0)) world
  take_file decompress rounds cmd front buffer copy_delta world = (value (false, 0), world)
  take_file decompress rounds cmd front buffer response world =
      let ((transfer, os), taken) =
        receive_file w decompress rounds (full_path_of cmd.path) cmd.info.file_size
          cmd.info.last_write_time cmd.write_type (get_use_buffered_io settings.use_buffered_io)
          front buffer world.os in
      (
        elim transfer [
          | finished success ↦ value (success, taken)
          | given_up ↦ closed
          | unfinished ↦ stuck
        ],
        record world { os = os },
      )

  abbrev pub record_success : Bool → WriteCommand → Hash → Step w.State (Unit {0})
  record_success true cmd hash = record_key cmd hash
  record_success false cmd hash = pure tt

  -- The last byte of a copy, that the client waits for unless it made the copy itself.
  abbrev pub send_result : WriteResponse → Bool → Step w.State (Unit {0})
  send_result copy_using_smb success = pure tt
  send_result response success = send_or_close w ((if success then 1 else 0) ∷ [])

  -- What follows the transfer of a file.
  abbrev pub after_file : WriteCommand → Decision → Bool × ℕ → Step w.State ℕ
  after_file cmd decision (success, taken) = do
    record_success success cmd decision.hash
    send_result decision.response success
    pure taken

  -- What follows the response: the number of bytes behind the command that were taken.
  unfoldable pub carry_out :
      (Bytes → Decompressed) → ℕ → WriteCommand → Bytes → Bytes → Decision → Step w.State ℕ
  unfolding take_file
  carry_out decompress rounds cmd front buffer decision =
      if is_settled decision.response
      then (record_key cmd decision.hash >>= λ done. pure 0)
      else (take_file decompress rounds cmd front buffer decision.response
          >>= after_file cmd decision)

  -- The handler. `front` are the bytes behind the command that were received with it.
  unfoldable pub write_file_command :
      (Bytes → Decompressed) → ℕ → WriteCommand → Bytes → Bytes → Step w.State ℕ
  unfolding decide ask_hash carry_out
  write_file_command decompress rounds cmd front buffer =
      if not connection.is_valid_environment
      then (send_or_close w (response_byte bad_destination ∷ []) >>= λ done. pure 0)
      else (do
        first ← decide rounds cmd
        decision ← ask_hash rounds cmd first
        send_or_close w (response_byte decision.response ∷ [])
        carry_out decompress rounds cmd front buffer decision)
