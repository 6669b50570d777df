-- ===== src/Server/Read.antt =====
-- CommandType_ReadFile of source/EACopyServer.cpp. EACOPY_ALLOW_DELTA_COPY is left to a parameter:
-- `send_delta` is sendDelta, which wraps a library, and `hash_file` is getFileHash, which wraps another.
use eacopy.Base.{
  ℕ, Bool, true, false, ◌&&◌, ◌||◌, not, List, [], ◌∷◌, ◌++◌, Option, ◌==◌, if◌then◌else◌, WString,
  is_empty, take, drop,
}
use eacopy.Base.Bytes.{Bytes, le, from_le}
use eacopy.Keys.{Hash, hash_eq, is_valid, FileInfo, FileKey, FileTime, equals}
use eacopy.Database.{FileRec, Database, get_record}
use eacopy.Paths.{file_name_of}
use eacopy.Os.{Os, is_directory}
use eacopy.Files.{get_file_info}
use eacopy.Network.Transfer.{compressed, send}
use eacopy.Network.Sending.{
  CompressionStats, file_sent, not_sent, divided_by_zero, unfinished, send_file,
}
use eacopy.Server.{
  ServerSettings, Connection, value, closed, fault, stuck, Step, pure, ◌>>=◌, ◌>>◌, call,
  send_or_close, receive_or_close, get_use_buffered_io,
}
use eacopy.Server.Queues.{Queue, too_busy}

pub data ReadResponse : Type 0 where
  copy copy_delta copy_using_smb skip hash_wanted server_busy bad_source : ReadResponse

abbrev pub response_byte : ReadResponse → ℕ
response_byte copy = 0
response_byte copy_delta = 1
response_byte copy_using_smb = 2
response_byte skip = 3
response_byte hash_wanted = 4
response_byte server_busy = 5
response_byte bad_source = 6

pub record ReadCommand : Type 0 where
  pub compression_level : ℕ
  pub info : FileInfo
  pub path : WString

-- What the handler uses besides: the libraries and the clock, and whether delta copies are compiled in.
pub record Libraries (w : Os) : Type 0 where
  pub compress : ℕ → Bytes → Option Bytes
  pub clock : w.State → ℕ
  pub hash_file : WString → w.State → Hash × w.State
  pub send_delta : WString → ℕ → WString → ℕ → w.State → Bool × w.State
  pub allow_delta_copy : Bool
  pub use_delta_compression : Bool

-- What of the queues matters to the handler.
pub record Place : Type 0 where
  pub queues : List Queue
  pub index : ℕ
  pub info : ℕ

abbrev time_bytes : FileTime → Bytes
time_bytes t = le 4 t.low ++ le 4 t.high

abbrev hash_of : Bytes → Hash
hash_of bytes = record { first = from_le (take 8 bytes); second = from_le (drop 8 bytes) }

-- The statistics that the level of a command asks for.
unfoldable pub with_level : ℕ → CompressionStats → CompressionStats
with_level level cs =
    if level == 0
    then cs
    else if level == 255
    then record cs { fixed_level = false }
    else record cs { current_level = level; fixed_level = true }

module _ (w : Os) (libraries : Libraries w) (settings : ServerSettings)
    (connection : Connection) where
  abbrev pub place_of : WString → WString
  place_of path = connection.server_path ++ path

  abbrev key_for : WString → FileInfo → FileKey
  key_for path info = record {
    name = if settings.use_links_relative_path then path else file_name_of path;
    last_write_time = info.last_write_time;
    file_size = info.file_size;
  }

  -- The file that a delta can be made against.
  unfoldable pub reference_file : ReadCommand → Database → FileRec
  reference_file cmd db = get_record (key_for cmd.path cmd.info) db

  unfoldable pub first_response : ReadCommand → Database → ReadResponse
  unfolding reference_file
  first_response cmd db =
      if libraries.allow_delta_copy
        && (not (cmd.compression_level == 0)
            && (libraries.use_delta_compression && not (is_empty (reference_file cmd db).name)))
      then copy_delta
      else if connection.is_server_path_external && cmd.compression_level == 0
      then copy_using_smb
      else copy

  -- The hash of the server's file: the recorded one, or else one that is calculated.
  unfoldable pub server_hash : ReadCommand → FileInfo → Step w.State Hash
  server_hash cmd fi world =
      let known = (get_record (key_for cmd.path fi) world.database).hash in
      if is_valid known
      then (value known, world)
      else call (libraries.hash_file (place_of cmd.path)) world

  -- The hash of the client's file: the recorded one, or else the client's answer.
  unfoldable pub client_hash : ReadCommand → Step w.State Hash
  client_hash cmd world =
      let known = (get_record (key_for cmd.path cmd.info) world.database).hash in
      if is_valid known
      then (value known, world)
      else (send_or_close w (response_byte hash_wanted ∷ [])
            >> (receive_or_close w 16 >>= λ bytes. pure (hash_of bytes)))
          world

  unfoldable pub compare_with : Hash → ReadCommand → ReadResponse → Step w.State ReadResponse
  unfolding client_hash
  compare_with ours cmd response = do
    theirs ← client_hash cmd
    pure (if is_valid theirs && hash_eq theirs ours then skip else response)

  unfoldable pub compare_hashes : ReadCommand → FileInfo → ReadResponse → Step w.State ReadResponse
  unfolding server_hash compare_with
  compare_hashes cmd fi response = do
    ours ← server_hash cmd fi
    if is_valid ours then compare_with ours cmd response else pure response

  unfoldable pub choose : ReadCommand → FileInfo → Step w.State ReadResponse
  unfolding first_response compare_hashes
  choose cmd fi world =
      if equals fi cmd.info
      then (value skip, world)
      else if settings.use_hash && fi.file_size == cmd.info.file_size
      then compare_hashes cmd fi (first_response cmd world.database) world
      else (value (first_response cmd world.database), world)

  -- sendFile, and the statistics that it leaves.
  unfoldable pub send_whole :
      ℕ → ReadCommand → FileInfo → CompressionStats → Step w.State CompressionStats
  unfolding with_level
  send_whole rounds cmd fi cs world =
      let (ended, cs', os) =
        send_file w libraries.compress libraries.clock rounds (place_of cmd.path) fi.file_size
          (if cmd.compression_level == 0 then send else compressed)
          (get_use_buffered_io settings.use_buffered_io) (with_level cmd.compression_level cs)
          world.os in
      (
        elim ended [
          | file_sent ↦ value cs'
          | not_sent ↦ closed
          | divided_by_zero ↦ fault
          | unfinished ↦ stuck
        ],
        record world { os = os },
      )

  unfoldable pub send_difference : ReadCommand → FileInfo → Step w.State (Unit {0})
  unfolding reference_file
  send_difference cmd fi world =
      let (went, os) =
        libraries.send_delta (reference_file cmd world.database).name cmd.info.file_size
          (place_of cmd.path) fi.file_size world.os in
      (if went then value tt else closed, record world { os = os })

  -- What follows the response.
  unfoldable pub carry_out :
      ℕ → ReadCommand → FileInfo → CompressionStats → ReadResponse → Step w.State CompressionStats
  unfolding send_whole send_difference
  carry_out rounds cmd fi cs skip = pure cs
  carry_out rounds cmd fi cs copy = do
    send_or_close w (time_bytes fi.last_write_time)
    send_or_close w (le 8 fi.file_size)
    send_whole rounds cmd fi cs
  carry_out rounds cmd fi cs copy_using_smb = do
    send_or_close w (time_bytes fi.last_write_time)
    pure cs
  carry_out rounds cmd fi cs other = do
    send_or_close w (time_bytes fi.last_write_time)
    send_or_close w (le 8 fi.file_size)
    send_difference cmd fi
    pure cs

  -- The handler. It gives the statistics of the compression back.
  unfoldable pub read_file_command :
      ℕ → Place → ReadCommand → CompressionStats → Step w.State CompressionStats
  unfolding choose carry_out
  read_file_command rounds place cmd cs world =
      let info = get_file_info w (place_of cmd.path) world.os in
      if not connection.is_valid_environment
      then (send_or_close w (response_byte bad_source ∷ []) >> pure cs) world
      else if too_busy settings.max_concurrent_download_count place.index place.info place.queues
      then (send_or_close w (response_byte server_busy ∷ []) >> pure cs) world
      else if info.attributes == 0 || is_directory info.attributes
      then (send_or_close w (response_byte bad_source ∷ []) >> pure cs) world
      else (choose cmd info.info >>= λ response.
            send_or_close w (response_byte response ∷ [])
            >> carry_out rounds cmd info.info cs response)
          world
