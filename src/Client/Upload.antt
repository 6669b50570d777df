-- ===== src/Client/Upload.antt =====
-- sendWriteFileCommand of source/EACopyClient.cpp, without EACOPY_ALLOW_RSYNC.
use eacopy.Base.{
  ℕ, zero, suc, Bool, true, false, ◌&&◌, not, [], ◌∷◌, ◌++◌, none, some, ltb, length, leb, ◌==◌,
  if◌then◌else◌, WString,
}
use eacopy.Base.Bytes.{Bytes, le, from_le}
use eacopy.Keys.{Hash, FileInfo}
use eacopy.Os.{Os}
use eacopy.Settings.{Settings}
use eacopy.Files.{get_file_info, Copied, copied, existed, not_copied}
use eacopy.Files.Copy.{copy_file}
use eacopy.Network.Transfer.{WriteType, send, compressed}
use eacopy.Network.Sending.{file_sent, not_sent, divided_by_zero, unfinished, send_file}
use eacopy.Server.{get_use_buffered_io}
use eacopy.Server.Write.{response_byte, copy, copy_using_smb, link, odx, skip, hash_wanted}
use eacopy.Client.{
  value, failed, fault, stuck, Step, pure, fail, ◌>>=◌, ◌>>◌, call, send_or_fail, receive_or_fail,
  write_file, Libraries, max_path,
}
use eacopy.Client.Requests.{send_request}

-- What sendWriteFileCommand fills in.
pub record Written : Type 0 where
  pub size : ℕ
  pub written : ℕ
  pub linked : Bool
  pub processed_by_server : Bool

-- WriteResponseCount, the length of the arrays of counters.
abbrev pub write_response_count : ℕ
write_response_count = 7

abbrev pub hash_bytes : Hash → Bytes
hash_bytes hash = le 8 hash.first ++ le 8 hash.second

abbrev pub write_type_of : Settings → WriteType
write_type_of settings = if not (settings.compression_level == 0) then compressed else send

abbrev pub outcome : ℕ → ℕ → Bool → Bool → Written
outcome size written linked processed = record {
  size = size;
  written = written;
  linked = linked;
  processed_by_server = processed;
}

module _ (w : Os) (libraries : Libraries w) (settings : Settings) where
  -- The info that is announced: the one that is known, or else that of the file.
  unfoldable pub announced : WString → FileInfo → Step w.State FileInfo
  announced src src_info work =
      if src_info.last_write_time.low == 0 && src_info.last_write_time.high == 0
      then (let r = get_file_info w src work.os in
          (if r.attributes == 0 then failed else value r.info, work))
      else (value src_info, work)

  -- The receipt of a response, which is then counted: an index behind the arrays is written to.
  unfoldable pub receive_response : Step w.State ℕ
  receive_response = do
    bytes ← receive_or_fail w 1
    if ltb (from_le bytes) write_response_count
        then pure (from_le bytes)
        else (λ work. (fault, work))

  -- getFileHash and its test.
  abbrev pub hash_or_fail : WString → Step w.State Hash
  hash_or_fail path work =
      let (hash, os) = libraries.hash_file path work.os in
      (elim hash [ none ↦ failed | some h ↦ value h ], record work { os = os })

  -- sendFile, with the statistics that choose the level.
  unfoldable pub send_or_give_up : ℕ → WString → ℕ → Step w.State (Unit {0})
  send_or_give_up rounds src size work =
      let (sending, cs, os) =
        send_file w libraries.compress libraries.clock rounds src size (write_type_of settings)
          (get_use_buffered_io settings.use_buffered_io) work.compression_stats work.os in
      (
        elim sending [
          | file_sent ↦ value tt
          | not_sent ↦ failed
          | divided_by_zero ↦ fault
          | unfinished ↦ stuck
        ],
        record work { compression_stats = cs; os = os },
      )

  -- The branch for WriteResponse_Copy.
  unfoldable pub send_copy : ℕ → WString → ℕ → Step w.State Written
  unfolding send_or_give_up
  send_copy rounds src size = do
    send_or_give_up rounds src size
    success ← receive_or_fail w 1
    if from_le success == 0 then fail else pure (outcome size size false true)

  abbrev pub was_copied : Copied w → Bool
  was_copied (copied n) = true
  was_copied existed = false
  was_copied not_copied = false

  -- The branch for WriteResponse_CopyUsingSmb: the client makes the copy and tells the server.
  unfoldable pub copy_by_share : WString → WString → FileInfo → ℕ → ℕ → Step w.State Written
  copy_by_share src dst src_info src_attributes size = do
    result ← call (
        copy_file w libraries.padding src src_info src_attributes (settings.dest_directory ++ dst)
          settings.use_system_copy false (get_use_buffered_io settings.use_buffered_io))
    let success = was_copied result
    send_or_fail w ((if success then 1 else 0) ∷ [])
    if success then pure (outcome size size false false) else fail

  -- What follows the loop over the responses.
  unfoldable pub send_content : ℕ → WString → WString → FileInfo → ℕ → ℕ → ℕ → Step w.State Written
  unfolding send_copy copy_by_share
  send_content rounds src dst src_info src_attributes size response =
      if response == response_byte copy
      then send_copy rounds src size
      else if response == response_byte copy_using_smb
      then copy_by_share src dst src_info src_attributes size
      else fail

  -- The loop over the responses, where each question for the hash is answered.
  unfoldable pub follow_response :
      ℕ → WString → WString → FileInfo → ℕ → ℕ → ℕ → Step w.State Written
  unfolding send_content receive_response
  follow_response zero src dst src_info src_attributes size response = λ work. (stuck, work)
  follow_response (suc rounds) src dst src_info src_attributes size response =
      if response == response_byte skip
      then pure (outcome size 0 false true)
      else if response == response_byte link
      then pure (outcome size size true true)
      else if response == response_byte odx
      then pure (outcome size size false true)
      else if not (response == response_byte hash_wanted)
      then send_content (suc rounds) src dst src_info src_attributes size response
      else (do
        hash ← hash_or_fail src
        send_or_fail w (hash_bytes hash)
        next ← receive_response
        follow_response rounds src dst src_info src_attributes size next)

  -- sendWriteFileCommand
  unfoldable pub send_write_file_command :
      ℕ → WString → WString → FileInfo → ℕ → Step w.State Written
  unfolding announced receive_response follow_response
  send_write_file_command rounds src dst src_info src_attributes =
      if leb max_path (length dst) then fail else (do
        info ← announced src src_info
        send_request w libraries
            (write_file (record { write_type = write_type_of settings; info = info; path = dst }))
            dst
        response ← receive_response
        follow_response rounds src dst src_info src_attributes info.file_size response)
