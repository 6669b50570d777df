-- ===== src/Client/Download.antt =====
-- sendReadFileCommand of source/EACopyClient.cpp. `receive_delta` is receiveDelta, which wraps a library.
use eacopy.Base.{
  ℕ, Bool, true, false, ◌&&◌, not, [], ◌++◌, length, drop, take, leb, ◌==◌, if◌then◌else◌, WString,
}
use eacopy.Base.Bytes.{from_le}
use eacopy.Keys.{Hash, no_hash, FileInfo, FileTime, equals}
use eacopy.Os.{Os, is_directory}
use eacopy.Settings.{Settings}
use eacopy.Files.{get_file_info, Copied, copied, existed, not_copied}
use eacopy.Files.Copy.{copy_file}
use eacopy.Network.Transfer.{finished, given_up, unfinished, receive_file}
use eacopy.Server.{get_use_buffered_io}
use eacopy.Server.Read.{
  response_byte, copy, copy_using_smb, skip, hash_wanted, server_busy, bad_source,
}
use eacopy.Client.{
  value, failed, stuck, Step, pure, fail, ◌>>=◌, ◌>>◌, call, send_or_fail, receive_or_fail,
  read_file, Libraries, max_path,
}
use eacopy.Client.Requests.{send_request}
use eacopy.Client.Upload.{hash_bytes, write_type_of, hash_or_fail}

-- ReadFileResult, with what it fills in; ReadFileResult_Error is a failed step.
pub data Read : Type 0 where
  success : (size read : ℕ) → (processed_by_server : Bool) → Read
  busy : Read

module _ (w : Os) (libraries : Libraries w) (settings : Settings) where
  -- The hash of the file at the destination, or no hash if it cannot be opened.
  unfoldable pub hash_if_there : WString → Step w.State Hash
  hash_if_there path work =
      if libraries.can_open path work.os
      then hash_or_fail w libraries settings path work
      else (value no_hash, work)

  -- SetFileAttributesW, whose result is not looked at.
  abbrev pub reset_attributes : WString → ℕ → Step w.State (Unit {0})
  reset_attributes path attributes =
      if attributes == 0 then pure tt else call (λ s. (tt, (w.set_attributes path attributes s).1))

  -- receiveFile, as the client calls it.
  unfoldable pub receive_or_give_up : ℕ → WString → ℕ → FileTime → Step w.State (Unit {0})
  receive_or_give_up rounds full_dest size time work =
      let ((transfer, os), taken) =
        receive_file w libraries.decompress rounds full_dest size time (write_type_of settings)
          (get_use_buffered_io settings.use_buffered_io) [] [] work.os in
      (
        elim transfer [
          | finished true ↦ value tt
          | finished false ↦ failed
          | given_up ↦ failed
          | unfinished ↦ stuck
        ],
        record work { os = os },
      )

  -- The branch for ReadResponse_Copy.
  unfoldable pub receive_copy : ℕ → WString → ℕ → FileTime → Step w.State Read
  unfolding receive_or_give_up
  receive_copy rounds full_dest src_attributes time = do
    size ← receive_or_fail w 8
    receive_or_give_up rounds full_dest (from_le size) time
    reset_attributes full_dest src_attributes
    pure (success (from_le size) (from_le size) true)

  abbrev copied_read : Copied w → Step w.State Read
  copied_read (copied n) = pure (success n n true)
  copied_read existed = fail
  copied_read not_copied = fail

  -- The branch for ReadResponse_CopyUsingSmb.
  unfoldable pub fetch_by_share : WString → FileInfo → ℕ → WString → Step w.State Read
  fetch_by_share full_src src_info src_attributes full_dest =
      call (
        copy_file w libraries.padding full_src src_info src_attributes full_dest
          settings.use_system_copy false (get_use_buffered_io settings.use_buffered_io))
      >>= copied_read

  -- The branch for ReadResponse_CopyDelta.
  unfoldable pub fetch_delta : WString → ℕ → Step w.State Read
  fetch_delta full_dest src_attributes = if not libraries.allow_delta_copy then fail else (do
    size ← receive_or_fail w 8
    received ← call (libraries.receive_delta full_dest (from_le size))
    if not received then fail else (do
      reset_attributes full_dest src_attributes
      pure (success (from_le size) (from_le size) true)))

  -- What follows the response, and the hash if that was wanted.
  unfoldable pub fetch : ℕ → WString → FileInfo → ℕ → WString → FileInfo → ℕ → Step w.State Read
  unfolding receive_copy fetch_by_share fetch_delta
  fetch rounds relative src_info src_attributes full_dest dest_info response =
      if response == response_byte skip then pure (success dest_info.file_size 0 true) else (do
        bytes ← receive_or_fail w 8
        let time : FileTime = record { low = from_le (take 4 bytes); high = from_le (drop 4 bytes) }
        if response == response_byte copy
            then receive_copy rounds full_dest src_attributes time
            else if response == response_byte copy_using_smb
            then fetch_by_share (settings.source_directory ++ relative) src_info src_attributes
                full_dest
            else fetch_delta full_dest src_attributes)

  -- What follows the first response.
  unfoldable pub after_response :
      ℕ → WString → FileInfo → ℕ → WString → FileInfo → ℕ → Step w.State Read
  unfolding hash_if_there fetch
  after_response rounds relative src_info src_attributes full_dest dest_info response =
      if response == response_byte server_busy
      then pure busy
      else if response == response_byte bad_source
      then fail
      else if response == response_byte hash_wanted
      then (do
        hash ← hash_if_there full_dest
        send_or_fail w (hash_bytes hash)
        next ← receive_or_fail w 1
        fetch rounds relative src_info src_attributes full_dest dest_info (from_le next))
      else fetch rounds relative src_info src_attributes full_dest dest_info response

  -- The command, when the file at the destination is not known to be right already.
  unfoldable pub ask_file : ℕ → WString → FileInfo → ℕ → WString → FileInfo → Step w.State Read
  unfolding after_response
  ask_file rounds relative src_info src_attributes full_dest dest_info = do
    send_request w libraries
        (read_file (record {
          compression_level = settings.compression_level;
          info = dest_info;
          path = relative;
        }))
        relative
    response ← receive_or_fail w 1
    after_response rounds relative src_info src_attributes full_dest dest_info (from_le response)

  -- sendReadFileCommand
  unfoldable pub send_read_file_command : ℕ → WString → WString → FileInfo → ℕ → Step w.State Read
  unfolding ask_file
  send_read_file_command rounds src dst src_info src_attributes work =
      let relative = drop (length settings.source_directory) src in
      let full_dest = settings.dest_directory ++ dst in
      let there = get_file_info w full_dest work.os in
      if leb max_path (length relative)
      then (failed, work)
      else if not (there.attributes == 0) && is_directory there.attributes
      then (failed, work)
      else if not (there.attributes == 0) && settings.exclude_changed_files
      then (value (success there.info.file_size 0 false), work)
      else if not (src_info.file_size == 0) && equals src_info there.info
      then (value (success there.info.file_size 0 false), work)
      else ask_file rounds relative src_info src_attributes full_dest there.info work
