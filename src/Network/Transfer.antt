-- ===== src/Network/Transfer.antt =====
-- receiveFile of source/EACopyNetwork.cpp, with openFileWrite, writeFile, setFileLastWriteTime and
-- closeFile of source/EACopyShared.cpp for the one file that it writes. `decompress` stands for zstd.
use eacopy.Base.{
  ℕ, zero, suc, ◌+◌, ◌-◌, ◌%◌, min, Bool, true, false, ◌&&◌, [], ◌∷◌, ◌++◌, Option, none, some,
  length, take, drop, ltb, leb, ◌==◌, if◌then◌else◌, WString,
}
use eacopy.Base.Bytes.{Bytes, from_le}
use eacopy.Keys.{FileTime}
use eacopy.Paths.{convert_to_short_path}
use eacopy.Os.{Os, received, recv_failed}
use eacopy.Files.{set_file_writable}
use eacopy.Network.{receive_data}

-- How a transfer ends: with outSuccess, or with false, or not within the rounds given.
pub data Transfer : Type 0 where
  finished : Bool → Transfer
  given_up unfinished : Transfer

pub data WriteType : Type 0 where
  transmit_file send compressed : WriteType

-- What zstd makes of a block: its bytes, or an error, which is a size as well.
pub data Decompressed : Type 0 where
  content : Bytes → Decompressed
  corrupt : ℕ → Decompressed

-- NetworkTransferChunkSize
abbrev pub chunk_size : ℕ
chunk_size = 8388608

abbrev int_max : ℕ
int_max = 2147483647

abbrev u64_size : ℕ
u64_size = 18446744073709551616

module _ (w : Os) where
  abbrev pub succeeded : Option ℕ × w.State → Bool × w.State
  succeeded (none, s) = (true, s)
  succeeded (some error, s) = (false, s)

  -- openFileWrite
  unfoldable pub open_file_write : WString → Bool → w.State → Bool × w.State
  open_file_write full_path buffered s =
      let path = convert_to_short_path full_path in
      succeeded (w.open_write path buffered (set_file_writable w path true s).1)

  -- `outSuccess = outSuccess && writeFile(...)`, with an OVERLAPPED.
  unfoldable pub write_file : Bool → Bytes → w.State → Bool × w.State
  write_file false bytes s = (false, s)
  write_file true bytes s =
      if leb (int_max - 1) (length bytes) then (false, s) else succeeded (w.write bytes s)

  -- closeFile, and what the guard makes of outSuccess.
  unfoldable pub close_file : Bool → Bool → w.State → Bool × w.State
  close_file false ok s = (ok, s)
  close_file true ok s = let (closed, s1) = succeeded (w.close s) in (ok && closed, s1)

  -- setFileLastWriteTime and the guard. A file whose time could not be set has been closed.
  unfoldable pub finish_file : Bool → Bool → FileTime → w.State → Bool × w.State
  unfolding close_file
  finish_file opened false time s = close_file opened false s
  finish_file opened true time s =
      let (timed, s1) = succeeded (w.set_file_time time s) in
      elim timed [
        | true ↦ close_file opened true s1
        | false ↦
            let (closed, s2) = succeeded (w.close s1) in
            close_file (if closed then false else opened) false s2
      ]

  -- The loop for a file that is sent as it is, over as many rounds as there are bytes left.
  unfoldable pub plain_rounds : ℕ → ℕ → Bool → w.State → Transfer × w.State
  unfolding write_file
  plain_rounds zero left ok s = (finished ok, s)
  plain_rounds (suc rounds) zero ok s = (finished ok, s)
  plain_rounds (suc rounds) (suc left) ok s =
      let (res, s1) = w.recv (min (suc left) chunk_size) s in
      elim res [
        | recv_failed error ↦ (given_up, s1)
        | received [] ↦ (given_up, s1)
        | received (b ∷ bytes) ↦
            let (ok', s2) = write_file ok (b ∷ bytes) s1 in
            plain_rounds rounds (left - length bytes) ok' s2
      ]

  -- The loop that receives a block. Each time, the bytes go to the start of the buffer.
  unfoldable pub block_rounds : ℕ → ℕ → Bytes → w.State → Option Bytes × w.State
  block_rounds zero left buffer s = (some buffer, s)
  block_rounds (suc rounds) zero buffer s = (some buffer, s)
  block_rounds (suc rounds) (suc left) buffer s =
      let (res, s1) = w.recv (suc left) s in
      elim res [
        | recv_failed error ↦ (none, s1)
        | received [] ↦ (none, s1)
        | received (b ∷ bytes) ↦
            block_rounds rounds (left - length bytes)
              ((b ∷ bytes) ++ drop (suc (length bytes)) buffer) s1
      ]

  -- How far a block has brought the file: the new count, outSuccess, and the state.
  abbrev block_written : (Bytes → Decompressed) → Bytes → ℕ → Bool → w.State → ℕ × Bool × w.State
  block_written decompress block read ok s = elim (decompress block) [
    | corrupt size ↦ ((read + size) % u64_size, false, s)
    | content bytes ↦
        let (ok', s') = write_file ok bytes s in ((read + length bytes) % u64_size, ok', s')
  ]

  -- The loop over the blocks of a compressed file. A block's size stands in front of it.
  unfoldable pub compressed_rounds :
      (Bytes → Decompressed) → ℕ → ℕ → ℕ → Bool → Bytes → w.State → Transfer × w.State
  unfolding block_rounds write_file
  compressed_rounds decompress zero file_size read ok buffer s = (unfinished, s)
  compressed_rounds decompress (suc rounds) file_size read ok buffer s =
      if read == file_size
      then (finished ok, s)
      else (let (size_bytes, s1) = receive_data w 4 s in
          elim size_bytes [
            | none ↦ (given_up, s1)
            | some bytes ↦
                let size = from_le bytes in
                if ltb chunk_size size
                then (given_up, s1)
                else (let (block, s2) = block_rounds size size buffer s1 in
                    elim block [
                      | none ↦ (given_up, s2)
                      | some buffer' ↦
                          let (read', ok', s3) =
                            block_written decompress (take size buffer') read ok s2 in
                          compressed_rounds decompress rounds file_size read' ok' buffer' s3
                    ])
          ])

  abbrev pub ended : Bool → FileTime → Transfer × w.State → Transfer × w.State
  ended opened time (finished ok, s) =
      let (ok', s1) = finish_file opened ok time s in (finished ok', s1)
  ended opened time (given_up, s) = (given_up, (close_file opened false s).1)
  ended opened time (unfinished, s) = (unfinished, s)

  -- The bytes behind the command that were received with it.
  unfoldable pub write_front : Bool → ℕ → Bytes → w.State → Bool × w.State
  unfolding write_file
  write_front ok file_size [] s = (ok, s)
  write_front ok file_size (b ∷ front) s =
      write_file ok (take (min (length (b ∷ front)) file_size) (b ∷ front)) s

  -- receiveFile. `front` are the bytes behind the command, and the number is how many of them it took.
  unfoldable pub receive_file :
      (Bytes → Decompressed)
      → ℕ
      → WString
      → ℕ
      → FileTime
      → WriteType
      → Bool
      → Bytes
      → Bytes
      → w.State
      → (Transfer × w.State) × ℕ
  unfolding open_file_write write_front plain_rounds compressed_rounds finish_file
  receive_file decompress rounds full_path file_size time write_type buffered front buffer s =
      let (opened, s1) = open_file_write full_path buffered s in
      let (ok, s2) = write_front opened file_size front s1 in
      let read = min (length front) file_size in
      let left = file_size - read in
      elim write_type [
        | compressed ↦ (
          ended opened time (compressed_rounds decompress rounds file_size read ok buffer s2),
          read,
        )
        | _ ↦ (ended opened time (plain_rounds left left ok s2), read)
      ]
