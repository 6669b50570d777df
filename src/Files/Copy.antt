-- ===== src/Files/Copy.antt =====
-- copyFile of source/EACopyShared.cpp on Windows: the program's own loop, with UseOverlappedCopy and
-- CopyFileWriteThrough off, or the system's copy. `padding` is what stands in a buffer behind the bytes
-- that were read, as unbuffered writes are of whole sectors.
use eacopy.Base.{
  ℕ, zero, suc, ◌+◌, ◌-◌, ◌*◌, ◌/◌, min, Bool, true, false, [], ◌∷◌, ◌++◌, Option, none, some,
  length, take, ◌==◌, if◌then◌else◌, WString,
}
use eacopy.Base.Bytes.{Bytes}
use eacopy.Keys.{FileInfo}
use eacopy.Paths.{convert_to_short_path}
use eacopy.Os.{Os, error_file_exists}
use eacopy.Files.{set_file_writable, Copied, copied, existed, not_copied, system_copy_file}

-- ReadChunkSize
abbrev pub read_chunk_size : ℕ
read_chunk_size = 2097152

-- How the loop ends: with all written, by an error, or not within the rounds given.
pub data Pumped : Type 0 where
  pumped write_failed read_failed unpumped : Pumped

abbrev pub sectors : Bool → ℕ → ℕ
sectors buffered size = if buffered then size else (size + 4095) / 4096 * 4096

module _ (w : Os) (padding : Bytes) where
  abbrev pub wrote : Option ℕ × w.State → Bool × w.State
  wrote (none, s) = (true, s)
  wrote (some error, s) = (false, s)

  -- The write at the start of a round, if a buffer is filled.
  unfoldable pub flush : Bool → Bytes → w.State → Bool × w.State
  flush buffered [] s = (true, s)
  flush buffered (b ∷ filled) s =
      let size = length (b ∷ filled) in
      wrote (w.write ((b ∷ filled) ++ take (sectors buffered size - size) padding) s)

  -- The loop of copyFile. `latest` are the bytes of the last read, that InternalHigh counts.
  unfoldable pub copy_rounds :
      ℕ → Bool → (filled latest : Bytes) → (read left : ℕ) → w.State → Pumped × w.State
  unfolding flush
  copy_rounds zero buffered filled latest read left s = (unpumped, s)
  copy_rounds (suc rounds) buffered filled latest read (suc left) s =
      let (flushed, s1) = flush buffered filled s in
      elim flushed [
        | false ↦ (write_failed, s1)
        | true ↦
            let size = min (suc left) read_chunk_size in
            let (came, s2) = w.read_at read (sectors buffered size) s1 in
            elim came [
              | none ↦ (read_failed, s2)
              | some bytes ↦
                  copy_rounds rounds buffered latest bytes (read + size) (suc left - size) s2
            ]
      ]
  copy_rounds (suc rounds) buffered filled [] read zero s =
      let (flushed, s1) = flush buffered filled s in
      elim flushed [ false ↦ (write_failed, s1) | true ↦ (pumped, s1) ]
  copy_rounds (suc rounds) buffered filled (b ∷ latest) read zero s =
      let (flushed, s1) = flush buffered filled s in
      elim flushed [
        | false ↦ (write_failed, s1)
        | true ↦ copy_rounds rounds buffered (b ∷ latest) [] read zero s1
      ]

  -- What the guards do on the way out. What the closing of the files gives is not looked at any more.
  abbrev close_both : w.State → w.State
  close_both s = (w.close (w.close_source s).1).1

  -- What follows the loop when all is written.
  unfoldable pub finish_copy : Bool → FileInfo → ℕ → WString → w.State → Copied w × w.State
  finish_copy buffered source_info attributes dest s =
      let s1 = (if attributes == 0 then s else (w.set_attributes dest attributes s).1) in
      let (failure, s2) = w.set_file_time source_info.last_write_time s1 in
      elim failure [
        | none ↦ (
          copied source_info.file_size,
          close_both (if buffered then s2 else w.cut source_info.file_size s2),
        )
        | some error ↦
            let (failure', s3) = w.close s2 in
            let s4 = (w.close_source s3).1 in
            (not_copied, elim failure' [ none ↦ s4 | some error' ↦ (w.close s4).1 ])
      ]

  -- What follows the loop. A destination that could not be written is closed and deleted.
  unfoldable pub end_copy : Bool → FileInfo → ℕ → WString → Pumped × w.State → Copied w × w.State
  unfolding finish_copy
  end_copy buffered source_info attributes dest (pumped, s) =
      finish_copy buffered source_info attributes dest s
  end_copy buffered source_info attributes dest (write_failed, s) =
      (not_copied, (w.close_source (w.delete_file dest (w.close s).1).1).1)
  end_copy buffered source_info attributes dest (read_failed, s) = (not_copied, close_both s)
  end_copy buffered source_info attributes dest (unpumped, s) = (not_copied, s)

  -- copyFile without useSystemCopy, from the opening of the files on. Two rounds more than there are
  -- bytes suffice.
  unfoldable pub own_copy_file :
      Bool → WString → FileInfo → ℕ → WString → Bool → w.State → Copied w × w.State
  unfolding copy_rounds end_copy
  own_copy_file buffered source source_info attributes dest fail_if_exists s =
      let (failure, s1) = w.create_file dest buffered fail_if_exists s in
      elim failure [
        | some error ↦ (if error == error_file_exists then existed else not_copied, s1)
        | none ↦
            let (failure', s2) = w.open_source source buffered s1 in
            elim failure' [
              | some error ↦ (not_copied, (w.close s2).1)
              | none ↦ end_copy buffered source_info attributes dest (
                  copy_rounds (2 + source_info.file_size) buffered [] [] 0 source_info.file_size s2)
            ]
      ]

  -- copyFile
  unfoldable pub copy_file :
      WString → FileInfo → ℕ → WString → Bool → Bool → Bool → w.State → Copied w × w.State
  unfolding own_copy_file
  copy_file source source_info attributes dest use_system_copy fail_if_exists buffered s =
      if use_system_copy
      then system_copy_file w source source_info dest fail_if_exists s
      else own_copy_file buffered (convert_to_short_path source) source_info attributes
          (convert_to_short_path dest) fail_if_exists
          (set_file_writable w (convert_to_short_path dest) true s).1
