-- ===== src/Network/Sending.antt =====
-- sendFile of source/EACopyNetwork.cpp. `compress` stands for zstd at a level, where `none` is an error,
-- and `clock` for getTime. Of the counters it keeps those that choose the level.
use eacopy.Base.{
  ℕ, zero, suc, ◌+◌, ◌-◌, ◌*◌, ◌/◌, ◌%◌, ◌≤◌, ◌≡◌, min, max, Bool, true, false, not, List, [], ◌∷◌,
  ◌++◌, Option, none, some, length, ltb, ◌==◌, if◌then◌else◌, WString, arith, ◌⊎◌,
}
use eacopy.Base.Bytes.{Bytes, le}
use eacopy.Paths.{convert_to_short_path}
use eacopy.Os.{Os}
use eacopy.Network.{send_data}
use eacopy.Network.Transfer.{WriteType, transmit_file, send, compressed, chunk_size}

pub record CompressionStats : Type 0 where
  pub send_time : List ℕ
  pub send_bytes : List ℕ
  pub active_send_time : ℕ
  pub active_send_bytes : ℕ
  pub current_send_time : ℕ
  pub current_send_bytes : ℕ
  pub current_index : ℕ
  pub last_time_unit_per_bytes : ℕ
  pub fixed_level : Bool
  pub current_level : ℕ

abbrev u64_size : ℕ
u64_size = 18446744073709551616

abbrev u32_size : ℕ
u32_size = 4294967296

abbrev at : ℕ → List ℕ → ℕ
at i [] = 0
at zero (x ∷ xs) = x
at (suc i) (x ∷ xs) = at i xs

abbrev put : ℕ → ℕ → List ℕ → List ℕ
put i v [] = []
put zero v (x ∷ xs) = v ∷ xs
put (suc i) v (x ∷ xs) = x ∷ put i v xs

-- `total += added - removed` on u64.
abbrev slide : ℕ → ℕ → ℕ → ℕ
slide total added removed = (total + added + (u64_size - removed)) % u64_size

-- The next level: one up if a byte took less time than in the window before, else one down.
unfoldable pub next_level : ℕ → ℕ → ℕ → ℕ
next_level units last level = if ltb units last then min 14 (level + 1) else max 1 (level - 1)

-- What the time and the size of a send do to the statistics; `none` is a division by zero.
unfoldable pub adapt : ℕ → ℕ → CompressionStats → Option CompressionStats
unfolding next_level
adapt send_time send_bytes cs =
    let time = (cs.active_send_time + send_time) % u64_size in
    let bytes = (cs.active_send_bytes + send_bytes) % u64_size in
    if cs.fixed_level
    then some cs
    else if not (ltb 100000 time)
    then some (record cs { active_send_time = time; active_send_bytes = bytes })
    else (let i = (cs.current_index + 1) % 8 in
        let total_time = slide cs.current_send_time time (at i cs.send_time) in
        let total_bytes = slide cs.current_send_bytes bytes (at i cs.send_bytes) in
        let units = total_time * 1000000 % u64_size / total_bytes in
        if total_bytes == 0
        then none
        else some (record cs {
          send_time = put i time cs.send_time;
          send_bytes = put i (bytes % u32_size) cs.send_bytes;
          active_send_time = 0;
          active_send_bytes = 0;
          current_send_time = total_time;
          current_send_bytes = total_bytes;
          current_index = i;
          last_time_unit_per_bytes = units;
          current_level = next_level units cs.last_time_unit_per_bytes cs.current_level;
        }))

-- How sendFile ends: true, false, undefined behaviour, or not within the rounds given.
pub data Sending : Type 0 where
  file_sent not_sent divided_by_zero unfinished : Sending

abbrev int_max : ℕ
int_max = 2147483647

-- CompressedNetworkTransferChunkSize - CompressBoundReservation
abbrev compressed_chunk_size : ℕ
compressed_chunk_size = chunk_size / 4 - 32768

-- Unbuffered reads are of whole sectors.
abbrev pub aligned : Bool → ℕ → ℕ
aligned buffered size = if buffered then size else (size + 4095) / 4096 * 4096

-- `left -= read` on u64.
abbrev pub less : ℕ → ℕ → ℕ
less left size = (left + (u64_size - size)) % u64_size

module _ (w : Os) (compress : ℕ → Bytes → Option Bytes) (clock : w.State → ℕ) where
  unfoldable pub transmit_rounds : ℕ → ℕ → ℕ → w.State → Sending × w.State
  transmit_rounds zero pos file_size s = (unfinished, s)
  transmit_rounds (suc rounds) pos file_size s =
      let size = min (file_size - pos) (int_max - 1) in
      let (failure, s1) = w.transmit pos size s in
      let rest = transmit_rounds rounds (pos + size) file_size s1 in
      if pos == file_size
      then (file_sent, s)
      else elim failure [ none ↦ rest | some error ↦ (not_sent, s1) ]

  unfoldable pub send_chunks : ℕ → Bool → ℕ → w.State → Sending × w.State
  send_chunks zero buffered left s = (unfinished, s)
  send_chunks (suc rounds) buffered zero s = (file_sent, s)
  send_chunks (suc rounds) buffered (suc left) s =
      let (chunk, s1) = w.read (aligned buffered (min (suc left) chunk_size)) s in
      elim chunk [
        | none ↦ (not_sent, s1)
        | some bytes ↦
            let (went, s2) = send_data w bytes s1 in
            elim went [
              | false ↦ (not_sent, s2)
              | true ↦ send_chunks rounds buffered (less (suc left) (length bytes)) s2
            ]
      ]

  unfoldable pub send_blocks :
      ℕ → Bool → ℕ → CompressionStats → w.State → Sending × CompressionStats × w.State
  unfolding adapt
  send_blocks zero buffered left cs s = (unfinished, cs, s)
  send_blocks (suc rounds) buffered zero cs s = (file_sent, cs, s)
  send_blocks (suc rounds) buffered (suc left) cs s =
      let (chunk, s1) = w.read (aligned buffered (min (suc left) compressed_chunk_size)) s in
      elim chunk [
        | none ↦ (not_sent, cs, s1)
        | some bytes ↦ elim (compress cs.current_level bytes) [
          | none ↦ (not_sent, cs, s1)
          | some block ↦
              let (went, s2) = send_data w (le 4 (length block) ++ block) s1 in
              elim went [
                | false ↦ (not_sent, cs, s2)
                | true ↦ elim (adapt (clock s2 - clock s1) (length block + 4) cs) [
                  | none ↦ (divided_by_zero, cs, s2)
                  | some cs' ↦ send_blocks rounds buffered (less (suc left) (length bytes)) cs' s2
                ]
              ]
        ]
      ]

  -- sendFile. The guard closes the file on every way out.
  unfoldable pub send_file :
      ℕ
      → WString
      → ℕ
      → WriteType
      → Bool
      → CompressionStats
      → w.State
      → Sending × CompressionStats × w.State
  unfolding transmit_rounds send_chunks send_blocks
  send_file rounds path file_size write_type buffered cs s =
      let (failure, s1) = w.open_read (convert_to_short_path path) buffered s in
      elim failure [
        | some error ↦ (not_sent, cs, s1)
        | none ↦ elim write_type [
          | transmit_file ↦
              let (ended, s2) = transmit_rounds rounds 0 file_size s1 in (ended, cs, (w.close s2).1)
          | send ↦
              let (ended, s2) = send_chunks rounds buffered file_size s1 in
              (ended, cs, (w.close s2).1)
          | compressed ↦
              let (ended, cs', s2) = send_blocks rounds buffered file_size cs s1 in
              (ended, cs', (w.close s2).1)
        ]
      ]

-- The level stays between 1 and 14 once it is there, starts at most at 14, and moves by one step.
pub adapt-level :
    (send_time send_bytes : ℕ) (cs cs' : CompressionStats)
    → adapt send_time send_bytes cs ≡ some cs'
    → cs.current_level ≤ 14
    → (cs'.current_level ≤ 14)
      × ((cs'.current_level ≡ cs.current_level) ⊎ (1 ≤ cs'.current_level))
      × (cs'.current_level ≤ cs.current_level + 1)
      × (cs.current_level ≤ cs'.current_level + 1)
unfolding adapt
adapt-level send_time send_bytes cs cs' h bound = ground (arith, h, bound)
