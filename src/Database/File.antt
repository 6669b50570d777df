-- ===== src/Database/File.antt =====
-- FileDatabase::readFile and writeFile: the link database on disk, after the bytes of its cookie.
-- A file is the list of its bytes; every read succeeds and is short at the end, and every write
-- succeeds.
pub mod RoundTrip
pub mod Reload
use mathlib.Core.Option
use eacopy.Base.{
  ℕ, zero, suc, ◌+◌, ◌-◌, ◌*◌, ◌%◌, Bool, true, false, List, [], ◌∷◌, ◌++◌, Option, none, some,
  length, take, drop, ltb, leb, ◌==◌, if◌then◌else◌, WString, codes, ◌>>=◌, text_eq,
}
use eacopy.Base.Bytes.{Bytes, le, read_bytes, read_number, text_bytes, text_of}
use eacopy.Base.OrdMap
use eacopy.Keys.{Hash, FileKey}
use eacopy.Keys.Orders.{key_order}
use eacopy.Database.{Database, FileRec, Nodes, add_to_files_history}

-- linkDbCookie, with its terminator.
abbrev pub link_db_cookie : Bytes
link_db_cookie = codes "eacopydb003" ++ 0 ∷ []

abbrev pub max_path : ℕ
max_path = 4096

-- What one round of the loop writes. Lengths are cast to u16.
pub encode_entry : FileKey → FileRec → Bytes
encode_entry key rec =
    let name_len = (length rec.name * 2) % 65536 in
    le 2 name_len
    ++ (le 2 (length key.name)
        ++ (take name_len (text_bytes rec.name)
            ++ (le 8 key.file_size
                ++ (le 4 key.last_write_time.low
                    ++ (le 4 key.last_write_time.high
                        ++ (le 8 rec.hash.first ++ le 8 rec.hash.second))))))

pub encode_history : Database → Nodes → Option Bytes
encode_history db [] = some (le 2 0)
encode_history db ((i, key) ∷ h) = elim (OrdMap.find key_order key db.files) [
  | none ↦ none
  | some rec ↦ Option.map (λ bytes. encode_entry key rec ++ bytes) (encode_history db h)
]

-- writeFile
pub write_file : Database → Option Bytes
unfolding encode_history encode_entry
write_file db = Option.map (λ bytes. link_db_cookie ++ bytes) (encode_history db db.history)

-- What one round of the loop of readFile comes to.
pub data Round : Type 0 where
  terminator undefined : Round
  entry : FileKey → Hash → WString → Bytes → Round

pub parse_key : WString → ℕ → Bytes → Option Round
parse_key full_file_name key_len bytes = do
  (size, r1) ← read_number 8 bytes
  (low, r2) ← read_number 4 r1
  (high, r3) ← read_number 4 r2
  (first, r4) ← read_number 8 r3
  (second, r5) ← read_number 8 r4
  some (
      entry
        (record {
          name = drop (length full_file_name - key_len) full_file_name;
          last_write_time = record { low = low; high = high };
          file_size = size;
        })
        (record { first = first; second = second }) full_file_name r5)

pub parse_name : ℕ → ℕ → Bytes → Option Round
parse_name full_name_len key_len bytes = do
  (name_buffer, rest) ← read_bytes full_name_len bytes
  elim (text_of name_buffer) [
    | none ↦ some undefined
    | some name ↦ if ltb (length name) key_len then some undefined else parse_key name key_len rest
  ]

-- `none` is an early return.
pub parse_round : Bytes → Option Round
unfolding parse_name parse_key
parse_round bytes = do
  (full_name_len, r1) ← read_number 2 bytes
  if full_name_len == 0
      then some terminator
      else if leb max_path (full_name_len + 1)
      then none
      else read_number 2 r1 >>= λ (key_len, r2). parse_name full_name_len key_len r2

pub data Outcome : Type 0 where
  complete : Database → Outcome
  incomplete : Database → Outcome
  fault : Outcome
  out_of_fuel : Outcome

pub read_rounds : ℕ → Bytes → Database → Outcome
read_rounds zero bytes db = out_of_fuel
read_rounds (suc fuel) bytes db = elim (parse_round bytes) [
  | none ↦ incomplete db
  | some terminator ↦ complete db
  | some undefined ↦ fault
  | some (entry key hash name rest) ↦ elim (add_to_files_history key hash name db) [
    | none ↦ fault
    | some db' ↦ read_rounds fuel rest db'
  ]
]

abbrev bytes_eq : Bytes → Bytes → Bool
bytes_eq = text_eq

-- readFile. Each round takes two bytes at least, so the file's length is fuel enough.
pub read_file : Bytes → Database → Outcome
unfolding read_rounds parse_round
read_file file db = elim (read_bytes (length link_db_cookie) file) [
  | none ↦ incomplete db
  | some (cookie, rest) ↦
      if bytes_eq cookie link_db_cookie
      then read_rounds (suc (length rest)) rest db
      else incomplete db
]
