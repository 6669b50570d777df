-- ===== src/Database.antt =====
-- FileDatabase of include/EACopyShared.h and source/EACopyShared.cpp: the files by key, the pointers
-- to their records by hash, and the history of the keys, oldest first. `m_fileHashes` holds pointers
-- to records and a record holds an iterator into the history, so nodes have identities here: numbers
-- drawn from `next_id`. What the code does with a pointer or an iterator to nothing is undefined
-- behaviour, and gives `none`.
pub mod History
pub mod Invariant
pub mod Lookup
pub mod Collect
pub mod Unhashed
pub mod Stale
pub mod Delta
pub mod File
mod Tests
use mathlib.Core.Option
use eacopy.Base.{
  ℕ, zero, suc, ◌+◌, ◌-◌, Bool, List, [], ◌∷◌, ◌++◌, Option, none, some, length, ltb, ◌==◌,
  if◌then◌else◌, WString, text_eq,
}
use eacopy.Base.OrdMap
use eacopy.Base.OrdMap.{Map}
use eacopy.Keys.{Hash, no_hash, is_valid, no_time, FileKey}
use eacopy.Keys.Orders.{hash_order, key_order}

-- struct FileDatabase::FileRec. `address` identifies the map's node that holds the record.
pub record FileRec : Type 0 where
  pub name : WString
  pub hash : Hash
  pub history_it : ℕ
  pub address : ℕ

-- FileRec()
abbrev pub no_record : FileRec
no_record = record { name = []; hash = no_hash; history_it = 0; address = 0 }

-- The nodes of `m_filesHistory`.
abbrev pub Nodes : Type 0
Nodes = List (ℕ × FileKey)

pub record Database : Type 0 where
  pub files : Map FileKey FileRec
  pub file_hashes : Map Hash ℕ
  pub history : Nodes
  pub next_id : ℕ

abbrev pub empty_database : Database
empty_database = record { files = []; file_hashes = []; history = []; next_id = 0 }

abbrev pub or_no_record : Option FileRec → FileRec
or_no_record none = no_record
or_no_record (some r) = r

-- getRecord(const FileKey&)
unfoldable pub get_record : FileKey → Database → FileRec
get_record key db = or_no_record (OrdMap.find key_order key db.files)

-- What a pointer to a record reads.
pub deref : ℕ → Map FileKey FileRec → Option FileRec
deref p [] = none
deref p ((k, r) ∷ m) = if p == r.address then some r else deref p m

-- getRecord(const Hash&)
pub get_record_of_hash : Hash → Database → Option FileRec
get_record_of_hash hash db = elim (OrdMap.find hash_order hash db.file_hashes) [
  | none ↦ some no_record
  | some p ↦ deref p db.files
]

pub get_history_size : Database → ℕ
get_history_size db = length db.files

pub find_file_for_delta_copy : FileKey → Database → Option WString
find_file_for_delta_copy key db =
    elim (OrdMap.lower_bound key_order
      (record { name = key.name; last_write_time = no_time; file_size = 0 }) db.files) [
        | none ↦ none
        | some (k, r) ↦ if text_eq k.name key.name then some r.name else none
      ]

-- The node that an iterator stands at.
pub node_at : ℕ → Nodes → Option FileKey
node_at i [] = none
node_at i ((j, k) ∷ h) = if i == j then some k else node_at i h

-- `m_filesHistory.erase(it)`
pub remove_node : ℕ → Nodes → Nodes
remove_node i [] = []
remove_node i ((j, k) ∷ h) = let rest = remove_node i h in if i == j then rest else (j, k) ∷ rest

-- The part of addToFilesHistory after the record's old history node is gone.
pub record_file : FileKey → Hash → WString → ℕ → Database → Database
record_file key hash full_file_name address db =
    let it = db.next_id + 1 in
    let rec : FileRec = record {
      name = full_file_name;
      hash = hash;
      history_it = it;
      address = address;
    } in
    record {
      files = OrdMap.insert key_order key rec db.files;
      file_hashes =
          if is_valid hash
          then OrdMap.insert hash_order hash address db.file_hashes
          else db.file_hashes;
      history = db.history ++ (it, key) ∷ [];
      next_id = db.next_id + 2;
    }

pub add_to_files_history : FileKey → Hash → WString → Database → Option Database
unfolding record_file
add_to_files_history key hash full_file_name db = elim (OrdMap.find key_order key db.files) [
  | none ↦ some (record_file key hash full_file_name db.next_id db)
  | some old ↦ elim (node_at old.history_it db.history) [
    | none ↦ none
    | some _ ↦ some (
        record_file key hash full_file_name old.address
          (record db { history = remove_node old.history_it db.history }))
  ]
]

pub remove_file_history : FileKey → Database → Option Database
remove_file_history key db = elim (OrdMap.find key_order key db.files) [
  | none ↦ some db
  | some rec ↦ elim (node_at rec.history_it db.history) [
    | none ↦ none
    | some _ ↦ some (record db {
      files = OrdMap.erase key_order key db.files;
      file_hashes = OrdMap.erase hash_order rec.hash db.file_hashes;
      history = remove_node rec.history_it db.history;
    })
  ]
]

-- One round of garbageCollect. `hashFindIt` and `findIt` are used without a test for `end()`.
pub evict_oldest : Database → Option Database
evict_oldest db = elim db.history [
  | [] ↦ none
  | (it, key) ∷ rest ↦ elim (OrdMap.find key_order key db.files) [
    | none ↦ none
    | some rec ↦ elim (OrdMap.find hash_order rec.hash db.file_hashes) [
      | none ↦ none
      | some p ↦ some (record db {
        files = OrdMap.erase key_order key db.files;
        file_hashes =
            if p == rec.address
            then OrdMap.erase hash_order rec.hash db.file_hashes
            else db.file_hashes;
        history = rest;
      })
    ]
  ]
]

pub evict : ℕ → Database → Option Database
evict zero db = some db
evict (suc it) db = elim (evict_oldest db) [ none ↦ none | some db' ↦ evict it db' ]

pub garbage_collect : ℕ → Database → Option (ℕ × Database)
unfolding evict evict_oldest
garbage_collect max_history db =
    if ltb (length db.history) max_history
    then some (0, db)
    else Option.map (λ db'. (length db.history - max_history, db'))
        (evict (length db.history - max_history) db)

-- The keys from the oldest to the latest.
abbrev pub keys : Nodes → List FileKey
keys [] = []
keys ((i, k) ∷ h) = k ∷ keys h
