-- ===== src/Database/Tests.antt =====
-- FileDatabase on small inputs, and its theorems at such inputs.
use eacopy.Base.{◌≡◌, ◌≢◌, refl, ap, [], ◌∷◌, ◌++◌, none, some, length, ◌≤◌, codes, ◌>>=◌, arith}
use eacopy.Base.Bytes.{Bytes}
use eacopy.Base.OrdMap
use eacopy.Base.OrdMap.{find}
use eacopy.Keys.{Hash, is_valid, no_hash, no_time, FileKey, file_key_lt, hash_lt, text_lt, time_lt}
use eacopy.Keys.Orders.{key_order, hash_order}
use eacopy.Database.{
  Database, FileRec, no_record, empty_database, keys, get_record, get_record_of_hash,
  add_to_files_history, remove_file_history, garbage_collect, node_at, remove_node,
}
use eacopy.Database.Invariant.{
  Inv, empty_database-Inv, add_to_files_history_total, add_to_files_history-Inv,
}
use eacopy.Database.Lookup.{
  others, history-add_to_files_history, get_record-add_to_files_history,
  get_record-remove_file_history,
}
use eacopy.Database.Collect.{Owned, garbage_collect-latest}
use eacopy.Database.Unhashed.{add_all, garbage_collect-add_all}
use eacopy.Database.Stale.{get_record_of_hash-stale, get_record_of_hash-dangling}
use eacopy.Database.File.{write_file, read_file, complete}
use eacopy.Database.File.RoundTrip.{AllStorable}
use eacopy.Database.File.Reload.{SameRecord, read_file-write_file_reload}

abbrev key_a : FileKey
key_a = record { name = codes "a"; last_write_time = no_time; file_size = 5 }

abbrev key_b : FileKey
key_b = record { name = codes "b"; last_write_time = no_time; file_size = 7 }

abbrev hash_1 : Hash
hash_1 = record { first = 1; second = 2 }

abbrev hash_2 : Hash
hash_2 = record { first = 3; second = 4 }

abbrev rec_a : FileRec
rec_a = record { name = codes "d\\a"; hash = hash_1; history_it = 1; address = 0 }

-- After one file.
abbrev one : Database
one = record {
  files = (key_a, rec_a) ∷ [];
  file_hashes = (hash_1, 0) ∷ [];
  history = (1, key_a) ∷ [];
  next_id = 2;
}

one-added : add_to_files_history key_a hash_1 (codes "d\\a") empty_database ≡ some one
unfolding add_to_files_history OrdMap.find OrdMap.insert is_valid
one-added = refl

one-Inv : Inv one
one-Inv =
    add_to_files_history-Inv key_a hash_1 (codes "d\\a") empty_database one empty_database-Inv
      one-added

abbrev two_paths : Database
two_paths = record {
  files =
      (key_a, rec_a)
      ∷ (key_b, record { name = codes "d\\b"; hash = hash_2; history_it = 3; address = 2 })
      ∷ [];
  file_hashes = (hash_1, 0) ∷ (hash_2, 2) ∷ [];
  history = (1, key_a) ∷ (3, key_b) ∷ [];
  next_id = 4;
}

two-added : add_to_files_history key_b hash_2 (codes "d\\b") one ≡ some two_paths
unfolding add_to_files_history OrdMap.find OrdMap.insert is_valid file_key_lt hash_lt text_lt
    time_lt node_at remove_node
two-added = refl

two-Inv : Inv two_paths
two-Inv = add_to_files_history-Inv key_b hash_2 (codes "d\\b") one two_paths one-Inv two-added

-- The first file again, with other content at another place.
abbrev changed : Database
changed = record {
  files = (key_a, record { name = codes "e\\a"; hash = hash_2; history_it = 3; address = 0 }) ∷ [];
  file_hashes = (hash_1, 0) ∷ (hash_2, 0) ∷ [];
  history = (3, key_a) ∷ [];
  next_id = 4;
}

changed-added : add_to_files_history key_a hash_2 (codes "e\\a") one ≡ some changed
unfolding add_to_files_history OrdMap.find OrdMap.insert is_valid file_key_lt hash_lt text_lt
    time_lt node_at remove_node
changed-added = refl

changed-Inv : Inv changed
changed-Inv = add_to_files_history-Inv key_a hash_2 (codes "e\\a") one changed one-Inv changed-added

abbrev no_files : Database
no_files = record { files = []; file_hashes = (hash_1, 0) ∷ []; history = []; next_id = 4 }

one-removed : remove_file_history key_a changed ≡ some no_files
unfolding remove_file_history OrdMap.find OrdMap.erase file_key_lt hash_lt text_lt time_lt node_at
    remove_node
one-removed = refl

add_to_files_history_total_example :
    (db' : Database) × (add_to_files_history key_b hash_2 (codes "d\\b") one ≡ some db') × Inv db'
add_to_files_history_total_example =
    add_to_files_history_total key_b hash_2 (codes "d\\b") one one-Inv

history-add_to_files_history_example : key_a ∷ key_b ∷ [] ≡ others key_b (key_a ∷ []) ++ key_b ∷ []
history-add_to_files_history_example =
    history-add_to_files_history key_b hash_2 (codes "d\\b") one two_paths one-Inv two-added

get_record-add_to_files_history_example :
    ((get_record key_a changed).name ≡ codes "e\\a")
    × ((get_record key_a changed).hash ≡ hash_2)
    × ((j : FileKey) → j ≢ key_a → get_record j changed ≡ get_record j one)
get_record-add_to_files_history_example =
    get_record-add_to_files_history key_a hash_2 (codes "e\\a") one changed one-Inv changed-added

two-Owned : Owned two_paths
unfolding OrdMap.find hash_lt
two-Owned k r h = ground arith

get_record-remove_file_history_example :
    (get_record key_a no_files ≡ no_record)
    × ((j : FileKey) → j ≢ key_a → get_record j no_files ≡ get_record j changed)
    × (keys no_files.history ≡ others key_a (key_a ∷ []))
get_record-remove_file_history_example =
    get_record-remove_file_history key_a changed no_files changed-Inv one-removed

garbage_collect-latest_example :
    (db' : Database) × (garbage_collect 1 two_paths ≡ some (1, db'))
    × Inv db'
    × Owned db'
    × (db'.history ≡ (3, key_b) ∷ [])
    × (length db'.history ≤ 1)
garbage_collect-latest_example = garbage_collect-latest 1 two_paths two-Inv two-Owned

-- A file that was added without a hash, as the server does by default.
abbrev unhashed : Database
unhashed = record {
  files = (key_a, record { name = codes "d\\a"; hash = no_hash; history_it = 1; address = 0 }) ∷ [];
  file_hashes = [];
  history = (1, key_a) ∷ [];
  next_id = 2;
}

unhashed-added : add_to_files_history key_a no_hash (codes "d\\a") empty_database ≡ some unhashed
unfolding add_to_files_history OrdMap.find OrdMap.insert is_valid
unhashed-added = refl

garbage_collect-add_all_example : garbage_collect 0 unhashed ≡ none
garbage_collect-add_all_example =
    garbage_collect-add_all 0 ((key_a, codes "d\\a") ∷ []) unhashed
      (ap (λ o. o >>= add_all []) unhashed-added) (omega arith)

one-known : find key_order key_a one.files ≡ some rec_a
unfolding OrdMap.find file_key_lt text_lt time_lt
one-known = refl

one-owned : find hash_order hash_1 one.file_hashes ≡ some 0
unfolding OrdMap.find hash_lt
one-owned = refl

get_record_of_hash-stale_example :
    (r : FileRec) × (get_record_of_hash hash_1 changed ≡ some r)
    × (r.hash ≡ hash_2)
    × (r.name ≡ codes "e\\a")
get_record_of_hash-stale_example =
    get_record_of_hash-stale key_a rec_a hash_2 (codes "e\\a") one changed one-Inv one-known
      one-owned (λ e. omega (arith, ap (λ (h : Hash). h.first) e)) changed-added

get_record_of_hash-dangling_example : get_record_of_hash hash_1 no_files ≡ none
get_record_of_hash-dangling_example =
    get_record_of_hash-dangling key_a rec_a hash_2 (codes "e\\a") one changed one-Inv one-known
      one-owned (λ e. omega (arith, ap (λ (h : Hash). h.first) e)) changed-added no_files
      one-removed

two-AllStorable : AllStorable two_paths two_paths.history
unfolding OrdMap.find file_key_lt text_lt time_lt
two-AllStorable = (
  (
    rec_a,
    refl,
    record {
      readable = omega arith;
      nonempty = omega arith;
      short = omega arith;
      key_short = omega arith;
      key_suffix = refl;
      size = omega arith;
      low = omega arith;
      high = omega arith;
      first = omega arith;
      second = omega arith;
    },
  ),
  (
    (
      record { name = codes "d\\b"; hash = hash_2; history_it = 3; address = 2 },
      refl,
      record {
        readable = omega arith;
        nonempty = omega arith;
        short = omega arith;
        key_short = omega arith;
        key_suffix = refl;
        size = omega arith;
        low = omega arith;
        high = omega arith;
        first = omega arith;
        second = omega arith;
      },
    ),
    tt,
  ),
)

read_file-write_file_reload_example :
    (bytes : Bytes) × (db' : Database) × (write_file two_paths ≡ some bytes)
    × (read_file bytes empty_database ≡ complete db')
    × Inv db'
    × (keys db'.history ≡ key_a ∷ key_b ∷ [])
    × ((k : FileKey) → SameRecord (get_record k db') (get_record k two_paths))
read_file-write_file_reload_example = read_file-write_file_reload two_paths two-Inv two-AllStorable
