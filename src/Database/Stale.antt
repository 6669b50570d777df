-- ===== src/Database/Stale.antt =====
-- What becomes of a hash when the same key is added again with another hash.
use eacopy.Base.{
  ℕ, ◌+◌, ◌≡◌, ◌≢◌, refl, none, some, ==_refl, [], ◌∷◌, arith, WString, inl, inr, Bool-cases,
}
use eacopy.Base.OrdMap.{Map, find, erase, find-insert, find-erase, Sorted}
use eacopy.Base.OrdMap.Sorted.{find-tail, erase-Sorted}
use eacopy.Base.Order.{same_eq, same_refl, same}
use eacopy.Keys.{FileKey, Hash}
use eacopy.Keys.Orders.{key_order, hash_order}
use eacopy.Database.{
  Database, FileRec, deref, add_to_files_history, get_record_of_hash, remove_file_history,
}
use eacopy.Database.Invariant.{Inv, add_to_files_history-Inv}

-- A pointer to a record in the map reads that record.
pub deref-find :
    (key : FileKey) (r : FileRec) (files : Map FileKey FileRec)
    → Sorted key_order files
    → ((k : FileKey) (q : FileRec)
        → find key_order k files ≡ some q
        → q.address ≡ r.address
        → k ≡ key)
    → find key_order key files ≡ some r
    → deref r.address files ≡ some r
unfolding deref find
deref-find key r [] s u h = absurd (cc)
deref-find key r ((j, q) ∷ files) s u h = elim (Bool-cases (same key_order key j)) [
  | inl here ↦ ground (arith, ==_refl r.address)
  | inr there ↦
      let rest : deref r.address files ≡ some r =
        deref-find key r files s.1 (λ k p e. u k p (find-tail key_order j k q p files s.0 e))
          (ground arith) in
      ground (arith, rest, u j q, same_refl key_order j)
]

deref_absent :
    (a : ℕ) (files : Map FileKey FileRec)
    → Sorted key_order files
    → ((k : FileKey) (q : FileRec) → find key_order k files ≡ some q → q.address ≢ a)
    → deref a files ≡ none
unfolding deref find
deref_absent a [] s u = refl
deref_absent a ((j, q) ∷ files) s u = ground (
  arith,
  deref_absent a files s.1 (λ k p e. u k p (find-tail key_order j k q p files s.0 e)),
  u j q,
  same_refl key_order j,
)

-- A record that owns its hash is found by it.
pub get_record_of_hash-owned :
    (key : FileKey) (r : FileRec) (db : Database)
    → Inv db
    → find key_order key db.files ≡ some r
    → find hash_order r.hash db.file_hashes ≡ some r.address
    → get_record_of_hash r.hash db ≡ some r
unfolding get_record_of_hash
get_record_of_hash-owned key r db v known owned =
    rw (owned, get_record_of_hash)
      (deref-find key r db.files v.sorted
        (λ k q e same_node. v.distinct k key q r e known same_node) known)

module _ (key : FileKey) (old : FileRec) (hash : Hash) (name : WString) (db db' : Database)
    (v : Inv db) (known : find key_order key db.files ≡ some old)
    (owned : find hash_order old.hash db.file_hashes ≡ some old.address) (differ : old.hash ≢ hash)
    (added : add_to_files_history key hash name db ≡ some db') where
  abbrev now : FileRec
  now = record { name = name; hash = hash; history_it = db.next_id + 1; address = old.address }

  now-found :
      (find key_order key db'.files ≡ some now)
      × (find hash_order old.hash db'.file_hashes ≡ some old.address)
  unfolding add_to_files_history
  now-found = (
    ground (
      arith,
      added,
      known,
      v.covered key old known,
      find-insert key_order key key now db.files,
      same_refl key_order key,
    ),
    ground (
      arith,
      added,
      known,
      owned,
      differ,
      v.covered key old known,
      find-insert hash_order old.hash hash old.address db.file_hashes,
      same_eq hash_order old.hash hash,
    ),
  )

  added-Inv : Inv db'
  added-Inv = add_to_files_history-Inv key hash name db db' v added

  gone :
      (k : FileKey) (q : FileRec)
      → find key_order k (erase key_order key db'.files) ≡ some q
      → q.address ≢ old.address
  gone k q h same_node = ground (
    arith,
    rw find-erase at h,
    added-Inv.distinct k key q now,
    now-found.0,
    same_refl key_order key,
  )

  -- The defect: after a key is added again with another hash, its old hash still leads to its record,
  -- that is to the new name and the new hash.
  pub get_record_of_hash-stale :
      (r : FileRec) × (get_record_of_hash old.hash db' ≡ some r) × (r.hash ≡ hash) × (r.name ≡ name)
  unfolding get_record_of_hash
  get_record_of_hash-stale = (
    now,
    rw (now-found.1, get_record_of_hash)
        (deref-find key now db'.files added-Inv.sorted
          (λ k q e same_node. added-Inv.distinct k key q now e now-found.0 same_node) now-found.0),
    refl,
    refl,
  )

  -- Once the key is removed as well, the old hash leads to a record that is gone.
  pub get_record_of_hash-dangling :
      (db3 : Database)
      → remove_file_history key db' ≡ some db3
      → get_record_of_hash old.hash db3 ≡ none
  unfolding get_record_of_hash remove_file_history
  get_record_of_hash-dangling db3 removed = ground (
    arith,
    removed,
    now-found.0,
    now-found.1,
    differ,
    added-Inv.covered key now now-found.0,
    find-erase hash_order old.hash hash db'.file_hashes,
    same_eq hash_order old.hash hash,
    deref_absent old.address (erase key_order key db'.files)
        (erase-Sorted key_order key db'.files added-Inv.sorted) gone,
  )
