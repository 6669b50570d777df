-- ===== src/Database/Invariant.antt =====
-- The invariant that ties the map, the history and the nodes' identities together, and that
-- FileDatabase's operations keep. Under it no iterator is ever stale.
use eacopy.Base.{
  ℕ, suc, ◌+◌, ◌<◌, ◌≡◌, refl, subst, [], ◌∷◌, ◌++◌, none, some, length, sym, ◌∙◌, arith, WString,
  length-append, Option-cases, inl, inr, false,
}
use mathlib.Core.Option.{some-injective}
use eacopy.Base.OrdMap.{Map, find, insert, erase, find-insert, find-erase, Sorted}
use eacopy.Base.OrdMap.Sorted.{
  insert-Sorted, erase-Sorted, length-insert_new, length-insert_old, length-erase,
}
use eacopy.Base.Order.{same_eq, same_refl, same}
use eacopy.Keys.{FileKey, Hash}
use eacopy.Keys.Orders.{key_order, hash_order}
use eacopy.Database.{
  Database, FileRec, node_at, remove_node, record_file, add_to_files_history, remove_file_history,
  empty_database,
}
use eacopy.Database.History.{
  Rising, Linked, node_at-remove_node, Rising-mono, remove_node-Rising, append-Rising,
  node_at-append, length-remove_node, insert-Linked_new, insert-Linked_old, erase-Linked,
  append-Linked, node_at-lt,
}

pub record Inv (db : Database) : Type 0 where
  pub sorted : Sorted key_order db.files
  pub rising : Rising 0 db.next_id db.history
  pub linked : Linked db.files db.history
  pub covered :
      (k : FileKey) (r : FileRec)
      → find key_order k db.files ≡ some r
      → node_at r.history_it db.history ≡ some k
  pub sizes : length db.history ≡ length db.files
  pub addressed :
      (k : FileKey) (r : FileRec) → find key_order k db.files ≡ some r → r.address < db.next_id
  pub distinct :
      (j k : FileKey) (q r : FileRec)
      → find key_order j db.files ≡ some q
      → find key_order k db.files ≡ some r
      → q.address ≡ r.address
      → j ≡ k

pub empty_database-Inv : Inv empty_database
unfolding find
empty_database-Inv = record {
  sorted = tt;
  rising = tt;
  linked = tt;
  covered = λ k r h. absurd (cc);
  sizes = refl;
  addressed = λ k r h. absurd (cc);
  distinct = λ j k q r h. absurd (cc);
}

-- A database without the node and the record of one key, whatever its hash table.
module _ (key : FileKey) (old : FileRec) (db : Database) (v : Inv db)
    (known : find key_order key db.files ≡ some old) where
  erased-covered :
      (k : FileKey) (r : FileRec)
      → find key_order k (erase key_order key db.files) ≡ some r
      → node_at r.history_it (remove_node old.history_it db.history) ≡ some k
  erased-covered k r h = ground (
    arith,
    rw find-erase at h,
    v.covered k r,
    v.covered key old known,
    node_at-remove_node old.history_it r.history_it db.history,
    same_refl key_order key,
  )

  erased-distinct :
      (j k : FileKey) (q r : FileRec)
      → find key_order j (erase key_order key db.files) ≡ some q
      → find key_order k (erase key_order key db.files) ≡ some r
      → q.address ≡ r.address
      → j ≡ k
  erased-distinct j k q r h g e =
      ground (arith, rw find-erase at h, rw find-erase at g, v.distinct j k q r)

  pub erased-Inv :
      (hashes : Map Hash ℕ)
      → Inv (record db {
        files = erase key_order key db.files;
        file_hashes = hashes;
        history = remove_node old.history_it db.history;
      })
  erased-Inv hashes = record {
    sorted = erase-Sorted key_order key db.files v.sorted;
    rising = remove_node-Rising old.history_it 0 db.next_id db.history v.rising;
    linked = erase-Linked key old db.files db.history known v.linked;
    covered = erased-covered;
    sizes = omega (
      arith,
      v.sizes,
      length-remove_node old.history_it 0 db.next_id key db.history v.rising
          (v.covered key old known),
      length-erase key_order key old db.files v.sorted known,
    );
    addressed = λ k r h. ground (arith, rw find-erase at h, v.addressed k r);
    distinct = erased-distinct;
  }

-- What record_file needs: the other records keep their nodes and addresses.
module _ (key : FileKey) (hash : Hash) (name : WString) (address : ℕ) (db : Database) where
  abbrev entry : FileRec
  entry = record { name = name; hash = hash; history_it = db.next_id + 1; address = address }

  record Ready : Type 0 where
    pub sorted : Sorted key_order db.files
    pub rising : Rising 0 db.next_id db.history
    pub linked : Linked (insert key_order key entry db.files) db.history
    pub covered :
        (k : FileKey) (r : FileRec)
        → find key_order k db.files ≡ some r
        → same key_order k key ≡ false
        → node_at r.history_it db.history ≡ some k
    pub sizes : suc (length db.history) ≡ length (insert key_order key entry db.files)
    pub address_lt : address < db.next_id + 2
    pub addressed :
        (k : FileKey) (r : FileRec)
        → find key_order k db.files ≡ some r
        → r.address < db.next_id + 2
    pub separate :
        (k : FileKey) (r : FileRec)
        → find key_order k db.files ≡ some r
        → same key_order k key ≡ false
        → r.address ≡ address
        → ⊥
    pub distinct :
        (j k : FileKey) (q r : FileRec)
        → find key_order j db.files ≡ some q
        → find key_order k db.files ≡ some r
        → q.address ≡ r.address
        → j ≡ k

module _ (key : FileKey) (hash : Hash) (name : WString) (address : ℕ) (db : Database)
    (v : Ready key hash name address db) where
  widened : Rising 0 (db.next_id + 1) db.history
  widened =
      Rising-mono 0 0 db.next_id (db.next_id + 1) db.history (omega arith) (omega arith) v.rising

  record_file-covered :
      (k : FileKey) (r : FileRec)
      → find key_order k (insert key_order key (entry key hash name address db) db.files) ≡ some r
      → node_at r.history_it (db.history ++ (db.next_id + 1, key) ∷ []) ≡ some k
  record_file-covered k r h = ground (
    arith,
    rw find-insert at h,
    same_eq key_order k key,
    v.covered k r,
    node_at-append (db.next_id + 1) r.history_it 0 key db.history widened,
    node_at-lt r.history_it 0 db.next_id k db.history v.rising,
  )

  record_file-addressed :
      (k : FileKey) (r : FileRec)
      → find key_order k (insert key_order key (entry key hash name address db) db.files) ≡ some r
      → r.address < db.next_id + 2
  record_file-addressed k r h = ground (arith, rw find-insert at h, v.addressed k r, v.address_lt)

  record_file-distinct :
      (j k : FileKey) (q r : FileRec)
      → find key_order j (insert key_order key (entry key hash name address db) db.files) ≡ some q
      → find key_order k (insert key_order key (entry key hash name address db) db.files) ≡ some r
      → q.address ≡ r.address
      → j ≡ k
  record_file-distinct j k q r h g e = ground (
    arith,
    rw find-insert at h,
    rw find-insert at g,
    same_eq key_order j key,
    same_eq key_order k key,
    v.separate j q,
    v.separate k r,
    v.distinct j k q r,
  )

  record_file-Inv : Inv (record_file key hash name address db)
  unfolding record_file
  record_file-Inv = record {
    sorted = insert-Sorted key_order key _ db.files v.sorted;
    rising =
        append-Rising (db.next_id + 1) 0 (db.next_id + 2) key db.history widened (omega arith)
          (omega arith);
    linked =
        append-Linked (db.next_id + 1) key _ db.history v.linked
          (rw find-insert (ground (arith, same_refl key_order key)));
    covered = record_file-covered;
    sizes = omega (arith, length-append db.history ((db.next_id + 1, key) ∷ []), v.sizes);
    addressed = record_file-addressed;
    distinct = record_file-distinct;
  }

module _ (key : FileKey) (hash : Hash) (name : WString) (db : Database) (v : Inv db) where
  Ready_new : find key_order key db.files ≡ none → Ready key hash name db.next_id db
  Ready_new new = record {
    sorted = v.sorted;
    rising = v.rising;
    linked = insert-Linked_new key _ db.files db.history new v.linked;
    covered = λ k r h _. v.covered k r h;
    sizes = omega (
      arith,
      v.sizes,
      length-insert_new key_order key (entry key hash name db.next_id db) db.files new,
    );
    address_lt = omega arith;
    addressed = λ k r h. omega (arith, v.addressed k r h);
    separate = λ k r h _ e. omega (arith, v.addressed k r h);
    distinct = v.distinct;
  }

  module _ (old : FileRec) (known : find key_order key db.files ≡ some old) where
    Ready_old :
        Ready key hash name old.address
          (record db { history = remove_node old.history_it db.history })
    Ready_old = record {
      sorted = v.sorted;
      rising = remove_node-Rising old.history_it 0 db.next_id db.history v.rising;
      linked = insert-Linked_old key _ old db.files db.history known v.linked;
      covered = λ k r h differ. ground (
        arith,
        v.covered k r h,
        v.covered key old known,
        node_at-remove_node old.history_it r.history_it db.history,
        same_refl key_order key,
      );
      sizes = omega (
        arith,
        v.sizes,
        length-remove_node old.history_it 0 db.next_id key db.history v.rising
            (v.covered key old known),
        length-insert_old key_order key
            (entry key hash name old.address
              (record db { history = remove_node old.history_it db.history }))
            old db.files v.sorted known,
      );
      address_lt = omega (arith, v.addressed key old known);
      addressed = λ k r h. omega (arith, v.addressed k r h);
      separate = λ k r h differ e.
          ground (arith, v.distinct k key r old h known e, same_refl key_order key);
      distinct = v.distinct;
    }

  -- Adding a file always succeeds, and keeps the invariant.
  pub add_to_files_history_total :
      (db' : Database) × (add_to_files_history key hash name db ≡ some db') × Inv db'
  unfolding add_to_files_history
  add_to_files_history_total = elim (Option-cases (find key_order key db.files)) [
    | inl new ↦ (
      record_file key hash name db.next_id db,
      rw (new, add_to_files_history),
      record_file-Inv key hash name db.next_id db (Ready_new new),
    )
    | inr (old, known) ↦ (
      record_file key hash name old.address
          (record db { history = remove_node old.history_it db.history }),
      rw (known, add_to_files_history, v.covered key old known),
      record_file-Inv key hash name old.address _ (Ready_old old known),
    )
  ]

module _ (key : FileKey) (db : Database) (v : Inv db) where
  -- Removing a file always succeeds, and keeps the invariant.
  pub remove_file_history_total :
      (db' : Database) × (remove_file_history key db ≡ some db') × Inv db'
  unfolding remove_file_history
  remove_file_history_total = elim (Option-cases (find key_order key db.files)) [
    | inl new ↦ (db, rw (new, remove_file_history), v)
    | inr (old, known) ↦ (
      record db {
        files = erase key_order key db.files;
        file_hashes = erase hash_order old.hash db.file_hashes;
        history = remove_node old.history_it db.history;
      },
      rw (known, remove_file_history, v.covered key old known),
      erased-Inv key old db v known _,
    )
  ]

pub add_to_files_history-Inv :
    (key : FileKey) (hash : Hash) (name : WString) (db db' : Database)
    → Inv db
    → add_to_files_history key hash name db ≡ some db'
    → Inv db'
add_to_files_history-Inv key hash name db db' v added =
    let (d, e, w) = add_to_files_history_total key hash name db v in
    subst Inv (some-injective d db' (sym e ∙ added)) w
