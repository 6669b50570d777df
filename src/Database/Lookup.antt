-- ===== src/Database/Lookup.antt =====
-- What is found after a file is added or removed, and where it stands in the history.
use eacopy.Base.{
  ℕ, suc, ◌+◌, ◌≡◌, ◌≢◌, refl, List, [], ◌∷◌, ◌++◌, none, some, if◌then◌else◌, arith, WString,
  Option-cases, inl, inr, ap,
}
use eacopy.Base.OrdMap.{Map, find, find-insert, find-erase}
use eacopy.Base.Order.{same_eq, same_refl, same}
use eacopy.Keys.{FileKey, Hash}
use eacopy.Keys.Orders.{key_order}
use eacopy.Database.{
  Database, FileRec, Nodes, keys, node_at, remove_node, add_to_files_history, get_record,
  remove_file_history, no_record,
}
use eacopy.Database.History.{Rising, Linked, node_at_below}
use eacopy.Database.Invariant.{Inv}

-- The list without a key.
abbrev pub others : FileKey → List FileKey → List FileKey
others key [] = []
others key (k ∷ ks) = if same key_order k key then others key ks else k ∷ others key ks

keys-append : (h : Nodes) (i : ℕ) (k : FileKey) → keys (h ++ (i, k) ∷ []) ≡ keys h ++ k ∷ []
keys-append [] i k = refl
keys-append ((j, l) ∷ h) i k = ap (◌∷◌ l) (keys-append h i k)

others_absent :
    (key : FileKey) (files : Map FileKey FileRec) (h : Nodes)
    → find key_order key files ≡ none
    → Linked files h
    → others key (keys h) ≡ keys h
others_absent key files [] e l = refl
others_absent key files ((i, k) ∷ h) e l =
    ground (arith, others_absent key files h e l.1, same_eq key_order k key)

keys-remove_node :
    (key : FileKey) (old : FileRec) (lo hi : ℕ) (files : Map FileKey FileRec) (h : Nodes)
    → find key_order key files ≡ some old
    → Linked files h
    → ((k : FileKey) → node_at old.history_it h ≡ some k → k ≡ key)
    → Rising lo hi h
    → keys (remove_node old.history_it h) ≡ others key (keys h)
unfolding remove_node node_at
keys-remove_node key old lo hi files [] e l u r = refl
keys-remove_node key old lo hi files ((i, k) ∷ h) e l u r =
    let tail : keys (remove_node old.history_it h) ≡ others key (keys h) =
      keys-remove_node key old (suc i) hi files h e l.1
        (λ k' held. u k' (ground (arith, held, node_at_below i (suc i) hi h r.2))) r.2 in
    ground (arith, tail, same_eq key_order k key, same_refl key_order key, u k)

-- Where the iterator of a known key stands.
known_unique :
    (key : FileKey) (old : FileRec) (db : Database)
    → Inv db
    → find key_order key db.files ≡ some old
    → (k : FileKey) → node_at old.history_it db.history ≡ some k
    → k ≡ key
known_unique key old db v known k h = ground (arith, v.covered key old known)

module _ (key : FileKey) (hash : Hash) (name : WString) (db db' : Database) (v : Inv db)
    (added : add_to_files_history key hash name db ≡ some db') where
  -- After a file is added its key is the latest in the history, once, and the other keys keep their
  -- order.
  pub history-add_to_files_history : keys db'.history ≡ others key (keys db.history) ++ key ∷ []
  unfolding add_to_files_history
  history-add_to_files_history = elim (Option-cases (find key_order key db.files)) [
    | inl new ↦ ground (
      arith,
      added,
      new,
      keys-append db.history (db.next_id + 1) key,
      others_absent key db.files db.history new v.linked,
    )
    | inr (old, known) ↦ ground (
      arith,
      added,
      known,
      v.covered key old known,
      keys-append (remove_node old.history_it db.history) (db.next_id + 1) key,
      keys-remove_node key old 0 db.next_id db.files db.history known v.linked
          (known_unique key old db v known) v.rising,
    )
  ]

  find-add_to_files_history :
      (j : FileKey)
      → (rec : FileRec) × (rec.name ≡ name)
        × (rec.hash ≡ hash)
        × (find key_order j db'.files
            ≡ (if same key_order j key then some rec else find key_order j db.files))
  unfolding add_to_files_history
  find-add_to_files_history j = elim (Option-cases (find key_order key db.files)) [
    | inl new ↦
        let rec : FileRec = record {
          name = name;
          hash = hash;
          history_it = db.next_id + 1;
          address = db.next_id;
        } in
        (rec, refl, refl, ground (arith, added, new, find-insert key_order j key rec db.files))
    | inr (old, known) ↦
        let rec : FileRec = record {
          name = name;
          hash = hash;
          history_it = db.next_id + 1;
          address = old.address;
        } in
        (
          rec,
          refl,
          refl,
          ground (
            arith,
            added,
            known,
            v.covered key old known,
            find-insert key_order j key rec db.files,
          ),
        )
  ]

  -- Afterwards the key is found with the file's name and hash, and every other key as before.
  pub get_record-add_to_files_history :
      ((get_record key db').name ≡ name)
      × ((get_record key db').hash ≡ hash)
      × ((j : FileKey) → j ≢ key → get_record j db' ≡ get_record j db)
  unfolding get_record
  get_record-add_to_files_history =
      let (rec, n, h, e) = find-add_to_files_history key in
      (
        ground (arith, e, n, same_refl key_order key),
        ground (arith, e, h, same_refl key_order key),
        λ j differ.
            let (rec', n', h', e') = find-add_to_files_history j in
            ground (arith, e', same_eq key_order j key, differ),
      )

module _ (key : FileKey) (db db' : Database) (v : Inv db)
    (removed : remove_file_history key db ≡ some db') where
  -- After a removal the key has no record and is gone from the history, and all else is found as
  -- before, in its order.
  pub get_record-remove_file_history :
      (get_record key db' ≡ no_record)
      × ((j : FileKey) → j ≢ key → get_record j db' ≡ get_record j db)
      × (keys db'.history ≡ others key (keys db.history))
  unfolding remove_file_history get_record
  get_record-remove_file_history = elim (Option-cases (find key_order key db.files)) [
    | inl new ↦ (
      ground (arith, removed, new),
      λ j differ. ground (arith, removed, new),
      ground (arith, removed, new, others_absent key db.files db.history new v.linked),
    )
    | inr (old, known) ↦ (
      ground (
        arith,
        removed,
        known,
        v.covered key old known,
        find-erase key_order key key db.files,
        same_refl key_order key,
      ),
      λ j differ. ground (
        arith,
        removed,
        known,
        v.covered key old known,
        find-erase key_order j key db.files,
        same_eq key_order j key,
        differ,
      ),
      ground (
        arith,
        removed,
        known,
        v.covered key old known,
        keys-remove_node key old 0 db.next_id db.files db.history known v.linked
            (known_unique key old db v known) v.rising,
      ),
    )
  ]
