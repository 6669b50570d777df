-- ===== src/Database/Collect.antt =====
-- garbageCollect: it keeps the latest entries, as long as every entry that it throws out still owns
-- its hash.
use eacopy.Base.{
  ℕ, zero, suc, ◌-◌, ◌≤◌, ◌<◌, ◌≡◌, refl, [], ◌∷◌, none, some, length, drop, arith, inl, inr,
  Bool-cases, false, ltb, length-drop, subst, ==_refl,
}
use eacopy.Base.OrdMap.{Map, find, erase, find-erase}
use eacopy.Base.Order.{same_eq, same_refl}
use eacopy.Keys.{FileKey, Hash}
use eacopy.Keys.Orders.{key_order, hash_order}
use eacopy.Database.{Database, FileRec, Nodes, remove_node, evict_oldest, evict, garbage_collect}
use eacopy.Database.History.{Rising, remove_node_front, Linked, iterator_of}
use eacopy.Database.Invariant.{Inv, erased-Inv}

-- Each record is the one that its hash leads to.
abbrev pub Owned : Database → Type 0
Owned db =
    (k : FileKey) (r : FileRec)
    → find key_order k db.files ≡ some r
    → find hash_order r.hash db.file_hashes ≡ some r.address

front-found :
    (i : ℕ) (k : FileKey) (files : Map FileKey FileRec)
    → iterator_of k files ≡ some i
    → (r : FileRec) × (find key_order k files ≡ some r) × (r.history_it ≡ i)
front-found i k files e = ground arith

module _ (db : Database) (v : Inv db) (i : ℕ) (key : FileKey) (rest : Nodes)
    (front : db.history ≡ (i, key) ∷ rest) where
  front-record : (r : FileRec) × (find key_order key db.files ≡ some r) × (r.history_it ≡ i)
  front-record = front-found i key db.files ((subst (Linked db.files) front v.linked).0)

  -- The database without its oldest entry, whatever its hash table.
  front-Inv :
      (hashes : Map Hash ℕ)
      → Inv
          (record db { files = erase key_order key db.files; file_hashes = hashes; history = rest })
  front-Inv hashes =
      let (r, known, same_node) = front-record in
      let gone : remove_node r.history_it db.history ≡ rest =
        rw (front, same_node)
          (remove_node_front i 0 db.next_id key rest
            (subst (Rising 0 db.next_id) front v.rising)) in
      subst
        (λ h. Inv (record {
          files = erase key_order key db.files;
          file_hashes = hashes;
          history = h;
          next_id = db.next_id;
        }))
        gone (erased-Inv key r db v known hashes)

  module _ (owned : Owned db) (r : FileRec) (known : find key_order key db.files ≡ some r) where
    erased-Owned :
        (k : FileKey) (q : FileRec)
        → find key_order k (erase key_order key db.files) ≡ some q
        → find hash_order q.hash (erase hash_order r.hash db.file_hashes) ≡ some q.address
    erased-Owned k q h = ground (
      arith,
      rw find-erase at h,
      owned k q,
      owned key r known,
      find-erase hash_order q.hash r.hash db.file_hashes,
      same_eq hash_order q.hash r.hash,
      v.distinct k key q r,
      same_refl key_order key,
    )

  evict_oldest-Owned :
      Owned db
      → (db' : Database) × (evict_oldest db ≡ some db') × Inv db' × Owned db' × (db'.history ≡ rest)
  unfolding evict_oldest
  evict_oldest-Owned owned =
      let (r, known, same_node) = front-record in
      (
        record db {
          files = erase key_order key db.files;
          file_hashes = erase hash_order r.hash db.file_hashes;
          history = rest;
        },
        rw (front, evict_oldest) (rw known (rw (owned key r known) (rw (==_refl r.address)))),
        front-Inv _,
        erased-Owned owned r known,
        refl,
      )

  -- The oldest record's hash leads nowhere.
  evict_oldest_unhashed :
      ((r : FileRec)
        → find key_order key db.files ≡ some r
        → find hash_order r.hash db.file_hashes ≡ none)
      → evict_oldest db ≡ none
  unfolding evict_oldest
  evict_oldest_unhashed unhashed =
      let (r, known, same_node) = front-record in
      rw (front, evict_oldest) (rw known (rw (unhashed r known)))

evict-Owned :
    (n : ℕ) (nodes : Nodes) (db : Database)
    → db.history ≡ nodes
    → Inv db
    → Owned db
    → n ≤ length nodes
    → (db' : Database) × (evict n db ≡ some db')
      × Inv db'
      × Owned db'
      × (db'.history ≡ drop n nodes)
unfolding evict
evict-Owned zero nodes db e v owned h = (db, refl, v, owned, e)
evict-Owned (suc n) [] db e v owned h = absurd (omega arith)
evict-Owned (suc n) ((i, k) ∷ rest) db e v owned h =
    let (db1, e1, v1, o1, h1) = evict_oldest-Owned db v i k rest e owned in
    let (db2, e2, v2, o2, h2) = evict-Owned n rest db1 h1 v1 o1 (omega arith) in
    (db2, rw (e1, evict) e2, v2, o2, h2)

evict-none : (n : ℕ) (db : Database) → 0 < n → evict_oldest db ≡ none → evict n db ≡ none
unfolding evict
evict-none zero db h e = absurd (omega arith)
evict-none (suc n) db h e = rw (e, evict)

module _ (max_history : ℕ) (db : Database) (v : Inv db) where
  -- When each record owns its hash, the collector succeeds, reports how many entries lay over the
  -- limit, keeps exactly the latest ones, at most `max_history`, and keeps the invariant.
  pub garbage_collect-latest :
      Owned db
      → (db' : Database) × (garbage_collect max_history db
          ≡ some (length db.history - max_history, db'))
        × Inv db'
        × Owned db'
        × (db'.history ≡ drop (length db.history - max_history) db.history)
        × (length db'.history ≤ max_history)
  unfolding garbage_collect
  garbage_collect-latest owned = elim (Bool-cases (ltb (length db.history) max_history)) [
    | inl few ↦
        let zero_over : length db.history - max_history ≡ 0 = ground arith in
        (db, rw (few, garbage_collect) (rw zero_over), v, owned, rw zero_over, ground arith)
    | inr many ↦
        let (db1, e1, v1, o1, h1) =
          evict-Owned (length db.history - max_history) db.history db refl v owned (omega arith) in
        (
          db1,
          rw (many, garbage_collect) (rw e1),
          v1,
          o1,
          h1,
          rw h1 (
              omega
                (arith, length-drop (length db.history - max_history) db.history, ltb_false many)),
        )
  ]
    where
      ltb_false : ltb (length db.history) max_history ≡ false → max_history ≤ length db.history
      ltb_false h = ground arith

  -- With more entries than the limit, the collector goes through `end()` when the hash of
  -- the oldest entry leads nowhere, as it does for every file that was added without a hash.
  pub garbage_collect-unhashed :
      (i : ℕ) (key : FileKey) (rest : Nodes)
      → db.history ≡ (i, key) ∷ rest
      → max_history < length db.history
      → ((r : FileRec)
          → find key_order key db.files ≡ some r
          → find hash_order r.hash db.file_hashes ≡ none)
      → garbage_collect max_history db ≡ none
  unfolding garbage_collect
  garbage_collect-unhashed i key rest front over unhashed = ground (
    arith,
    over,
    evict-none (length db.history - max_history) db (omega arith)
        (evict_oldest_unhashed db v i key rest front unhashed),
  )
