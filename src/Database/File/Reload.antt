-- ===== src/Database/File/Reload.antt =====
-- A database that is written and read into an empty one comes back with its records and the order
-- of its history.
use eacopy.Base.{
  ℕ, suc, ◌<◌, ◌≡◌, ◌≢◌, ◌⊎◌, refl, sym, ◌∙◌, List, [], ◌∷◌, ◌++◌, some, ◌==◌, Bool-cases, arith,
  append_assoc, append-nil, subst, Option-cases, inl, inr,
}
use eacopy.Base.Bytes.{Bytes}
use eacopy.Base.OrdMap.{find, Map}
use eacopy.Base.Order.{same, same_eq, same_refl}
use eacopy.Keys.{FileKey}
use eacopy.Keys.Orders.{key_order}
use eacopy.Database.{
  Database, FileRec, Nodes, keys, node_at, add_to_files_history, empty_database, get_record,
}
use eacopy.Database.History.{Rising, Linked, iterator_of}
use eacopy.Database.Invariant.{Inv, empty_database-Inv, add_to_files_history_total}
use eacopy.Database.Lookup.{others, history-add_to_files_history, get_record-add_to_files_history}
use eacopy.Database.File.{write_file, read_file, complete}
use eacopy.Database.File.RoundTrip.{AllStorable, replay, read_file-write_file}

abbrev Lacks : FileKey → List FileKey → Type 0
Lacks k [] = Unit
Lacks k (x ∷ xs) = (x ≢ k) × Lacks k xs

-- None of the nodes' keys is in the list.
abbrev Absent : List FileKey → Nodes → Type 0
Absent ks [] = Unit
Absent ks ((i, k) ∷ h) = Lacks k ks × Absent ks h

abbrev Differs : FileKey → Nodes → Type 0
Differs k [] = Unit
Differs k ((i, j) ∷ h) = (j ≢ k) × Differs k h

-- Nodes of rising identities that the map links to have different keys.
Linked-Differs :
    (files : Map FileKey FileRec) (i : ℕ) (k : FileKey) (lo hi : ℕ) (h : Nodes)
    → iterator_of k files ≡ some i
    → Linked files h
    → i < lo
    → Rising lo hi h
    → Differs k h
Linked-Differs files i k lo hi [] e l p r = tt
Linked-Differs files i k lo hi ((j, k') ∷ h) e l p r = (
  λ same_key.
      let clash : iterator_of k files ≡ some j =
        subst (λ x. iterator_of x files ≡ some j) same_key l.0 in
      let equal : j ≡ i = ground (arith, clash, e) in omega (arith, r.0),
  Linked-Differs files i k (suc j) hi h e l.1 (omega (arith, r.0)) r.2,
)

others_lacking : (key : FileKey) (ks : List FileKey) → Lacks key ks → others key ks ≡ ks
others_lacking key [] l = refl
others_lacking key (x ∷ ks) l =
    ground (arith, others_lacking key ks l.1, same_eq key_order x key, l.0)

Lacks-append :
    (key k : FileKey) (ks : List FileKey) → k ≢ key → Lacks key ks → Lacks key (ks ++ k ∷ [])
Lacks-append key k [] d l = (d, tt)
Lacks-append key k (x ∷ ks) d l = (l.0, Lacks-append key k ks d l.1)

Absent-append :
    (k : FileKey) (ks : List FileKey) (h : Nodes)
    → Differs k h
    → Absent ks h
    → Absent (ks ++ k ∷ []) h
Absent-append k ks [] d a = tt
Absent-append k ks ((i, j) ∷ h) d a =
    (Lacks-append j k ks (λ e. d.0 (sym e)) a.0, Absent-append k ks h d.1 a.1)

Absent-nil : (h : Nodes) → Absent [] h
Absent-nil [] = tt
Absent-nil ((i, k) ∷ h) = (tt, Absent-nil h)

-- The record of a key has a name and a hash like another's.
abbrev pub SameRecord : FileRec → FileRec → Type 0
SameRecord a b = (a.name ≡ b.name) × (a.hash ≡ b.hash)

abbrev InNodes : FileKey → Nodes → Type 0
InNodes k [] = ⊥
InNodes k ((i, j) ∷ h) = (j ≡ k) ⊎ InNodes k h

InNodes-node_at : (i : ℕ) (k : FileKey) (h : Nodes) → node_at i h ≡ some k → InNodes k h
unfolding node_at
InNodes-node_at i k [] e = cc
InNodes-node_at i k ((j, k') ∷ h) e = elim (Bool-cases (i == j)) [
  | inl here ↦ inl (ground (arith, e, here))
  | inr there ↦ inr (InNodes-node_at i k h (ground (arith, e, there)))
]

module _ (src : Database) where
  -- The key has its record already, or a node is left that brings it.
  abbrev Known : Database → Nodes → FileKey → Type 0
  Known db h k = SameRecord (get_record k db) (get_record k src) ⊎ InNodes k h

  Known-step :
      (i : ℕ) (key : FileKey) (rec : FileRec) (h : Nodes) (db db1 : Database)
      → find key_order key src.files ≡ some rec
      → Inv db
      → add_to_files_history key rec.hash rec.name db ≡ some db1
      → (k : FileKey) → Known db ((i, key) ∷ h) k
      → Known db1 h k
  unfolding get_record
  Known-step i key rec h db db1 known v added k held =
      let (named, hashed, kept) =
        get_record-add_to_files_history key rec.hash rec.name db db1 v added in
      elim (Bool-cases (same key_order k key)) [
        | inl e ↦
            let k_key : k ≡ key = same_eq key_order k key e in
            inl (rw k_key (rw (known) named), rw k_key (rw (known) hashed))
        | inr d ↦
            let differ : k ≢ key = ground (arith, same_refl key_order key, d) in
            elim held [
              | inl old ↦ inl (rw (kept k differ) old)
              | inr (inl e) ↦ absurd (differ (sym e))
              | inr (inr more) ↦ inr more
            ]
      ]

  -- After the replay, the keys of the nodes have the source's records, as have those that had them.
  replay-records :
      (lo hi : ℕ) (h : Nodes) (db : Database)
      → Rising lo hi h
      → Linked src.files h
      → AllStorable src h
      → Inv db
      → Absent (keys db.history) h
      → (db' : Database) × (replay src h db ≡ some db')
        × Inv db'
        × (keys db'.history ≡ keys db.history ++ keys h)
        × ((k : FileKey) → Known db h k → SameRecord (get_record k db') (get_record k src))
  unfolding replay
  replay-records lo hi [] db r l s v a =
      (db, refl, v, rw append-nil, λ k held. elim held [ inl e ↦ e | inr no_node ↦ absurd no_node ])
  replay-records lo hi ((i, key) ∷ h) db r l s v a =
      let (rec, known, fits) = s.0 in
      let (db1, added, v1) = add_to_files_history_total key rec.hash rec.name db v in
      let keys1 : keys db1.history ≡ keys db.history ++ key ∷ [] =
        history-add_to_files_history key rec.hash rec.name db db1 v added
        ∙ rw (others_lacking key (keys db.history) a.0) in
      let absent1 : Absent (keys db1.history) h = rw keys1 (
        Absent-append key (keys db.history) h
          (Linked-Differs src.files i key (suc i) hi h l.0 l.1 (omega arith) r.2) a.1) in
      let (db', replayed, v', keys', records) =
        replay-records (suc i) hi h db1 r.2 l.1 s.1 v1 absent1 in
      (
        db',
        rw (known, replay) (rw added replayed),
        v',
        keys' ∙ rw keys1 (append_assoc (keys db.history) (key ∷ []) (keys h)),
        λ k held. records k (Known-step i key rec h db db1 known v added k held),
      )

  -- A sound database whose files the format can hold comes back from the file that it is written to:
  -- sound, with the same keys in the same order of age, and with the same name and hash for each key.
  pub read_file-write_file_reload :
      Inv src
      → AllStorable src src.history
      → (bytes : Bytes) × (db' : Database) × (write_file src ≡ some bytes)
        × (read_file bytes empty_database ≡ complete db')
        × Inv db'
        × (keys db'.history ≡ keys src.history)
        × ((k : FileKey) → SameRecord (get_record k db') (get_record k src))
  unfolding get_record find
  read_file-write_file_reload v s =
      let (db', replayed, v', keys', records) =
        replay-records 0 src.next_id src.history empty_database v.rising v.linked s
          empty_database-Inv (Absent-nil src.history) in
      let (bytes, written, loaded) = read_file-write_file src empty_database db' s replayed in
      (
        bytes,
        db',
        written,
        loaded,
        v',
        keys',
        λ k. elim (Option-cases (find key_order k src.files)) [
          | inl unknown ↦ records k (inl (rw unknown, rw unknown))
          | inr (r, known) ↦
              records k (inr (InNodes-node_at r.history_it k src.history (v.covered k r known)))
        ],
      )
