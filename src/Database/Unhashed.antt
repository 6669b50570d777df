-- ===== src/Database/Unhashed.antt =====
-- The collector of source/EACopyShared.cpp on a database of files that were added without a hash, as a
-- server adds them that does not use hashes.
use eacopy.Base.{
  ℕ, ◌<◌, ◌≡◌, refl, ap, sym, ◌∙◌, subst, List, [], ◌∷◌, Option, none, some, length, ◌>>=◌, arith,
  inl, inr, Option-cases, WString,
}
use mathlib.Core.Option.{some-injective}
use eacopy.Base.OrdMap.{find}
use eacopy.Keys.{FileKey, Hash, no_hash, is_valid}
use eacopy.Keys.Orders.{hash_order}
use eacopy.Database.{
  Database, Nodes, empty_database, record_file, add_to_files_history, garbage_collect,
}
use eacopy.Database.Invariant.{Inv, empty_database-Inv, add_to_files_history-Inv}
use eacopy.Database.Collect.{garbage_collect-unhashed}

-- Files that are added one after the other, without a hash.
abbrev pub add_all : List (FileKey × WString) → Database → Option Database
add_all [] db = some db
add_all ((key, name) ∷ files) db =
    add_to_files_history key no_hash name db >>= λ db'. add_all files db'

no_hashes :
    (key : FileKey) (name : WString) (db db' : Database)
    → add_to_files_history key no_hash name db ≡ some db'
    → db.file_hashes ≡ []
    → db'.file_hashes ≡ []
unfolding add_to_files_history record_file is_valid
no_hashes key name db db' e empty = ground (arith, e, empty)

add_all-Inv :
    (files : List (FileKey × WString)) (db db' : Database)
    → add_all files db ≡ some db'
    → Inv db
    → db.file_hashes ≡ []
    → Inv db' × (db'.file_hashes ≡ [])
add_all-Inv [] db db' e v empty =
    let same = some-injective db db' e in
    (subst Inv same v, subst (λ d. d.file_hashes ≡ []) same empty)
add_all-Inv ((key, name) ∷ files) db db' e v empty =
    elim (Option-cases (add_to_files_history key no_hash name db)) [
      | inl gone ↦ absurd (ground (arith, ap (λ o. o >>= add_all files) gone, e))
      | inr (db1, added) ↦
          let step : add_all ((key, name) ∷ files) db ≡ add_all files db1 =
            ap (λ o. o >>= add_all files) added in
          add_all-Inv files db1 db' (sym step ∙ e)
            (add_to_files_history-Inv key no_hash name db db1 v added)
            (no_hashes key name db db1 added empty)
    ]

nowhere :
    (hash : Hash) (db : Database) → db.file_hashes ≡ [] → find hash_order hash db.file_hashes ≡ none
unfolding find
nowhere hash db empty = rw empty refl

overfull :
    (max_history : ℕ) (db : Database) (nodes : Nodes)
    → db.history ≡ nodes
    → Inv db
    → db.file_hashes ≡ []
    → max_history < length nodes
    → garbage_collect max_history db ≡ none
overfull max_history db [] e v empty over = absurd (omega arith)
overfull max_history db ((i, key) ∷ rest) e v empty over =
    garbage_collect-unhashed max_history db v i key rest e (omega (arith, over, ap length e))
      (λ r known. nowhere r.hash db empty)

-- Whatever files a server has added to an empty database, without hashes: once there are more than the
-- limit, the collector goes through `end()` of the table of hashes.
pub garbage_collect-add_all :
    (max_history : ℕ) (files : List (FileKey × WString)) (db : Database)
    → add_all files empty_database ≡ some db
    → max_history < length db.history
    → garbage_collect max_history db ≡ none
garbage_collect-add_all max_history files db added over =
    let (v, empty) = add_all-Inv files empty_database db added empty_database-Inv refl in
    overfull max_history db db.history refl v empty over
