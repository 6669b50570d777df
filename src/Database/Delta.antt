-- ===== src/Database/Delta.antt =====
-- findFileForDeltaCopy: the record with the name and the earliest write time and size.
use eacopy.Base.{
  ◌≡◌, refl, some, [], ◌∷◌, text_eq, arith, WString, Option-cases, inl, inr, true, false,
}
use eacopy.Base.OrdMap.{find, lower_bound}
use eacopy.Base.OrdMap.Sorted.{lower_bound_least, find-lower_bound}
use eacopy.Keys.{FileKey, no_time, file_key_lt, time_lt}
use eacopy.Keys.Orders.{key_order, text_lt_irrefl, text_lt_total}
use eacopy.Database.{Database, FileRec, find_file_for_delta_copy}
use eacopy.Database.Invariant.{Inv}

pub text_eq_refl : (a : WString) → text_eq a a ≡ true
text_eq_refl [] = refl
text_eq_refl (x ∷ xs) = ground (arith, text_eq_refl xs)

pub text_eq_eq : (a b : WString) → text_eq a b ≡ true → a ≡ b
text_eq_eq [] [] h = refl
text_eq_eq [] (y ∷ ys) h = absurd (cc)
text_eq_eq (x ∷ xs) [] h = absurd (cc)
text_eq_eq (x ∷ xs) (y ∷ ys) h = ground (arith, text_eq_eq xs ys)

-- A key between two keys of one name has that name.
between-name :
    (j k s : FileKey)
    → k.name ≡ s.name
    → file_key_lt j s ≡ false
    → file_key_lt k j ≡ false
    → j.name ≡ s.name
unfolding file_key_lt
between-name j k s e above least =
    text_lt_total j.name s.name (ground arith) (rw (← e) (ground arith))

module _ (key : FileKey) (db : Database) (v : Inv db) where
  abbrev search_key : FileKey
  search_key = record { name = key.name; last_write_time = no_time; file_size = 0 }

  named-not-below : (k : FileKey) → k.name ≡ key.name → file_key_lt k search_key ≡ false
  unfolding file_key_lt time_lt
  named-not-below k e = rw e (ground (arith, text_lt_irrefl key.name))

  -- If some file of that name is known, the file that is found is a known one of that name, and no
  -- known file of that name has a smaller key.
  pub find_file_for_delta_copy-least :
      (k : FileKey) (r : FileRec)
      → find key_order k db.files ≡ some r
      → k.name ≡ key.name
      → (j : FileKey) × (q : FileRec) × (find_file_for_delta_copy key db ≡ some q.name)
        × (find key_order j db.files ≡ some q)
        × (j.name ≡ key.name)
        × (file_key_lt k j ≡ false)
  unfolding find_file_for_delta_copy
  find_file_for_delta_copy-least k r known named =
      let (j, q, bound, found, above, least) =
        lower_bound_least key_order search_key k r db.files v.sorted known
          (named-not-below k named) in
      let same_name : j.name ≡ key.name = between-name j k search_key named above least in
      (
        j,
        q,
        rw (bound, find_file_for_delta_copy) (rw same_name (rw (text_eq_refl key.name))),
        found,
        same_name,
        least,
      )

  -- What is found is the name of a known file, whose key has the name that was asked for.
  pub find_file_for_delta_copy-known :
      (name : WString)
      → find_file_for_delta_copy key db ≡ some name
      → (k : FileKey) × (r : FileRec) × (find key_order k db.files ≡ some r)
        × (k.name ≡ key.name)
        × (r.name ≡ name)
  unfolding find_file_for_delta_copy
  find_file_for_delta_copy-known name h =
      elim (Option-cases (lower_bound key_order search_key db.files)) [
        | inl end ↦ absurd (ground (arith, h, end))
        | inr ((k, r), bound) ↦ (
          k,
          r,
          find-lower_bound key_order search_key k r db.files v.sorted bound,
          text_eq_eq k.name key.name (ground (arith, h, bound)),
          ground (arith, h, bound),
        )
      ]
