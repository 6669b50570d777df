-- ===== src/Client/Spared.antt =====
-- What purgeFilesInDirectory of source/EACopyClient.cpp may touch.
use mathlib.Core.List.{Memᴰ}
use eacopy.Base.{
  ℕ, zero, suc, ◌≡◌, refl, ap, ◌∙◌, Bool, true, false, List, [], ◌∷◌, ◌++◌, Option, none, some,
  WString, codes, arith, inl, inr, Bool-cases, ◌⊎◌,
}
use eacopy.Paths.{backslash, is_dot_or_dot_dot}
use eacopy.Os.{Os, Entry, Listing, not_found, found, is_directory, is_reparse_point}
use eacopy.Settings.{Settings}
use eacopy.Client.{
  Work, Ended, value, failed, fault, stuck, Step, resume, Libraries, no_link, holds,
  is_ignored_directory, is_file_with_attribute_allowed,
}
use eacopy.Client.Purge.{
  handled_path, fate_of, Fate, spared, deleted, entered, purge_entry, purge_one, purge_entries,
  purge_search, purge_files_in_directory, of_deletion,
}

Listing-cases :
    (l : Listing) → ((e : ℕ) × (l ≡ not_found e)) ⊎ ((es : List Entry) × (e : ℕ) × (l ≡ found es e))
Listing-cases (not_found e) = inl (e, refl)
Listing-cases (found es e) = inr (es, e, refl)

abbrev pub entries_of : Listing → List Entry
entries_of (not_found e) = []
entries_of (found es e) = es

module _ (w : Os) (libraries : Libraries w) (settings : Settings) (handled : List WString)
    (P : w.State → Type 0) (root : WString) where
  -- The system lists an entry in a directory, in some state with the property.
  abbrev pub IsListed : WString → Entry → Type 0
  IsListed path entry =
      (s : w.State) × P s × Memᴰ entry (entries_of (w.find_files (path ++ codes "*.*") s))

  -- The directories below the root, itself included, each of which is listed in the one above and was
  -- handled.
  pub data IsBelow : WString → Type 0 where
    at_root : IsBelow root
    under :
        {path : WString} (entry : Entry)
        → IsBelow path
        → IsListed path entry
        → is_directory entry.attributes ≡ true
        → holds (handled_path w libraries settings no_link path entry) handled ≡ true
        → IsBelow (path ++ entry.name ++ backslash ∷ [])

  -- A property of the system that the deletion of an entry does not break, when it is listed in a
  -- directory below the root, was not handled, is neither the directory itself nor the one above it, and
  -- the settings do not keep it.
  abbrev pub Survives : Type 0
  Survives =
      (depth : ℕ) (path : WString) (entry : Entry) (s : w.State)
      → IsBelow path
      → IsListed path entry
      → holds (handled_path w libraries settings no_link path entry) handled ≡ false
      → (is_directory entry.attributes ≡ true → is_dot_or_dot_dot entry.name ≡ false)
      → (is_directory entry.attributes ≡ false
          → is_file_with_attribute_allowed settings entry.attributes ≡ true)
      → is_ignored_directory libraries.matches settings entry.name ≡ false
      → P s
      → P (purge_entry w libraries settings no_link depth path entry s).1

  abbrev Spares : {A : Type 0} → Ended A × Work w.State → Type 0
  Spares r = P r.1.os × (r.1.handled_files ≡ handled)

  resume-Spares :
      {A B : Type 0} (f : A → Step w.State B) (r : Ended A × Work w.State)
      → Spares r
      → ((a : A) (work : Work w.State)
          → P work.os
          → work.handled_files ≡ handled
          → Spares (f a work))
      → Spares (resume f r)
  resume-Spares f (value a, work) (holds_p, same) go = go a work holds_p same
  resume-Spares f (failed, work) h go = h
  resume-Spares f (fault, work) h go = h
  resume-Spares f (stuck, work) h go = h

  fate_of-deleted :
      (path : WString) (entry : Entry)
      → (fate_of w libraries settings no_link handled path entry ≡ deleted)
      → (holds (handled_path w libraries settings no_link path entry) handled ≡ false)
        × (is_directory entry.attributes ≡ true → is_dot_or_dot_dot entry.name ≡ false)
        × (is_directory entry.attributes ≡ false
            → is_file_with_attribute_allowed settings entry.attributes ≡ true)
        × (is_ignored_directory libraries.matches settings entry.name ≡ false)
  unfolding fate_of
  fate_of-deleted path entry h =
      (ground (arith, h), λ d. ground (arith, h, d), λ d. ground (arith, h, d), ground (arith, h))

  fate_of-entered :
      (path : WString) (entry : Entry)
      → (fate_of w libraries settings no_link handled path entry ≡ entered)
      → (is_directory entry.attributes ≡ true)
        × (holds (handled_path w libraries settings no_link path entry) handled ≡ true)
  unfolding fate_of
  fate_of-entered path entry h = (ground (arith, h), ground (arith, h))

  Fate-cases :
      (f : Fate w libraries settings no_link) → (f ≡ spared) ⊎ ((f ≡ deleted) ⊎ (f ≡ entered))
  Fate-cases spared = inl refl
  Fate-cases deleted = inr (inl refl)
  Fate-cases entered = inr (inr refl)

  abbrev Enters : (WString → ℕ → Step w.State Bool) → Type 0
  Enters enter =
      (path : WString) (attributes : ℕ) (work : Work w.State)
      → IsBelow path
      → P work.os
      → work.handled_files ≡ handled
      → Spares (enter path attributes work)

  deletion-Spares :
      (r : Option Bool × w.State) (work : Work w.State)
      → P r.1
      → work.handled_files ≡ handled
      → Spares (of_deletion w libraries settings no_link r work)
  deletion-Spares (none, s) work h same = (h, same)
  deletion-Spares (some b, s) work h same = (h, same)

  purge_one-Spares :
      (enter : WString → ℕ → Step w.State Bool) (depth : ℕ) (path : WString) (entry : Entry)
      (work : Work w.State)
      → Survives
      → Enters enter
      → IsBelow path
      → IsListed path entry
      → P work.os
      → work.handled_files ≡ handled
      → Spares (purge_one w libraries settings no_link enter depth path entry work)
  unfolding purge_one
  purge_one-Spares enter depth path entry work survives enters below listed h same =
      let fate = fate_of w libraries settings no_link handled path entry in
      let here : fate_of w libraries settings no_link work.handled_files path entry ≡ fate =
        ap (λ l. fate_of w libraries settings no_link l path entry) same in
      elim (Fate-cases fate) [
        | inl e ↦ rw (purge_one, here ∙ e) (h, same)
        | inr (inl e) ↦
            let (unknown, real, allowed, kept) = fate_of-deleted path entry e in
            rw (purge_one, here ∙ e)
              (deletion-Spares (purge_entry w libraries settings no_link depth path entry work.os)
                work (survives depth path entry work.os below listed unknown real allowed kept h)
                same)
        | inr (inr e) ↦
            let (directory, known) = fate_of-entered path entry e in
            rw (purge_one, here ∙ e)
              (enters (path ++ entry.name ++ backslash ∷ []) entry.attributes work
                (under entry below listed directory known) h same)
      ]

  purge_entries-Spares :
      (enter : WString → ℕ → Step w.State Bool) (depth : ℕ) (path : WString) (entries : List Entry)
      (work : Work w.State)
      → Survives
      → Enters enter
      → IsBelow path
      → ((entry : Entry) → Memᴰ entry entries → IsListed path entry)
      → P work.os
      → work.handled_files ≡ handled
      → Spares (purge_entries w libraries settings no_link enter depth path entries work)
  unfolding purge_entries
  purge_entries-Spares enter depth path [] work survives enters below listed h same = (h, same)
  purge_entries-Spares enter depth path (entry ∷ entries) work survives enters below listed h same =
      resume-Spares _ (purge_one w libraries settings no_link enter depth path entry work)
        (purge_one-Spares enter depth path entry work survives enters below
          (listed entry (Memᴰ.head refl)) h same)
        λ went work' h' same'.
          resume-Spares _
            (purge_entries w libraries settings no_link enter depth path entries work')
            (purge_entries-Spares enter depth path entries work' survives enters below
              (λ e m. listed e (Memᴰ.tail m)) h' same')
            (λ rest work'' h'' same''. (h'', same''))

  purge_search-Spares :
      (enter : WString → ℕ → Step w.State Bool) (depth : ℕ) (path : WString) (work : Work w.State)
      → Survives
      → Enters enter
      → IsBelow path
      → P work.os
      → work.handled_files ≡ handled
      → Spares (purge_search w libraries settings no_link enter depth path work)
  unfolding purge_search
  purge_search-Spares enter depth path work survives enters below h same =
      elim (Listing-cases (w.find_files (path ++ codes "*.*") work.os)) [
        | inl (e, nothing) ↦ rw (purge_search, nothing) (h, same)
        | inr (entries, e, some_of) ↦
            rw (purge_search, some_of)
              (resume-Spares _
                (purge_entries w libraries settings no_link enter depth path entries work)
                (purge_entries-Spares enter depth path entries work survives enters below
                  (λ entry m. (work.os, h, rw some_of m)) h same)
                (λ went work' h' same'. (h', same')))
      ]

  purge_below-Spares :
      (depth : ℕ) (path : WString) (attributes : ℕ) (work : Work w.State)
      → Survives
      → IsBelow path
      → P work.os
      → work.handled_files ≡ handled
      → Spares (purge_files_in_directory w libraries settings no_link depth path attributes work)
  unfolding purge_files_in_directory
  purge_below-Spares zero path attributes work survives below h same = (h, same)
  purge_below-Spares (suc depth) path attributes work survives below h same =
      elim (Bool-cases (is_reparse_point attributes)) [
        | inl symbolic ↦ rw symbolic (h, same)
        | inr real ↦ rw real (
            purge_search-Spares (purge_files_in_directory w libraries settings no_link depth) depth
              path work survives
              (λ path' attributes' work' below' h' same'.
                purge_below-Spares depth path' attributes' work' survives below' h' same')
              below h same)
      ]

  -- The purge of a directory by a client without a server. Take a property of the system that survives
  -- the deletion of every entry that is listed in the directory or, by way of directories that were
  -- handled, below it, was not handled, is neither the directory itself nor the one above it, and is not
  -- kept by the settings for attributes and directories. It still holds when purgeFilesInDirectory has
  -- ended, in whatever way, and the handled files are as before. So the purge deletes nothing else.
  pub purge_files_in_directory-Spares :
      (depth attributes : ℕ) (work : Work w.State)
      → Survives
      → P work.os
      → work.handled_files ≡ handled
      → P (purge_files_in_directory w libraries settings no_link depth root attributes work).1.os
        × ((purge_files_in_directory w libraries settings no_link depth root attributes
              work).1.handled_files
            ≡ handled)
  purge_files_in_directory-Spares depth attributes work survives h same =
      purge_below-Spares depth root attributes work survives at_root h same
