-- ===== src/Files/Links.antt =====
-- createFileLink and setFileWritable: what they promise of a file system that obeys its laws.
use eacopy.Base.{
  ltb, drop, length, ap, ◌∷◌, ◌&&◌, ℕ, zero, suc, ◌+◌, ◌≡◌, ◌≢◌, refl, sym, subst, Bool, true, none,
  some, ◌==◌, ◌⊎◌, WString, arith, Bool-cases, Option-cases, inl, inr,
}
use eacopy.Paths.{char_at, convert_to_short_path}
use eacopy.Keys.{FileInfo, equals}
use eacopy.Os.{Os, present, error_already_exists}
use eacopy.Files.{get_file_info, delete_file, skipped, stuck, link_rounds, create_file_link}

-- A hard link is refused because of an existing file only while there is one, and a deletion that
-- succeeds leaves none.
pub record LinksToNew (w : Os) : Type 0 where
  pub deleted-missing :
      (path source : WString) (s : w.State)
      → (w.delete_file path s).0 ≡ none
      → (w.create_hard_link path source (w.delete_file path s).1).0 ≢ some error_already_exists

-- A hard link is refused because of an existing file only when one is there, which then has attributes.
pub record RefusedByFiles (w : Os) : Type 0 where
  pub refused-there :
      (path source : WString) (s : w.State)
      → (w.create_hard_link path source s).0 ≡ some error_already_exists
      → (a : ℕ) × (i : FileInfo) × (w.stat path (w.create_hard_link path source s).1 ≡ present a i)
        × (a ≢ 0)

convert_to_short_path-prefixed :
    (rest : WString) → convert_to_short_path (92 ∷ 92 ∷ 63 ∷ rest) ≡ 92 ∷ 92 ∷ 63 ∷ rest
unfolding convert_to_short_path
convert_to_short_path-prefixed rest = elim (Bool-cases (ltb (3 + length rest) 248)) [
  | inl h ↦ ground (arith, h)
  | inr h ↦ ground (arith, h)
]

convert_to_short_path_cases :
    (path : WString)
    → (convert_to_short_path path ≡ path)
      ⊎ ((rest : WString) × (convert_to_short_path path ≡ 92 ∷ 92 ∷ 63 ∷ rest))
unfolding convert_to_short_path
convert_to_short_path_cases path = elim (Bool-cases (ltb (length path) 248)) [
  | inl h ↦ inl (ground (arith, h))
  | inr h ↦ elim (Bool-cases (char_at path 0 == 92 && char_at path 1 == 92)) [
    | inr k ↦ inr (92 ∷ path, rw (convert_to_short_path, h, k) refl)
    | inl k ↦ elim (Bool-cases (char_at path 2 == 63)) [
      | inl l ↦ inl (rw (convert_to_short_path, h, k, l) refl)
      | inr l ↦ inr (92 ∷ 85 ∷ 78 ∷ 67 ∷ 92 ∷ drop 2 path, rw (convert_to_short_path, h, k, l) refl)
    ]
  ]
]

pub convert_to_short_path-idempotent :
    (path : WString)
    → convert_to_short_path (convert_to_short_path path) ≡ convert_to_short_path path
convert_to_short_path-idempotent path = elim (convert_to_short_path_cases path) [
  | inl e ↦ ap convert_to_short_path e
  | inr (rest, e) ↦ rw e (convert_to_short_path-prefixed rest)
]

module _ (w : Os) where
  -- A file that is there with the time and the size that are given.
  abbrev pub IsThere : WString → FileInfo → w.State → Type 0
  IsThere path info s =
      ((get_file_info w path s).attributes ≢ 0) × (equals info (get_file_info w path s).info ≡ true)

  refused-attributes :
      (path source : WString) (s : w.State)
      → RefusedByFiles w
      → convert_to_short_path path ≡ path
      → (w.create_hard_link path source s).0 ≡ some error_already_exists
      → (get_file_info w path (w.create_hard_link path source s).1).attributes ≢ 0
  unfolding get_file_info
  refused-attributes path source s law short h =
      let (a, i, there, real) = law.refused-there path source s h in
      let known : (get_file_info w path (w.create_hard_link path source s).1).attributes ≡ a =
        rw (get_file_info, short, there) refl in
      subst (λ n. n ≢ 0) (sym known) real

  link_rounds-skipped :
      (rounds : ℕ) (full_path source : WString) (info : FileInfo) (retry : Bool) (s : w.State)
      → RefusedByFiles w
      → convert_to_short_path full_path ≡ full_path
      → (link_rounds w rounds full_path info source retry s).0 ≡ skipped
      → IsThere full_path info (link_rounds w rounds full_path info source retry s).1
  unfolding link_rounds
  link_rounds-skipped zero full_path source info retry s law short h = absurd (cc)
  link_rounds-skipped (suc rounds) full_path source info retry s law short h =
      let s1 = (w.create_hard_link full_path source s).1 in
      let s2 = (delete_file w full_path true s1).1 in
      ground (
        arith,
        h,
        refused-attributes full_path source s law short,
        link_rounds-skipped rounds full_path source info retry s2 law short,
      )

  delete_file-none :
      (path : WString) (s : w.State)
      → convert_to_short_path path ≡ path
      → (delete_file w path true s).0 ≡ true
      → ((w.delete_file path s).0 ≡ none)
        × ((delete_file w path true s).1 ≡ (w.delete_file path s).1)
  unfolding delete_file
  delete_file-none path s short h = elim (Option-cases (w.delete_file path s).0) [
    | inl gone ↦ (gone, ground (arith, short, gone))
    | inr (e, kept) ↦ absurd (ground (arith, kept, short, h))
  ]

  link_rounds_ends :
      (rounds : ℕ) (full_path source : WString) (info : FileInfo) (retry : Bool) (s : w.State)
      → LinksToNew w
      → convert_to_short_path full_path ≡ full_path
      → (link_rounds w (2 + rounds) full_path info source retry s).0 ≢ stuck
  unfolding link_rounds
  link_rounds_ends rounds full_path source info retry s law short h =
      let s1 = (w.create_hard_link full_path source s).1 in
      ground
        (arith, h, law.deleted-missing full_path source s1, delete_file-none full_path s1 short)

  -- On a system that refuses a link because of an existing file only when one is there: when
  -- createFileLink skips a file, there is a file at the path, with the time and the size that the link
  -- was to give it, in the state that the function leaves.
  pub create_file_link-skipped :
      (rounds : ℕ) (full_path source : WString) (info : FileInfo) (retry : Bool) (s : w.State)
      → RefusedByFiles w
      → (create_file_link w full_path info source retry rounds s).0 ≡ skipped
      → IsThere
          (convert_to_short_path full_path)
          info
          (create_file_link w full_path info source retry rounds s).1
  unfolding create_file_link
  create_file_link-skipped rounds full_path source info retry s law h =
      link_rounds-skipped rounds (convert_to_short_path full_path) (convert_to_short_path source)
        info retry s law (convert_to_short_path-idempotent full_path) h

  -- When the file system refuses a link because of an existing file only while there is one, the loop of
  -- createFileLink ends in its second round at the latest.
  pub create_file_link_ends :
      (rounds : ℕ) (full_path source : WString) (info : FileInfo) (retry : Bool) (s : w.State)
      → LinksToNew w
      → (create_file_link w full_path info source retry (2 + rounds) s).0 ≢ stuck
  unfolding create_file_link
  create_file_link_ends rounds full_path source info retry s law =
      link_rounds_ends rounds (convert_to_short_path full_path) (convert_to_short_path source) info
        retry s law (convert_to_short_path-idempotent full_path)
