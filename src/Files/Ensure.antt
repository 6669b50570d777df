-- ===== src/Files/Ensure.antt =====
-- ensureDirectory comes to an end.
use eacopy.Base.{
  ℕ, zero, suc, ◌+◌, ◌≡◌, ◌≤◌, ◌<◌, Bool, false, List, [], ◌∷◌, some, length, WString, arith,
  Option-cases, inl, inr,
}
use eacopy.Paths.{split_last, backslash}
use eacopy.Os.{Os}
use eacopy.Files.Directories.{create_in_parent, trimmed, ensure_parents, ensure_directory}

length-split_last :
    (x : ℕ) (path before behind : WString)
    → split_last x path ≡ some (before, behind)
    → length path ≡ length before + suc (length behind)
unfolding split_last
length-split_last x [] before behind h = absurd (cc)
length-split_last x (c ∷ cs) before behind h = elim (Option-cases (split_last x cs)) [
  | inl none_left ↦ ground (arith, h, none_left)
  | inr ((b, e), found) ↦ ground (arith, h, found, length-split_last x cs b e found)
]

length-trimmed : (path : WString) → length (trimmed path) ≤ length path
unfolding trimmed
length-trimmed path = elim (Option-cases (split_last backslash path)) [
  | inl none_left ↦ ground (arith, none_left)
  | inr ((b, []), found) ↦ ground (arith, found, length-split_last backslash path b [] found)
  | inr ((b, c ∷ cs), found) ↦ ground (arith, found)
]

module _ (w : Os) where
  create_in_parent_ends :
      (directory : WString) (attributes : ℕ) (created : List WString) (s : w.State)
      → (create_in_parent w directory attributes created s).stuck ≡ false
  unfolding create_in_parent
  create_in_parent_ends directory attributes created s = ground arith

  ensure_parents_ends :
      (fuel : ℕ) (path : WString) (attributes : ℕ) (replace : Bool) (created : List WString)
      (s : w.State)
      → length path < fuel
      → (ensure_parents w fuel path attributes replace created s).stuck ≡ false
  unfolding ensure_parents
  ensure_parents_ends zero path attributes replace created s h = absurd (omega arith)
  ensure_parents_ends (suc fuel) path attributes replace created s h =
      elim (Option-cases (split_last backslash (trimmed path))) [
        | inl none_left ↦ rw (none_left, ensure_parents)
        | inr ((parent, name), found) ↦
            let shorter : length parent < fuel = omega (
              arith,
              h,
              length-trimmed path,
              length-split_last backslash (trimmed path) parent name found,
            ) in
            rw (found, ensure_parents)
              (ground (
                arith,
                ensure_parents_ends fuel parent attributes false created s shorter,
                create_in_parent_ends (trimmed path) attributes
                    (ensure_parents w fuel parent attributes false created s).created
                    (ensure_parents w fuel parent attributes false created s).state,
              ))
      ]

  -- Whatever the system answers, the recursion over the parent directories ends: a path needs no more
  -- rounds than it has characters.
  pub ensure_directory_ends :
      (directory : WString) (attributes : ℕ) (replace expect_creation : Bool) (s : w.State)
      → (ensure_directory w directory attributes replace expect_creation s).stuck ≡ false
  unfolding ensure_directory
  ensure_directory_ends directory attributes replace expect_creation s = ground (
    arith,
    ensure_parents_ends (suc (length directory)) directory attributes replace [] s (omega arith),
    ensure_parents_ends (suc (length directory)) directory attributes replace []
        (w.create_directory directory s).1 (omega arith),
  )
