-- ===== src/Files/Writable.antt =====
-- setFileWritable on a file system that keeps the attributes it is given.
use eacopy.Base.{
  ℕ, ◌-◌, ◌≡◌, refl, sym, subst, Bool, true, false, ◌&&◌, not, none, ◌==◌, if◌then◌else◌, WString,
  arith, Bool-cases, Option-cases, inl, inr,
}
use eacopy.Keys.{FileInfo}
use eacopy.Paths.{convert_to_short_path}
use eacopy.Os.{Os, present, error_file_not_found, is_readonly}
use eacopy.Files.{attributes_set, set_file_writable}

-- A file that is given no attributes gets FILE_ATTRIBUTE_NORMAL.
abbrev pub settled : ℕ → ℕ
settled attributes = if attributes == 0 then 128 else attributes

-- SetFileAttributesW sets what it is given.
pub record AttributesKept (w : Os) : Type 0 where
  pub set-stat :
      (path : WString) (attributes : ℕ) (s : w.State)
      → (w.set_attributes path attributes s).0 ≡ none
      → (i : FileInfo) × (w.stat path (w.set_attributes path attributes s).1
          ≡ present (settled attributes) i)

settled-readonly : (a : ℕ) → is_readonly a ≡ false → is_readonly (settled a) ≡ false
settled-readonly a h = elim (Bool-cases (a == 0)) [ inl z ↦ rw z refl | inr z ↦ rw z h ]

without_readonly : (a : ℕ) → is_readonly a ≡ true → is_readonly (settled (a - 1)) ≡ false
without_readonly a h = settled-readonly (a - 1) (ground arith)

module _ (w : Os) where
  kept :
      (law : AttributesKept w) (path : WString) (a : ℕ) (s : w.State)
      → (attributes_set w (w.set_attributes path a s)).0 ≡ true
      → (i : FileInfo) × (w.stat path (attributes_set w (w.set_attributes path a s)).1
          ≡ present (settled a) i)
  kept law path a s h = elim (Option-cases (w.set_attributes path a s).0) [
    | inl went ↦ rw went (law.set-stat path a s went)
    | inr (e, failed) ↦ absurd (ground (arith, h, failed))
  ]

  -- On a system that keeps the attributes it is given, where a file without any is a normal one: when
  -- setFileWritable succeeds on a file that is there, and the last error before it was not that a file is
  -- missing, the file is still there, and it is read-only exactly if it was before and is not to be
  -- writable: the function never makes a file read-only.
  pub set_file_writable-readonly :
      (path : WString) (writable : Bool) (attributes : ℕ) (info : FileInfo) (s : w.State)
      → AttributesKept w
      → w.stat (convert_to_short_path path) s ≡ present attributes info
      → (w.last_error s == error_file_not_found) ≡ false
      → (set_file_writable w path writable s).0 ≡ true
      → (a : ℕ) × (i : FileInfo) × (w.stat
            (convert_to_short_path path)
            (set_file_writable w path writable s).1
          ≡ present a i)
        × (is_readonly a ≡ is_readonly attributes && not writable)
  unfolding set_file_writable
  set_file_writable-readonly path true attributes info s law there known h =
      let short = convert_to_short_path path in
      elim (Bool-cases (is_readonly attributes)) [
        | inl r ↦
            let e : set_file_writable w path true s
                ≡ attributes_set w (w.set_attributes short (attributes - 1) s) =
              rw (set_file_writable, there, known, r) refl in
            let (i, now) = kept law short (attributes - 1) s (subst (λ x. x.0 ≡ true) e h) in
            (
              settled (attributes - 1),
              i,
              subst (λ x. w.stat short x.1 ≡ present (settled (attributes - 1)) i) (sym e) now,
              ground (arith, r, without_readonly attributes r),
            )
        | inr r ↦
            let e : set_file_writable w path true s ≡ (true, s) =
              rw (set_file_writable, there, known, r) refl in
            (
              attributes,
              info,
              subst (λ x. w.stat short x.1 ≡ present attributes info) (sym e) there,
              ground (arith, r),
            )
      ]
  set_file_writable-readonly path false attributes info s law there known h =
      let short = convert_to_short_path path in
      elim (Bool-cases (is_readonly attributes)) [
        | inl r ↦
            let e : set_file_writable w path false s ≡ (true, s) =
              rw (set_file_writable, there, known, r) refl in
            (
              attributes,
              info,
              subst (λ x. w.stat short x.1 ≡ present attributes info) (sym e) there,
              ground (arith, r),
            )
        | inr r ↦
            let e : set_file_writable w path false s
                ≡ attributes_set w (w.set_attributes short 0 s) =
              rw (set_file_writable, there, known, r) refl in
            let (i, now) = kept law short 0 s (subst (λ x. x.0 ≡ true) e h) in
            (128, i, subst (λ x. w.stat short x.1 ≡ present 128 i) (sym e) now, ground (arith, r))
      ]
