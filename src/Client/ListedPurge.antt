-- ===== src/Client/ListedPurge.antt =====
-- The directory that a line of an input file with a destination and /PURGE leads source/EACopyClient.cpp
-- to purge.
use eacopy.Base.{
  ℕ, ◌≡◌, refl, ap, sym, ◌∙◌, Bool, true, false, ◌&&◌, ◌||◌, List, [], ◌∷◌, ◌++◌, append-nil,
  append_assoc, length, length-append, drop, map, ltb, leb, lt→ltb, ◌==◌, arith, inl, inr, suc, ◌⊎◌,
  some, if◌then◌else◌, Bool-cases, WString, codes,
}
use eacopy.Base.Bytes.{Bytes}
use eacopy.Paths.{
  backslash, to_lower, equals_ignore_case, convert_slash_to_backslash, starts_with_ignore_case,
  is_absolute_path, is_dot_or_dot_dot,
}
use eacopy.Database.Delta.{text_eq_eq, text_eq_refl}
use eacopy.Os.{Os, Entry, found, is_directory, is_readonly, is_reparse_point}
use eacopy.Settings.{Settings}
use eacopy.Files.{delete_file, set_file_writable}
use eacopy.Client.{
  Work, Step, value, Libraries, Link, no_link, holds, add_path, is_ignored_directory,
  is_file_with_attribute_allowed,
}
use eacopy.Client.Arguments.{parse_cmdline}
use eacopy.Client.Lines.{widen}
use eacopy.Client.Handle.{handle_path}
use eacopy.Client.PurgeDirs.{handle_path-Keeps}
use eacopy.Client.Purge.{
  fate_of, relative_dest, handled_path, purge_one, purge_entry, purge_entries, purge_search,
  purge_files_in_directory,
}
use eacopy.Client.Gather.{
  listed_dest, listed_purge_dir, starts_option, gather_options, gather_path, below_source,
  gather_arguments, gather_line,
}

-- Two backslashes side by side.
abbrev pub has_double : WString → Bool
has_double [] = false
has_double (c ∷ []) = false
has_double (c ∷ d ∷ cs) = (c == backslash && d == backslash) || has_double (d ∷ cs)

abbrev pub AllSingle : List WString → Type 0
AllSingle [] = Unit {0}
AllSingle (path ∷ paths) = (has_double path ≡ false) × AllSingle paths

to_lower-backslash : (c : ℕ) → (to_lower c == backslash) ≡ (c == backslash)
to_lower-backslash c = elim (Bool-cases (leb 65 c && leb c 90)) [
  | inl t ↦ ground (arith, t)
  | inr t ↦ rw t refl
]

has_double-to_lower : (path : WString) → has_double (map to_lower path) ≡ has_double path
has_double-to_lower [] = refl
has_double-to_lower (c ∷ []) = refl
has_double-to_lower (c ∷ d ∷ path) =
    rw (to_lower-backslash c, to_lower-backslash d, has_double-to_lower (d ∷ path)) refl

or_true : (b : Bool) → (b || true) ≡ true
or_true true = refl
or_true false = refl

has_double-behind :
    (front behind : WString) → has_double (front ++ backslash ∷ backslash ∷ behind) ≡ true
has_double-behind [] behind = refl
has_double-behind (c ∷ []) behind = or_true _
has_double-behind (c ∷ d ∷ front) behind = rw (has_double-behind (d ∷ front) behind) (or_true _)

holds_single :
    (path : WString) (handled : List WString)
    → has_double path ≡ true
    → AllSingle handled
    → holds path handled ≡ false
unfolding holds equals_ignore_case
holds_single path [] d v = refl
holds_single path (p ∷ handled) d (here, v) = elim (Bool-cases (equals_ignore_case path p)) [
  | inl t ↦
      let same = text_eq_eq (map to_lower path) (map to_lower p) t in
      let both : has_double path ≡ has_double p =
        sym (has_double-to_lower path) ∙ ap has_double same ∙ has_double-to_lower p in
      absurd (ground (arith, both, d, here))
  | inr t ↦ rw (t, holds_single path handled d v) refl
]

holds-snoc : (path : WString) (paths : List WString) → holds path (paths ++ path ∷ []) ≡ true
unfolding holds equals_ignore_case
holds-snoc path [] = rw (text_eq_refl (map to_lower path)) refl
holds-snoc path (p ∷ paths) = rw (holds-snoc path paths) (or_true (equals_ignore_case path p))

holds-add_path : (path : WString) (paths : List WString) → holds path (add_path path paths) ≡ true
unfolding add_path
holds-add_path path paths = elim (Bool-cases (holds path paths)) [
  | inl t ↦ rw (add_path, t) t
  | inr t ↦ rw (add_path, t) (holds-snoc path paths)
]

drop-append : (front behind : WString) → drop (length front) (front ++ behind) ≡ behind
drop-append [] behind = refl
drop-append (c ∷ front) behind = drop-append front behind

module _ (w : Os) (libraries : Libraries w) (settings : Settings) (link : Link) where
  -- The directory to purge for a line that names a destination below the client's.
  abbrev pub purge_dir_of : Bytes → WString
  purge_dir_of name =
      listed_purge_dir w libraries settings link
        (listed_dest w libraries settings link settings.dest_directory (widen name))

  -- A file that the settings do not keep, or the directory itself or the one above it.
  abbrev pub IsPlainEntry : Entry → Type 0
  IsPlainEntry entry =
      ((is_directory entry.attributes ≡ true) × (is_dot_or_dot_dot entry.name ≡ true))
      ⊎ ((is_directory entry.attributes ≡ false)
          × (is_file_with_attribute_allowed settings entry.attributes ≡ true)
          × (is_ignored_directory libraries.matches settings entry.name ≡ false))

  abbrev pub ArePlain : List Entry → Type 0
  ArePlain [] = Unit {0}
  ArePlain (entry ∷ entries) = IsPlainEntry entry × ArePlain entries

  -- The files among the entries are deleted in their order, each after its attribute was taken off it
  -- when it was read-only.
  abbrev pub delete_listed : WString → List Entry → w.State → w.State
  delete_listed directory [] s = s
  delete_listed directory (entry ∷ entries) s = delete_listed directory entries (
      if is_directory entry.attributes
      then s
      else (delete_file w (directory ++ entry.name) false (
          if is_readonly entry.attributes
          then (set_file_writable w (directory ++ entry.name) true s).1
          else s)).1)

  never_handled :
      (name : Bytes) (entry : Entry) (handled : List WString)
      → AllSingle handled
      → is_directory entry.attributes ≡ false
      → holds (handled_path w libraries settings no_link (purge_dir_of name) entry) handled ≡ false
  never_handled name entry handled v file =
      let directory = purge_dir_of name in
      let above = convert_slash_to_backslash (widen name) in
      let below = above ++ backslash ∷ backslash ∷ [] in
      let split : directory ≡ settings.dest_directory ++ below =
        ap (λ t. t ++ backslash ∷ [])
          (append-nil (listed_dest w libraries settings link settings.dest_directory (widen name)))
        ∙ append_assoc (settings.dest_directory ++ above) (backslash ∷ []) (backslash ∷ [])
        ∙ append_assoc settings.dest_directory above (backslash ∷ backslash ∷ []) in
      let longer : ltb (length settings.dest_directory) (length directory) ≡ true =
        lt→ltb (length settings.dest_directory) (length directory) (
          omega (
            arith,
            ap length split,
            length-append settings.dest_directory below,
            length-append above (backslash ∷ backslash ∷ []),
          )) in
      let relative : relative_dest w libraries settings no_link directory ≡ below = rw longer (
        ap (drop (length settings.dest_directory)) split
        ∙ drop-append settings.dest_directory below) in
      let path : handled_path w libraries settings no_link directory entry
          ≡ above ++ backslash ∷ backslash ∷ (entry.name ++ []) =
        rw (relative, file)
          (append_assoc below entry.name []
            ∙ append_assoc above (backslash ∷ backslash ∷ []) (entry.name ++ [])) in
      holds_single (handled_path w libraries settings no_link directory entry) handled
        (ap has_double path ∙ has_double-behind above (entry.name ++ [])) v

  purge_entries-delete_listed :
      (enter : WString → ℕ → Step w.State Bool) (depth : ℕ) (name : Bytes) (entries : List Entry)
      (work : Work w.State)
      → AllSingle work.handled_files
      → ArePlain entries
      → (went : Bool) × (purge_entries w libraries settings no_link enter depth
            (purge_dir_of name)
            entries
            work
          ≡ (value went, record work { os = delete_listed (purge_dir_of name) entries work.os }))
  unfolding purge_entries purge_one purge_entry fate_of
  purge_entries-delete_listed enter depth name [] work v plain = (true, refl)
  purge_entries-delete_listed enter depth name (entry ∷ entries) work v
        (inl (directory, dots), plain) =
      let (went, rest) = purge_entries-delete_listed enter depth name entries work v plain in
      (went, rw (purge_entries, purge_one, fate_of, directory, dots, rest) refl)
  purge_entries-delete_listed enter depth name (entry ∷ entries) work v
        (inr (file, allowed, kept), plain) =
      let unknown = never_handled name entry work.handled_files v file in
      let s1 =
        (if is_readonly entry.attributes
          then (set_file_writable w (purge_dir_of name ++ entry.name) true work.os).1
          else work.os) in
      let gone = delete_file w (purge_dir_of name ++ entry.name) false s1 in
      let (went, rest) =
        purge_entries-delete_listed enter depth name entries (record work { os = gone.1 }) v
          plain in
      (
        gone.0 && went,
        rw
            (
              purge_entries, purge_one, fate_of, unknown, file, allowed, kept, purge_entry, file,
              rest,
            )
            refl,
      )

  gathered :
      (source : WString) (line first second : Bytes) (work : Work w.State)
      → parse_cmdline line ≡ some (first ∷ second ∷ codes "/PURGE" ∷ [])
      → starts_option w libraries settings link (widen second) ≡ false
      → holds
          (purge_dir_of second)
          (gather_line w libraries settings link source settings.dest_directory line
            work).1.purge_dirs
        ≡ true
  unfolding gather_line gather_options gather_path below_source starts_with_ignore_case widen
      is_absolute_path
  gathered source line first second work parsed named =
      let path = convert_slash_to_backslash (widen first) in
      let work1 = record work { purge_dirs = add_path (purge_dir_of second) work.purge_dirs } in
      let step : gather_line w libraries settings link source settings.dest_directory line work
          ≡ handle_path w libraries settings link settings.retry_count
              (if is_absolute_path path then path else source ++ path)
              (listed_dest w libraries settings link settings.dest_directory (widen second)) []
              work1 =
        rw (gather_line, parsed, gather_arguments, named) refl in
      ap (λ r. holds (purge_dir_of second) r.1.purge_dirs) step
      ∙ ap (holds (purge_dir_of second))
          (handle_path-Keeps w libraries settings link settings.retry_count _ _ [] work1)
      ∙ holds-add_path (purge_dir_of second) work.purge_dirs

  -- A line of an input file has a path, a destination below the client's and the option /PURGE. Then,
  -- in whatever way the client ends with the line, the directory for it is one of those to purge, and, as
  -- it ends with two backslashes, purgeFilesInDirectory deletes all files that the system lists there,
  -- also those that were just copied: it does so whatever files were handled by then, as long as no path
  -- of them has two backslashes side by side, when the client purges without a server, the directory is
  -- not a link, and besides itself and the one above it has only files that the settings do not keep.
  pub gather_line-purge_files_in_directory :
      (source : WString) (line first second : Bytes) (work : Work w.State) (depth attributes : ℕ)
      (purging : Work w.State) (entries : List Entry) (error : ℕ)
      → parse_cmdline line ≡ some (first ∷ second ∷ codes "/PURGE" ∷ [])
      → starts_option w libraries settings link (widen second) ≡ false
      → AllSingle purging.handled_files
      → is_reparse_point attributes ≡ false
      → w.find_files (purge_dir_of second ++ codes "*.*") purging.os ≡ found entries error
      → ArePlain entries
      → (holds
            (purge_dir_of second)
            (gather_line w libraries settings link source settings.dest_directory line
              work).1.purge_dirs
          ≡ true)
        × ((purge_files_in_directory w libraries settings no_link
              (suc depth)
              (purge_dir_of second)
              attributes
              purging).1.os
            ≡ delete_listed (purge_dir_of second) entries purging.os)
  unfolding purge_files_in_directory purge_search
  gather_line-purge_files_in_directory source line first second work depth attributes purging
        entries error parsed named v real listing plain =
      let (went, all_gone) =
        purge_entries-delete_listed (purge_files_in_directory w libraries settings no_link depth)
          depth second entries purging v plain in
      (
        gathered source line first second work parsed named,
        rw (purge_files_in_directory, real, purge_search, listing, all_gone) refl,
      )
