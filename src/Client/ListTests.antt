-- ===== src/Client/ListTests.antt =====
-- Tests of the input files of source/EACopyClient.cpp on small inputs.
use eacopy.Base.{
  ℕ, suc, zero, ◌<◌, ◌≡◌, sym, ◌++◌, min, refl, true, [], ◌∷◌, some, take, drop, take-append-drop,
  arith, codes, none, inl, inr,
}
use eacopy.Base.Bytes.{Bytes}
use eacopy.Os.{Os, Entry, found}
use eacopy.Files.{delete_file}
use eacopy.Keys.{no_time}
use eacopy.Os.Memory.{Machine, memory}
use eacopy.Settings.{Settings, default_settings}
use eacopy.Client.{
  Work, value, no_link, add_path, holds, is_file_with_attribute_allowed, is_ignored_directory,
}
use eacopy.Paths.{
  is_dot_or_dot_dot, convert_to_short_path, is_absolute_path, convert_slash_to_backslash,
  equals_ignore_case,
}
use eacopy.Client.Tests.{libraries_of, machine, work_with}
use eacopy.Client.Lines.{exclude_files_from_file, add_line, strip_return, widen}
use eacopy.Client.Arguments.{parse_cmdline}
use eacopy.Client.Words.{parse_cmdline-spaced}
use eacopy.Client.Purge.{purge_files_in_directory}
use eacopy.Client.Gather.{gather_line}
use eacopy.Client.ListedPurge.{gather_line-purge_files_in_directory}
use eacopy.Client.Exclusion.{Input}
use eacopy.Client.Excluded.{exclude_files_from_file-lines_of}

-- A system that reads three bytes at a time.
abbrev piecewise : Os
piecewise = record memory {
  read = λ n m. (some (take (min n 3) m.written), record m { written = drop (min n 3) m.written });
}

take_none : (n : ℕ) (bytes : Bytes) → 0 < n → take n bytes ≡ [] → bytes ≡ []
take_none zero bytes p e = absurd (omega arith)
take_none (suc n) [] p e = refl
take_none (suc n) (b ∷ bytes) p e = absurd (cc)

abbrev input : Input piecewise
input = record {
  remaining = λ m. m.written;
  read-remaining = λ size m p. (
    take (min size 3) m.written,
    refl,
    sym (take-append-drop (min size 3) m.written),
    take_none (min size 3) m.written (omega arith),
  );
}

-- Three lines, of which the second is empty.
abbrev list_file : Work Machine
list_file =
    work_with (record (machine []) { written = codes "a/b" ++ 13 ∷ 10 ∷ 13 ∷ 10 ∷ codes "c.txt" })

exclude_files_from_file-lines_of_example :
    ((exclude_files_from_file piecewise
        (libraries_of piecewise)
        default_settings
        no_link
        20
        (codes "s:\\")
        (codes "d:\\list")
        (codes "e:\\")
        list_file).0
      ≡ value tt)
    × ((exclude_files_from_file piecewise
          (libraries_of piecewise)
          default_settings
          no_link
          20
          (codes "s:\\")
          (codes "d:\\list")
          (codes "e:\\")
          list_file).1.handled_files
        ≡ codes "a\\b" ∷ codes "c.txt" ∷ [])
unfolding is_absolute_path add_line strip_return convert_slash_to_backslash widen add_path
    equals_ignore_case
exclude_files_from_file-lines_of_example =
    exclude_files_from_file-lines_of piecewise (libraries_of piecewise) default_settings no_link
      input 20 (codes "s:\\") (codes "d:\\list") (codes "e:\\") list_file refl refl
      list_file.os.written refl refl (omega arith) (omega arith)

-- A path with backslashes and an option.
parse_cmdline-spaced_example :
    parse_cmdline (codes "a\\b c\\ /PURGE")
    ≡ some (codes "a\\b" ∷ codes "c\\" ∷ codes "/PURGE" ∷ [])
parse_cmdline-spaced_example =
    parse_cmdline-spaced (codes "a\\b") (codes "c\\" ∷ codes "/PURGE" ∷ [])
      (refl, (refl, (refl, tt)))
      ((refl, (refl, tt)), ((refl, (refl, (refl, (refl, (refl, (refl, tt)))))), tt)) (omega arith)
      (omega arith)

-- A file that was just copied to the directory that the line names.
abbrev copied_file : Entry
copied_file = record {
  attributes = 32;
  name = codes "x";
  info = record { creation_time = no_time; last_write_time = no_time; file_size = 1 };
}

abbrev this_one : Entry
this_one = record copied_file { attributes = 16; name = codes "." }

abbrev client_settings : Settings
client_settings = record default_settings { dest_directory = codes "d:\\" }

-- The directory for the line lists the file, and whoever purges it has handled the file.
abbrev listing : Os
listing = record memory {
  find_files = λ path m. found (this_one ∷ copied_file ∷ []) 18;
  delete_file = λ path m. (none, record m { written = m.written ++ path });
}

abbrev purging : Work Machine
purging = record (work_with (machine [])) { handled_files = codes "a\\x" ∷ codes "a\\" ∷ [] }

parsed_line :
    parse_cmdline (codes "s a /PURGE") ≡ some (codes "s" ∷ codes "a" ∷ codes "/PURGE" ∷ [])
parsed_line =
    parse_cmdline-spaced (codes "s") (codes "a" ∷ codes "/PURGE" ∷ []) (refl, tt)
      ((refl, tt), ((refl, (refl, (refl, (refl, (refl, (refl, tt)))))), tt)) (omega arith)
      (omega arith)

gather_line-purge_files_in_directory_example :
    (holds
        (codes "d:\\a\\\\")
        (gather_line listing
          (libraries_of listing)
          client_settings
          no_link
          (codes "s:\\")
          (codes "d:\\")
          (codes "s a /PURGE")
          list_file).1.purge_dirs
      ≡ true)
    × ((purge_files_in_directory listing
          (libraries_of listing)
          client_settings
          no_link
          2
          (codes "d:\\a\\\\")
          16
          purging).1.os
        ≡ record purging.os { written = codes "d:\\a\\\\x" })
unfolding convert_slash_to_backslash is_file_with_attribute_allowed is_ignored_directory widen
    delete_file convert_to_short_path is_dot_or_dot_dot
gather_line-purge_files_in_directory_example =
    gather_line-purge_files_in_directory listing (libraries_of listing) client_settings no_link
      (codes "s:\\") (codes "s a /PURGE") (codes "s") (codes "a") list_file 1 16 purging
      (this_one ∷ copied_file ∷ []) 18 parsed_line refl (refl, (refl, tt)) refl refl
      (inl (refl, refl), (inr (refl, refl, refl), tt))
