-- ===== src/Settings/Tests.antt =====
-- Command lines.
use eacopy.Base.{ℕ, ◌≡◌, refl, Bool, true, false, List, [], ◌∷◌, some, WString, codes}
use eacopy.Paths.{get_cleanedup_path, equals_ignore_case, starts_with_ignore_case}
use eacopy.Settings.{default_settings, no_command, parsed, rejected, overrun, parse_attributes}
use eacopy.Settings.Numbers.{wtoi}
use eacopy.Settings.Arguments.{first_reading, read_argument, read_settings}
use eacopy.Settings.DirCopy.{read_argument-dcopy}
use eacopy.Settings.Plain.{read_settings-Plain}

abbrev unchanged : WString → Bool → WString
unchanged path local = path

abbrev arguments : List WString
arguments =
    codes "c:\\in"
    ∷ codes "\\\\host/out"
    ∷ codes "/s"
    ∷ codes "*.txt"
    ∷ codes "/xf"
    ∷ codes "a.txt"
    ∷ codes "b.txt"
    ∷ codes "/MT:8"
    ∷ []

abbrev threads : List WString → ℕ
threads args = elim (read_settings unchanged args) [
  | parsed s ↦ s.thread_count
  | rejected ↦ 99
  | overrun ↦ 98
]

eight : threads arguments ≡ 7
unfolding read_settings get_cleanedup_path wtoi equals_ignore_case starts_with_ignore_case
eight = refl

minus : wtoi (codes " -3x") ≡ 4294967293
unfolding wtoi
minus = refl

letters : parse_attributes 0 (codes "RxR-H") ≡ 3
unfolding parse_attributes
letters = refl

both : read_settings unchanged (codes "/S" ∷ codes "/E" ∷ []) ≡ rejected
unfolding read_settings equals_ignore_case starts_with_ignore_case
both = refl

cleaned_source : get_cleanedup_path (codes "c:\\in") 2 false ≡ some (codes "c:\\in\\")
unfolding get_cleanedup_path
cleaned_source = refl

cleaned_dest : get_cleanedup_path (codes "\\\\host/out") 2 false ≡ some (codes "\\\\host\\out\\")
unfolding get_cleanedup_path
cleaned_dest = refl

begins : starts_with_ignore_case (codes "/dcopy:DAT") (codes "/DCOPY:") ≡ true
unfolding starts_with_ignore_case
begins = refl

read_argument-dcopy_example :
    read_argument (codes "/dcopy:DAT") first_reading
    ≡ parsed (record first_reading {
      settings = record default_settings { delta_compression_threshold = 0 };
      active_command = no_command;
    })
read_argument-dcopy_example = read_argument-dcopy (codes "/dcopy:DAT") first_reading begins

read_settings-Plain_example :
    read_settings unchanged (codes "c:\\in" ∷ codes "\\\\host/out" ∷ [])
    ≡ parsed (record default_settings {
      source_directory = codes "c:\\in\\";
      dest_directory = codes "\\\\host\\out\\";
      files_or_wildcards = codes "*.*" ∷ [];
    })
read_settings-Plain_example =
    read_settings-Plain unchanged (codes "c:\\in") (codes "\\\\host/out") (codes "c:\\in\\")
      (codes "\\\\host\\out\\") [] (refl, (refl, record {})) cleaned_source cleaned_dest
