-- ===== src/Settings/Arguments.antt =====
-- readSettings of source/EACopy.cpp: the loop over the arguments and what follows it, in a release build.
-- `optimize` stands for optimizeUncPath, which asks the network for the addresses of a host.
use eacopy.Base.{
  Bool, true, false, ◌&&◌, List, [], ◌∷◌, ◌==◌, if◌then◌else◌, WString, codes, is_empty, map,
}
use eacopy.Paths.{char_at}
use eacopy.Settings.{
  Settings, default_settings, no_command, Reading, Parsed, parsed, rejected, overrun, UseServer,
  automatic, required, disabled,
}
use eacopy.Settings.Options.{read_option}

-- One round of the loop.
unfoldable pub read_argument : WString → Reading → Parsed Reading
unfolding read_option
read_argument arg r =
    read_option arg (if char_at arg 0 == b'/' then record r { active_command = no_command } else r)

unfoldable pub read_arguments : List WString → Reading → Parsed Reading
unfolding read_argument
read_arguments [] r = parsed r
read_arguments (arg ∷ args) r = elim (read_argument arg r) [
  | parsed r' ↦ read_arguments args r'
  | rejected ↦ rejected
  | overrun ↦ overrun
]

abbrev pub first_reading : Reading
first_reading = record {
  settings = default_settings;
  active_command = no_command;
  copy_subdirectories = false;
  param_index = 0;
}

abbrev allows_local : UseServer → Bool
allows_local required = false
allows_local automatic = true
allows_local disabled = true

unfoldable pub finish_settings : (WString → Bool → WString) → Settings → Settings
finish_settings optimize s =
    let local = allows_local s.use_server in
    record s {
      source_directory = optimize s.source_directory local;
      dest_directory = optimize s.dest_directory local;
      additional_link_directories = map (λ dir. optimize dir local) s.additional_link_directories;
      files_or_wildcards =
          if is_empty s.files_or_wildcards_files && is_empty s.files_or_wildcards
          then codes "*.*" ∷ []
          else s.files_or_wildcards;
    }

-- readSettings, for the arguments behind the program's name.
unfoldable pub read_settings : (WString → Bool → WString) → List WString → Parsed Settings
unfolding read_arguments finish_settings
read_settings optimize args = elim (read_arguments args first_reading) [
  | parsed r ↦ parsed (finish_settings optimize r.settings)
  | rejected ↦ rejected
  | overrun ↦ overrun
]
