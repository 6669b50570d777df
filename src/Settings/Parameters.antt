-- ===== src/Settings/Parameters.antt =====
-- The arguments that readSettings does not know as options: parameters and those of the active command.
use eacopy.Base.{
  ◌+◌, false, not, [], ◌∷◌, ◌++◌, Option, none, some, ◌==◌, if◌then◌else◌, WString, is_empty,
}
use eacopy.Paths.{char_at, get_cleanedup_path}
use eacopy.Settings.{
  Settings, Command, no_command, input, exclude_input, address, exclude_file, exclude_directory,
  optional_file, link, link_database, Reading, Parsed, parsed, rejected, overrun,
}
use eacopy.Settings.Numbers.{wtoi}

abbrev pub with_settings : Reading → Settings → Parsed Reading
with_settings r settings = parsed (record r { settings = settings })

-- getCleanedupPath with its default arguments, and what follows it.
abbrev pub cleaned_up : WString → (WString → Parsed Reading) → Parsed Reading
cleaned_up arg next = elim (get_cleanedup_path arg 2 false) [
  | none ↦ overrun
  | some path ↦ next path
]

-- The text before the first colon and the text behind it.
abbrev split_colon : WString → Option (WString × WString)
split_colon [] = none
split_colon (c ∷ cs) =
    let rest = split_colon cs in
    if c == b':'
    then some ([], cs)
    else elim rest [ none ↦ none | some (host, port) ↦ some (c ∷ host, port) ]

-- A source directory, a destination directory, or a wildcard.
unfoldable pub read_parameter : WString → Reading → Parsed Reading
read_parameter arg r =
    let next =
      λ (s : Settings). parsed (record r { settings = s; param_index = r.param_index + 1 }) in
    let s = r.settings in
    if r.param_index == 0
    then cleaned_up arg (λ path. next (record s { source_directory = path }))
    else if r.param_index == 1
    then cleaned_up arg (λ path. next (record s { dest_directory = path }))
    else next (record s { files_or_wildcards = s.files_or_wildcards ++ arg ∷ [] })

abbrev set_address : WString → Settings → Settings
set_address arg s = elim (split_colon arg) [
  | none ↦ record s { server_address = arg }
  | some (host, port) ↦ record s { server_address = host; server_port = wtoi port }
]

unfoldable pub read_for_command : Command → WString → Reading → Parsed Reading
read_for_command no_command arg r = rejected
read_for_command address arg r = with_settings r (set_address arg r.settings)
read_for_command exclude_file arg r =
    with_settings r
      (record r.settings { exclude_wildcards = r.settings.exclude_wildcards ++ arg ∷ [] })
read_for_command exclude_directory arg r = with_settings r (record r.settings {
  exclude_wildcard_directories = r.settings.exclude_wildcard_directories ++ arg ∷ [];
})
read_for_command link arg r = cleaned_up arg (λ path. with_settings r (record r.settings {
  additional_link_directories = r.settings.additional_link_directories ++ path ∷ [];
}))
read_for_command link_database arg r =
    with_settings r (record r.settings { link_database_file = arg })
read_for_command optional_file arg r =
    with_settings r
      (record r.settings { optional_wildcards = r.settings.optional_wildcards ++ arg ∷ [] })
read_for_command input arg r =
    if not (is_empty r.settings.files_or_wildcards)
    then rejected
    else with_settings r (record r.settings {
      files_or_wildcards_files = r.settings.files_or_wildcards_files ++ arg ∷ [];
    })
read_for_command exclude_input arg r =
    if not (is_empty r.settings.files_or_wildcards)
    then rejected
    else with_settings r
        (record r.settings { files_exclude_files = r.settings.files_exclude_files ++ arg ∷ [] })

-- The last branch of readSettings.
unfoldable pub read_other : WString → Reading → Parsed Reading
unfolding read_parameter read_for_command
read_other arg r = elim r.active_command [
  | no_command ↦ if not (char_at arg 0 == b'/') then read_parameter arg r else rejected
  | command ↦ read_for_command command arg r
]
