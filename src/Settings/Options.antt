-- ===== src/Settings/Options.antt =====
-- The options of readSettings in source/EACopy.cpp, in the order in which the code tests for them. Each
-- group ends in the next one.
use eacopy.Base.{
  ℕ, ◌-◌, ◌*◌, ◌%◌, true, false, ◌&&◌, not, [], ◌∷◌, ◌++◌, ltb, ◌==◌, if◌then◌else◌, WString, codes,
  is_empty, drop,
}
use eacopy.Paths.{char_at, equals_ignore_case, starts_with_ignore_case}
use eacopy.Settings.{
  Settings, Command, input, exclude_input, address, exclude_file, exclude_directory, optional_file,
  link, link_database, Reading, Parsed, parsed, rejected, required, disabled, enabled, unbuffered,
  u64_max, parse_attributes, parse_copy_flags,
}
use eacopy.Settings.Numbers.{wtoi, word, half_word, to_u64, less_one}
use eacopy.Settings.Parameters.{with_settings, read_other}

abbrev activate : Command → Reading → Parsed Reading
activate command r = parsed (record r { active_command = command })

abbrev set_links : Settings → Settings
set_links s = record s {
  use_links_threshold = if s.use_links_threshold == u64_max then 0 else s.use_links_threshold;
}

-- /OFFLOAD and what follows it.
unfoldable pub copy_options : WString → Reading → Parsed Reading
unfolding read_other
copy_options arg r =
    let s = r.settings in
    if equals_ignore_case arg (codes "/OFFLOAD")
    then with_settings r (record s { use_odx = true })
    else if equals_ignore_case arg (codes "/SYSTEMCOPY")
    then with_settings r (record s { use_system_copy = true })
    else if starts_with_ignore_case arg (codes "/DCOPY:")
    then with_settings r (record s { dir_copy_flags = parse_copy_flags 0 (drop 7 arg) })
    else if equals_ignore_case arg (codes "/NODCOPY")
    then with_settings r (record s { dir_copy_flags = 0 })
    else if starts_with_ignore_case arg (codes "/R:")
    then with_settings r (record s { retry_count = wtoi (drop 3 arg) })
    else if starts_with_ignore_case arg (codes "/W:")
    then with_settings r (record s { retry_wait_time_ms = wtoi (drop 3 arg) * 1000 % word })
    else if starts_with_ignore_case arg (codes "/LOG:")
    then with_settings r (record s { log_file_name = drop 5 arg })
    else if equals_ignore_case arg (codes "/LOGMIN")
    then with_settings r (record s { log_progress = false })
    else if equals_ignore_case arg (codes "/VERBOSE")
    then with_settings r (record s { log_debug = true })
    else if equals_ignore_case arg (codes "/NJH")
    then with_settings r (record s { print_job_header = false })
    else if equals_ignore_case arg (codes "/NJS")
    then with_settings r (record s { print_job_summary = false })
    else if equals_ignore_case arg (codes "/NP")
    then parsed r
    else read_other arg r

-- /XF and what follows it.
unfoldable pub filter_options : WString → Reading → Parsed Reading
unfolding copy_options
filter_options arg r =
    let s = r.settings in
    if starts_with_ignore_case arg (codes "/XF")
    then activate exclude_file r
    else if starts_with_ignore_case arg (codes "/XA:")
    then (if is_empty (drop 4 arg)
        then rejected
        else with_settings r (record s { exclude_attributes = parse_attributes 0 (drop 4 arg) }))
    else if starts_with_ignore_case arg (codes "/IA:")
    then (if is_empty (drop 4 arg)
        then rejected
        else with_settings r (record s { include_attributes = parse_attributes 0 (drop 4 arg) }))
    else if equals_ignore_case arg (codes "/XC")
    then with_settings r (record s { exclude_changed_files = true })
    else if starts_with_ignore_case arg (codes "/XD")
    then activate exclude_directory r
    else if starts_with_ignore_case arg (codes "/OF")
    then activate optional_file r
    else if equals_ignore_case arg (codes "/LINK")
    then parsed (record r { settings = set_links s; active_command = link })
    else if equals_ignore_case arg (codes "/LINKDB")
    then parsed (record r { settings = set_links s; active_command = link_database })
    else if starts_with_ignore_case arg (codes "/LINKMIN:")
    then with_settings r (record s { use_links_threshold = to_u64 (wtoi (drop 9 arg)) })
    else if equals_ignore_case arg (codes "/LINKBYNAME")
    then with_settings r (record s { use_links_relative_path = false })
    else copy_options arg r

-- /KSY and what follows it.
unfoldable pub server_options : WString → Reading → Parsed Reading
unfolding filter_options
server_options arg r =
    let s = r.settings in
    if equals_ignore_case arg (codes "/KSY")
    then with_settings r (record s { replace_sym_links_at_destination = false })
    else if equals_ignore_case arg (codes "/F")
    then with_settings r (record s { flatten_destination = true })
    else if equals_ignore_case arg (codes "/I")
    then activate input r
    else if starts_with_ignore_case arg (codes "/I:")
    then (if not (is_empty s.files_or_wildcards)
        then rejected
        else with_settings r
            (record s { files_or_wildcards_files = s.files_or_wildcards_files ++ drop 3 arg ∷ [] }))
    else if equals_ignore_case arg (codes "/IX")
    then activate exclude_input r
    else if starts_with_ignore_case arg (codes "/MT")
    then with_settings r (record s {
      thread_count = if char_at arg 3 == b':' then less_one (wtoi (drop 4 arg)) else 7;
    })
    else if equals_ignore_case arg (codes "/NOSERVER")
    then with_settings r (record s { use_server = disabled })
    else if equals_ignore_case arg (codes "/SERVER")
    then with_settings r (record s { use_server = required })
    else if equals_ignore_case arg (codes "/SERVERADDR")
    then activate address r
    else if starts_with_ignore_case arg (codes "/SERVERPORT:")
    then with_settings r (record s { server_port = wtoi (drop 12 arg) })
    else if starts_with_ignore_case arg (codes "/C")
    then with_settings r (record s {
      compression_level = if char_at arg 2 == b':' then wtoi (drop 3 arg) % 256 else 255;
    })
    else if starts_with_ignore_case arg (codes "/DC")
    then with_settings r (record s {
      delta_compression_threshold = if char_at arg 3 == b':' then to_u64 (wtoi (drop 4 arg)) else 0;
    })
    else filter_options arg r

abbrev max_depth : ℕ
max_depth = 10000

abbrev deep : Settings → ℕ
deep s = if s.copy_subdir_depth == 0 then max_depth else s.copy_subdir_depth

-- The options from /S on: all of them.
unfoldable pub read_option : WString → Reading → Parsed Reading
unfolding server_options
read_option arg r =
    let s = r.settings in
    if equals_ignore_case arg (codes "/S")
    then (if s.copy_empty_subdirectories
        then rejected
        else parsed (record r {
          settings = record s { copy_subdir_depth = deep s };
          copy_subdirectories = true;
        }))
    else if equals_ignore_case arg (codes "/E")
    then (if r.copy_subdirectories && not s.copy_empty_subdirectories
        then rejected
        else parsed (record r {
          settings = record s { copy_subdir_depth = deep s; copy_empty_subdirectories = true };
          copy_subdirectories = true;
        }))
    else if starts_with_ignore_case arg (codes "/LEV:")
    then (let depth = wtoi (drop 5 arg) in
        let less = (if ltb 0 depth && ltb depth half_word then depth - 1 else depth) in
        with_settings r (record s { copy_subdir_depth = less }))
    else if equals_ignore_case arg (codes "/J")
    then with_settings r (record s { use_buffered_io = enabled })
    else if equals_ignore_case arg (codes "/NJ")
    then with_settings r (record s { use_buffered_io = unbuffered })
    else if equals_ignore_case arg (codes "/PURGE")
    then with_settings r (record s { purge_destination = true })
    else if equals_ignore_case arg (codes "/MIR")
    then parsed (record r {
      settings = record s {
        purge_destination = true;
        copy_subdir_depth = max_depth;
        copy_empty_subdirectories = true;
      };
      copy_subdirectories = true;
    })
    else server_options arg r
