-- ===== src/Settings.antt =====
-- Settings of source/EACopy.cpp and ClientSettings of include/EACopyClient.h: what the command line sets.
pub mod Numbers
pub mod Parameters
pub mod Options
pub mod Arguments
pub mod Plain
mod Tests
pub mod DirCopy
use eacopy.Base.{
  ℕ, ◌+◌, ◌/◌, ◌%◌, Bool, true, false, List, [], ◌∷◌, Option, none, some, ◌==◌, if◌then◌else◌,
  WString,
}
use eacopy.Paths.{get_cleanedup_path}

pub data UseServer : Type 0 where
  automatic required disabled : UseServer

pub data UseBufferedIo : Type 0 where
  auto enabled unbuffered : UseBufferedIo

pub record Settings : Type 0 where
  pub source_directory : WString
  pub dest_directory : WString
  pub files_or_wildcards : List WString
  pub files_or_wildcards_files : List WString
  pub files_exclude_files : List WString
  pub exclude_wildcards : List WString
  pub exclude_wildcard_directories : List WString
  pub exclude_attributes : ℕ
  pub include_attributes : ℕ
  pub optional_wildcards : List WString
  pub thread_count : ℕ
  pub retry_wait_time_ms : ℕ
  pub retry_count : ℕ
  pub dir_copy_flags : ℕ
  pub force_copy : Bool
  pub use_optimized_wild_card_file_search : Bool
  pub flatten_destination : Bool
  pub copy_subdir_depth : ℕ
  pub copy_empty_subdirectories : Bool
  pub exclude_changed_files : Bool
  pub purge_destination : Bool
  pub use_server : UseServer
  pub server_address : WString
  pub server_port : ℕ
  pub delta_compression_threshold : ℕ
  pub compression_level : ℕ
  pub log_progress : Bool
  pub log_debug : Bool
  pub use_buffered_io : UseBufferedIo
  pub replace_sym_links_at_destination : Bool
  pub use_links_threshold : ℕ
  pub use_links_relative_path : Bool
  pub use_odx : Bool
  pub use_system_copy : Bool
  pub additional_link_directories : List WString
  pub link_database_file : WString
  pub log_file_name : WString
  pub print_job_header : Bool
  pub print_job_summary : Bool

-- ~u64(0)
abbrev pub u64_max : ℕ
u64_max = 18446744073709551615

abbrev pub default_settings : Settings
default_settings = record {
  source_directory = [];
  dest_directory = [];
  files_or_wildcards = [];
  files_or_wildcards_files = [];
  files_exclude_files = [];
  exclude_wildcards = [];
  exclude_wildcard_directories = [];
  exclude_attributes = 0;
  include_attributes = 0;
  optional_wildcards = [];
  thread_count = 0;
  retry_wait_time_ms = 30000;
  retry_count = 1000000;
  dir_copy_flags = 3;
  force_copy = false;
  use_optimized_wild_card_file_search = true;
  flatten_destination = false;
  copy_subdir_depth = 0;
  copy_empty_subdirectories = false;
  exclude_changed_files = false;
  purge_destination = false;
  use_server = automatic;
  server_address = [];
  server_port = 18099;
  delta_compression_threshold = u64_max;
  compression_level = 0;
  log_progress = true;
  log_debug = false;
  use_buffered_io = auto;
  replace_sym_links_at_destination = true;
  use_links_threshold = u64_max;
  use_links_relative_path = true;
  use_odx = false;
  use_system_copy = false;
  additional_link_directories = [];
  link_database_file = [];
  log_file_name = [];
  print_job_header = true;
  print_job_summary = true;
}

-- `activeCommand`
pub data Command : Type 0 where
  no_command input exclude_input address exclude_file exclude_directory optional_file link
        link_database :
      Command

-- What readSettings keeps from one argument to the next.
pub record Reading : Type 0 where
  pub settings : Settings
  pub active_command : Command
  pub copy_subdirectories : Bool
  pub param_index : ℕ

-- How an argument is read: readSettings returns false after `rejected`, and `overrun` is a path that
-- does not fit the buffer of getCleanedupPath.
pub data Parsed (A : Type 0) : Type 0 where
  parsed : A → Parsed A
  rejected overrun : Parsed A

-- Sets a bit, given as a power of two.
abbrev pub with_bit : ℕ → ℕ → ℕ
with_bit bit x = if x / bit % 2 == 1 then x else x + bit

-- The bit of a letter in `/XA:` and `/IA:`.
abbrev attribute_bit : ℕ → Option ℕ
attribute_bit c =
    if c == b'R'
    then some 1
    else if c == b'A'
    then some 32
    else if c == b'S'
    then some 4
    else if c == b'H'
    then some 2
    else if c == b'C'
    then some 2048
    else if c == b'N'
    then some 8192
    else if c == b'E'
    then some 16384
    else if c == b'T'
    then some 256
    else if c == b'O'
    then some 4096
    else none

-- parseAttributesRASHCNETO, from a result on.
unfoldable pub parse_attributes : ℕ → WString → ℕ
parse_attributes result [] = result
parse_attributes result (c ∷ cs) = elim (attribute_bit c) [
  | some bit ↦ parse_attributes (with_bit bit result) cs
  | none ↦ parse_attributes result cs
]

-- The loop over the letters of `/DCOPY:`.
unfoldable pub parse_copy_flags : ℕ → WString → ℕ
parse_copy_flags flags [] = flags
parse_copy_flags flags (c ∷ cs) =
    let flags' =
      (if c == b'D'
        then with_bit 1 flags
        else if c == b'A'
        then with_bit 2 flags
        else if c == b'T'
        then with_bit 4 flags
        else flags) in
    parse_copy_flags flags' cs
