-- ===== src/Os.antt =====
-- What the code calls of Windows and its sockets, over an unknown state. `none` for an error is
-- success; a number is what GetLastError then gives, and `last_error` what it gives at another time.
pub mod Memory
use eacopy.Base.{ℕ, Bool, List, Option, WString, ◌==◌, ◌/◌, ◌%◌}
use eacopy.Base.Bytes.{Bytes}
use eacopy.Keys.{FileInfo, FileTime}

-- GetFileAttributesExW
pub data Stat : Type 0 where
  missing : ℕ → Stat
  present : ℕ → FileInfo → Stat

-- An entry of a directory, as FindFirstFileExW and FindNextFileW give it.
pub record Entry : Type 0 where
  pub attributes : ℕ
  pub name : WString
  pub info : FileInfo

-- A search: it fails, or gives entries and then an error.
pub data Listing : Type 0 where
  not_found : ℕ → Listing
  found : List Entry → ℕ → Listing

-- recv; `received []` is a closed connection. No more bytes come than the call asks for.
pub data Received : Type 0 where
  received : Bytes → Received
  recv_failed : ℕ → Received

-- send; `sent n` has taken n + 1 bytes, as a blocking send takes some of a buffer that is not empty.
pub data Sent : Type 0 where
  sent : ℕ → Sent
  send_failed : ℕ → Sent

pub record Os : Type 1 where
  pub State : Type 0
  pub last_error : State → ℕ
  pub stat : WString → State → Stat
  pub find_files : WString → State → Listing
  pub create_directory : WString → State → Option ℕ × State
  pub remove_directory : WString → State → Option ℕ × State
  pub set_attributes : WString → ℕ → State → Option ℕ × State
  pub create_hard_link : WString → WString → State → Option ℕ × State
  pub copy_file : WString → WString → Bool → State → Option ℕ × State
  pub delete_file : WString → State → Option ℕ × State
  pub move_file : WString → WString → State → Option ℕ × State
  pub open_write : WString → Bool → State → Option ℕ × State
  pub write : Bytes → State → Option ℕ × State
  pub set_file_time : FileTime → State → Option ℕ × State
  pub close : State → Option ℕ × State
  pub open_read : WString → Bool → State → Option ℕ × State
  pub read : ℕ → State → Option Bytes × State
  pub transmit : ℕ → ℕ → State → Option ℕ × State
  pub send : Bytes → State → Sent × State
  pub recv : ℕ → State → Received × State
  -- The files of a copy: the one that is written, which `write` and `close` are for too, made anew
  -- if it may not exist, and the source, of which a read gives a place and a size.
  pub create_file : WString → Bool → Bool → State → Option ℕ × State
  pub open_source : WString → Bool → State → Option ℕ × State
  pub read_at : ℕ → ℕ → State → Option Bytes × State
  pub cut : ℕ → State → State
  pub close_source : State → Option ℕ × State

-- Error codes and attribute bits.
abbrev pub error_file_not_found : ℕ
error_file_not_found = 2

abbrev pub error_path_not_found : ℕ
error_path_not_found = 3

abbrev pub error_no_more_files : ℕ
error_no_more_files = 18

abbrev pub error_file_exists : ℕ
error_file_exists = 80

abbrev pub error_already_exists : ℕ
error_already_exists = 183

abbrev pub is_readonly : ℕ → Bool
is_readonly attributes = attributes % 2 == 1

abbrev pub is_directory : ℕ → Bool
is_directory attributes = attributes / 16 % 2 == 1

abbrev pub is_reparse_point : ℕ → Bool
is_reparse_point attributes = attributes / 1024 % 2 == 1
