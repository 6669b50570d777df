-- ===== src/Client.antt =====
-- source/EACopyClient.cpp and include/EACopyClient.h: what the parts of the client share. A part is a
-- step on the queues of files and directories, the sets of paths, the database of links, some of the
-- counters, and the operating system. A thread's step is taken here with no other thread's between.
pub mod Requests
pub mod Upload
pub mod Download
pub mod ProcessFile
pub mod Counted
pub mod FileCounts
pub mod Handle
pub mod Traverse
pub mod Purge
pub mod Threads
pub mod Workers
pub mod Spared
pub mod Responses
pub mod Listing
pub mod Answers
pub mod Exchange
pub mod Lines
pub mod LineList
pub mod Exclusion
pub mod Excluded
pub mod Arguments
pub mod Words
pub mod Gather
pub mod PurgeDirs
pub mod ListedPurge
mod Tests
mod FileTests
mod ListTests
use eacopy.Base.{
  ℕ, zero, suc, ◌+◌, ◌%◌, ◌/◌, Bool, true, false, ◌&&◌, ◌||◌, not, List, [], ◌∷◌, ◌++◌, Option,
  none, some, length, drop, ◌==◌, if◌then◌else◌, WString,
}
use eacopy.Base.Bytes.{Bytes}
use eacopy.Keys.{Hash, FileInfo, FileKey}
use eacopy.Database.{Database}
use eacopy.Paths.{equals_ignore_case, file_name_of, starts_with_ignore_case}
use eacopy.Os.{Os}
use eacopy.Settings.{Settings}
use eacopy.Network.{send_data, receive_data}
use eacopy.Network.Transfer.{Decompressed}
use eacopy.Network.Sending.{CompressionStats}
use eacopy.Server.Write.{WriteCommand}
use eacopy.Server.Read.{ReadCommand}

-- struct CopyEntry
pub record CopyEntry : Type 0 where
  pub src : WString
  pub dst : WString
  pub src_info : FileInfo
  pub attributes : ℕ

-- struct DirEntry
pub record DirEntry : Type 0 where
  pub source_dir : WString
  pub dest_dir : WString
  pub wildcard : WString
  pub depth_left : ℕ

-- struct NameAndFileInfo
pub record NameAndFileInfo : Type 0 where
  pub name : WString
  pub info : FileInfo
  pub attributes : ℕ

-- The counters of ClientStats that do not count time or calls.
pub record ClientStats : Type 0 where
  pub copy_count : ℕ
  pub copy_size : ℕ
  pub skip_count : ℕ
  pub skip_size : ℕ
  pub link_count : ℕ
  pub link_size : ℕ
  pub create_dir_count : ℕ
  pub fail_count : ℕ
  pub retry_count : ℕ
  pub processed_by_server_count : ℕ

-- `a += b` on u64
abbrev pub add64 : ℕ → ℕ → ℕ
add64 a b = (a + b) % 18446744073709551616

pub record Work (S : Type 0) : Type 0 where
  pub copy_entries : List CopyEntry
  pub dir_entries : List DirEntry
  pub handled_files : List WString
  pub created_dirs : List WString
  pub purge_dirs : List WString
  -- findFileCache of process: the names that the input files list, by their directories.
  pub find_file_cache : List (WString × List WString)
  pub try_copy_first : Bool
  pub database : Database
  pub compression_stats : CompressionStats
  pub stats : ClientStats
  pub os : S

-- FilesSet: a set of paths that are told apart without regard to case.
unfoldable pub holds : WString → List WString → Bool
holds path [] = false
holds path (p ∷ ps) = equals_ignore_case path p || holds path ps

unfoldable pub add_path : WString → List WString → List WString
unfolding holds
add_path path paths = if holds path paths then paths else paths ++ path ∷ []

-- How a step ends: `failed` is a return of false (or of an error), `fault` is undefined behaviour, and
-- `stuck` a loop that the rounds given did not end.
pub data Ended (A : Type 0) : Type 0 where
  value : A → Ended A
  failed fault stuck : Ended A

abbrev pub Step : Type 0 → Type 0 → Type 0
Step S A = Work S → Ended A × Work S

abbrev pub pure : {S A : Type 0} → A → Step S A
pure a work = (value a, work)

abbrev pub resume : {S A B : Type 0} → (A → Step S B) → Ended A × Work S → Ended B × Work S
resume f (value a, work) = f a work
resume f (failed, work) = (failed, work)
resume f (fault, work) = (fault, work)
resume f (stuck, work) = (stuck, work)

infixl 5 ◌>>=◌ ◌>>◌
abbrev pub ◌>>=◌ : {S A B : Type 0} → Step S A → (A → Step S B) → Step S B
◌>>=◌ m f work = resume f (m work)

abbrev pub ◌>>◌ : {S B : Type 0} → Step S (Unit {0}) → Step S B → Step S B
m >> k = m >>= λ _. k

abbrev pub fail : {S A : Type 0} → Step S A
fail work = (failed, work)

-- Whether a step succeeds, where the code goes on after a return of false.
abbrev pub tried : {S : Type 0} → Ended (Unit {0}) × Work S → Ended Bool × Work S
tried (value a, work) = (value true, work)
tried (failed, work) = (value false, work)
tried (fault, work) = (fault, work)
tried (stuck, work) = (stuck, work)

abbrev pub attempt : {S : Type 0} → Step S (Unit {0}) → Step S Bool
attempt m work = tried (m work)

-- Goes on in another way after a failure.
abbrev pub recover : {S A : Type 0} → Step S A → Ended A × Work S → Ended A × Work S
recover f (value a, work) = (value a, work)
recover f (failed, work) = f work
recover f (fault, work) = (fault, work)
recover f (stuck, work) = (stuck, work)

-- A call of the operating system.
abbrev pub call : {S A : Type 0} → (S → A × S) → Step S A
call f work = let (a, os) = f work.os in (value a, record work { os = os })

-- A change of the database, where `none` is undefined behaviour.
abbrev pub change_database : {S : Type 0} → (Database → Option Database) → Step S (Unit {0})
change_database f work = elim (f work.database) [
  | none ↦ (fault, work)
  | some db ↦ (value tt, record work { database = db })
]

abbrev pub change_stats : {S : Type 0} → (ClientStats → ClientStats) → Step S (Unit {0})
change_stats f work = (value tt, record work { stats = f work.stats })

-- `if (!sendData(...)) return false;`
abbrev pub send_or_fail : (w : Os) → Bytes → Step w.State (Unit {0})
send_or_fail w bytes work =
    let (sent_all, os) = send_data w bytes work.os in
    (if sent_all then value tt else failed, record work { os = os })

-- `if (!receiveData(...)) return false;`
abbrev pub receive_or_fail : (w : Os) → ℕ → Step w.State Bytes
receive_or_fail w size work =
    let (bytes, os) = receive_data w size work.os in
    (elim bytes [ none ↦ failed | some b ↦ value b ], record work { os = os })

-- The commands that the client sends for its files.
pub data Request : Type 0 where
  write_file : WriteCommand → Request
  read_file : ReadCommand → Request
  create_dir delete_files find_files get_file_info : WString → Request

-- Which server a thread is connected to: that of the destination, or else that of the source.
pub data Link : Type 0 where
  no_link to_dest to_source : Link

-- What the client uses besides: PathMatchSpecW, the libraries for compression and hashes, whether
-- _wfopen_s opens a file, the clock, the layout that the compiler gives a command, isValidSocket, the bytes behind those that were read into a
-- buffer, and whether delta copies are compiled in.
pub record Libraries (w : Os) : Type 0 where
  pub matches : WString → WString → Bool
  pub compress : ℕ → Bytes → Option Bytes
  pub decompress : Bytes → Decompressed
  pub clock : w.State → ℕ
  pub hash_file : WString → w.State → Option Hash × w.State
  pub can_open : WString → w.State → Bool
  pub receive_delta : WString → ℕ → w.State → Bool × w.State
  pub allow_delta_copy : Bool
  pub layout : Request → Bytes
  pub is_open : w.State → Bool
  pub padding : Bytes

-- CopyContextBufferSize
abbrev pub buffer_size : ℕ
buffer_size = 8388608

-- MaxPath, the room for a path in a command with its terminator.
abbrev pub max_path : ℕ
max_path = 4096

-- getFileKeyPath
unfoldable pub get_file_key_path : Settings → WString → WString
get_file_key_path settings relative_path =
    if settings.use_links_relative_path then relative_path else file_name_of relative_path

-- getRelativeSourceFile
unfoldable pub get_relative_source_file : Settings → WString → WString
get_relative_source_file settings source_path =
    if starts_with_ignore_case source_path settings.source_directory
    then drop (length settings.source_directory) source_path
    else source_path

-- The loop over a list of wildcards.
unfoldable pub any_matches : (WString → WString → Bool) → WString → List WString → Bool
any_matches matches path [] = false
any_matches matches path (wildcard ∷ wildcards) =
    matches path wildcard || any_matches matches path wildcards

-- isIgnoredDirectory
unfoldable pub is_ignored_directory : (WString → WString → Bool) → Settings → WString → Bool
unfolding any_matches
is_ignored_directory matches settings directory =
    any_matches matches directory settings.exclude_wildcard_directories

-- The lowest bits of two masks, up to as many as are given, that are set in both.
unfoldable pub shares_bit : ℕ → ℕ → ℕ → Bool
shares_bit zero a b = false
shares_bit (suc bits) a b = (a % 2 == 1 && b % 2 == 1) || shares_bit bits (a / 2) (b / 2)

-- isFileWithAttributeAllowed
unfoldable pub is_file_with_attribute_allowed : Settings → ℕ → Bool
unfolding shares_bit
is_file_with_attribute_allowed settings file_attr =
    (settings.exclude_attributes == 0 || not (shares_bit 32 file_attr settings.exclude_attributes))
    && (settings.include_attributes == 0 || shares_bit 32 file_attr settings.include_attributes)
