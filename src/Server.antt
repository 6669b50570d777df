-- ===== src/Server.antt =====
-- source/EACopyServer.cpp and include/EACopyServer.h: what a connection's handlers share. A handler is a
-- step on the server's database, the session's directories and the operating system.
pub mod Queues
pub mod Write
pub mod Sound
pub mod Skips
pub mod Read
pub mod Kept
pub mod Listing
pub mod Overflow
pub mod ListingSent
pub mod Sessions
pub mod Balance
pub mod Admission
mod SessionTests
mod Tests
pub mod Directories
use eacopy.Base.{if◌then◌else◌, ℕ, Bool, true, false, List, Option, none, some, WString}
use eacopy.Base.Bytes.{Bytes}
use eacopy.Database.{Database}
use eacopy.Os.{Os}
use eacopy.Network.{send_data, receive_data}
use eacopy.Settings.{UseBufferedIo, auto, enabled, unbuffered}

pub record ServerSettings : Type 0 where
  pub use_hash : Bool
  pub use_links_threshold : ℕ
  pub use_links_relative_path : Bool
  pub use_odx : Bool
  pub use_buffered_io : UseBufferedIo
  pub max_concurrent_download_count : ℕ

-- What connectionThread keeps of a connection.
pub record Connection : Type 0 where
  pub server_path : WString
  pub is_valid_environment : Bool
  pub is_server_path_external : Bool

pub record World (S : Type 0) : Type 0 where
  pub database : Database
  pub created_dirs : List WString
  pub os : S

-- How a handler ends: `value` goes on, `closed` is `return -1`, `fault` is undefined behaviour, and
-- `stuck` a loop that the rounds given did not end.
pub data Ended (A : Type 0) : Type 0 where
  value : A → Ended A
  closed fault stuck : Ended A

abbrev pub Step : Type 0 → Type 0 → Type 0
Step S A = World S → Ended A × World S

abbrev pub pure : {S A : Type 0} → A → Step S A
pure a world = (value a, world)

-- Goes on from where a step has ended.
abbrev pub resume : {S A B : Type 0} → (A → Step S B) → Ended A × World S → Ended B × World S
resume f (value a, world) = f a world
resume f (closed, world) = (closed, world)
resume f (fault, world) = (fault, world)
resume f (stuck, world) = (stuck, world)

infixl 5 ◌>>=◌ ◌>>◌
abbrev pub ◌>>=◌ : {S A B : Type 0} → Step S A → (A → Step S B) → Step S B
◌>>=◌ m f world = resume f (m world)

abbrev pub ◌>>◌ : {S B : Type 0} → Step S (Unit {0}) → Step S B → Step S B
m >> k = m >>= λ _. k

abbrev pub give_up : {S A : Type 0} → Step S A
give_up world = (closed, world)

-- A call of the operating system.
abbrev pub call : {S A : Type 0} → (S → A × S) → Step S A
call f world = let (a, os) = f world.os in (value a, record world { os = os })

-- A change of the database, where `none` is undefined behaviour.
abbrev pub change_database : {S : Type 0} → (Database → Option Database) → Step S (Unit {0})
change_database f world = elim (f world.database) [
  | none ↦ (fault, world)
  | some db ↦ (value tt, record world { database = db })
]

-- `if (!sendData(...)) return -1;`
abbrev pub send_or_close : (w : Os) → Bytes → Step w.State (Unit {0})
send_or_close w bytes world =
    let (sent_all, os) = send_data w bytes world.os in
    (if sent_all then value tt else closed, record world { os = os })

-- `if (!receiveData(...)) return -1;`
abbrev pub receive_or_close : (w : Os) → ℕ → Step w.State Bytes
receive_or_close w size world =
    let (bytes, os) = receive_data w size world.os in
    (elim bytes [ none ↦ closed | some b ↦ value b ], record world { os = os })

-- getUseBufferedIO, with NoBufferingIOUseTreshold off.
unfoldable pub get_use_buffered_io : UseBufferedIo → Bool
get_use_buffered_io auto = true
get_use_buffered_io enabled = true
get_use_buffered_io unbuffered = false
