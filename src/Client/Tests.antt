-- ===== src/Client/Tests.antt =====
-- The client on concrete inputs.
use eacopy.Base.{
  ◌≤◌, ◌≡◌, refl, true, false, List, [], ◌∷◌, ◌++◌, some, length, WString, codes, arith, text_eq,
}
use eacopy.Base.Bytes.{Bytes, le, from_le, read_number, text_bytes}
use eacopy.Paths.{is_dot_or_dot_dot}
use eacopy.Network.{send_data, receive_data}
use eacopy.Keys.{FileInfo, no_time, no_hash}
use eacopy.Database.{empty_database}
use eacopy.Os.{Os, Entry, Listing, found}
use eacopy.Os.Memory.{Machine, memory}
use eacopy.Network.InMemory.{memory_stream, searching, searching_stream}
use eacopy.Network.Transfer.{corrupt}
use eacopy.Network.Sending.{CompressionStats}
use eacopy.Server.{Connection, World, Ended as Ended'}
use eacopy.Server as Server
use eacopy.Server.Listing.{entry_bytes, listing_bytes, find_files_command}
use eacopy.Client.{Libraries, Work, ClientStats, Ended, value, NameAndFileInfo, buffer_size}
use eacopy.Client.Requests.{receive_blocks}
use eacopy.Client.Listing.{all_listed}
use eacopy.Client.Exchange.{
  receive_blocks-find_files_command, receive_blocks-find_files_command_empty,
}

abbrev pub libraries_of : (w : Os) → Libraries w
libraries_of w = record {
  matches = λ path wildcard. text_eq path wildcard;
  compress = λ level bytes. some bytes;
  decompress = λ bytes. corrupt 1;
  clock = λ s. 0;
  hash_file = λ path s. (some no_hash, s);
  can_open = λ path s. true;
  receive_delta = λ path size s. (false, s);
  allow_delta_copy = false;
  layout = λ request. 12 ∷ 0 ∷ 0 ∷ 0 ∷ [];
  is_open = λ s. true;
  padding = [];
}

abbrev pub levels : CompressionStats
levels = record {
  send_time = [];
  send_bytes = [];
  active_send_time = 0;
  active_send_bytes = 0;
  current_send_time = 0;
  current_send_bytes = 0;
  current_index = 0;
  last_time_unit_per_bytes = 0;
  fixed_level = true;
  current_level = 1;
}

abbrev pub no_stats : ClientStats
no_stats = record {
  copy_count = 0;
  copy_size = 0;
  skip_count = 0;
  skip_size = 0;
  link_count = 0;
  link_size = 0;
  create_dir_count = 0;
  fail_count = 0;
  retry_count = 0;
  processed_by_server_count = 0;
}

abbrev pub info : FileInfo
info = record {
  creation_time = no_time;
  last_write_time = record { low = 5; high = 0 };
  file_size = 2;
}

abbrev pub machine : Bytes → Machine
machine inbox = record { nodes = []; inbox = inbox; outbox = []; written = []; source = [] }

abbrev pub work_with : Machine → Work Machine
work_with m = record {
  copy_entries = [];
  dir_entries = [];
  handled_files = [];
  created_dirs = [];
  purge_dirs = [];
  find_file_cache = [];
  try_copy_first = true;
  database = empty_database;
  compression_stats = levels;
  stats = no_stats;
  os = m;
}

abbrev connection : Connection
connection = record {
  server_path = codes "d:\\";
  is_valid_environment = true;
  is_server_path_external = false;
}

abbrev world : World Machine
world = record { database = empty_database; created_dirs = []; os = machine [] }

abbrev some_file : Entry
some_file = record { attributes = 32; name = codes "r.txt"; info = info }

abbrev this_directory : Entry
this_directory = record { attributes = 16; name = codes "."; info = info }

abbrev find_some : WString → Machine → Listing
find_some path m = found (this_directory ∷ some_file ∷ []) 18

abbrev find_none : WString → Machine → Listing
find_none path m = found (this_directory ∷ []) 18

abbrev answer : (WString → Machine → Listing) → Ended' (Unit {0}) × World Machine
answer find = find_files_command (searching find) connection buffer_size (codes "*.*") world

abbrev client : (WString → Machine → Listing) → Work Machine
client find = work_with (machine ((answer find).1.os.outbox ++ 7 ∷ []))

abbrev received : (WString → Machine → Listing) → Ended (List NameAndFileInfo) × Work Machine
received find = receive_blocks memory (libraries_of memory) 2 [] (client find)

served : (answer find_some).0 ≡ Server.value tt
unfolding find_files_command is_dot_or_dot_dot entry_bytes le text_bytes send_data
served = refl

served_empty : (answer find_none).0 ≡ Server.value tt
unfolding find_files_command is_dot_or_dot_dot entry_bytes le text_bytes send_data
served_empty = refl

arrived : (received find_some).0 ≡ value (all_listed (this_directory ∷ some_file ∷ []))
unfolding receive_blocks receive_data from_le read_number find_files_command is_dot_or_dot_dot
    entry_bytes le text_bytes send_data
arrived = refl

arrived_empty : (received find_none).0 ≡ value []
unfolding receive_blocks receive_data from_le read_number find_files_command is_dot_or_dot_dot
    entry_bytes le text_bytes send_data
arrived_empty = refl

some_bytes : 1 ≤ length (listing_bytes (this_directory ∷ some_file ∷ []))
unfolding is_dot_or_dot_dot entry_bytes le text_bytes
some_bytes = omega arith

receive_blocks-find_files_command_example :
    (all_listed (this_directory ∷ some_file ∷ []) ≡ all_listed (this_directory ∷ some_file ∷ []))
    × ((received find_some).1.os.inbox ≡ 7 ∷ [])
unfolding receive_blocks receive_data from_le read_number find_files_command is_dot_or_dot_dot
    entry_bytes le text_bytes send_data
receive_blocks-find_files_command_example =
    receive_blocks-find_files_command (searching find_some) (searching_stream find_some) connection
      memory memory_stream (libraries_of memory) (codes "*.*") (this_directory ∷ some_file ∷ []) 18
      world (answer find_some).1.os.outbox (7 ∷ []) 0 (client find_some)
      (all_listed (this_directory ∷ some_file ∷ [])) refl (omega arith) (omega arith) some_bytes
      served refl refl arrived

receive_blocks-find_files_command_empty_example :
    (◌≡◌ {A = List NameAndFileInfo} [] [])
    × ((received find_none).1.os.inbox ≡ 0 ∷ 0 ∷ 0 ∷ 0 ∷ 7 ∷ [])
unfolding receive_blocks receive_data from_le read_number find_files_command is_dot_or_dot_dot
    entry_bytes le text_bytes send_data
receive_blocks-find_files_command_empty_example =
    receive_blocks-find_files_command_empty (searching find_none) (searching_stream find_none)
      connection memory memory_stream (libraries_of memory) (codes "*.*") (this_directory ∷ []) 18
      world (answer find_none).1.os.outbox (7 ∷ []) 1 (client find_none) [] refl (omega arith) refl
      served_empty refl refl arrived_empty
