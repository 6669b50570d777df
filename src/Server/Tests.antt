-- ===== src/Server/Tests.antt =====
-- The server's handlers on a machine in memory.
use eacopy.Base.{
  length, some, ◌⊎◌, ℕ, ◌+◌, ◌*◌, ◌<◌, ◌≡◌, ◌↔◌, refl, true, false, List, [], ◌∷◌, codes, arith,
}
use eacopy.Keys.{no_hash, no_time, FileInfo, equals}
use eacopy.Base.OrdMap.{find}
use eacopy.Paths.{convert_to_short_path, split_last}
use eacopy.Database.{get_record, empty_database}
use eacopy.Database.Invariant.{Inv, empty_database-Inv}
use eacopy.Os.{Os, Entry, found}
use eacopy.Base.Bytes.{le, text_bytes}
use eacopy.Os.Memory.{Machine, memory}
use eacopy.Files.{get_file_info}
use eacopy.Network.Transfer.{Decompressed, corrupt, send}
use eacopy.Settings.{auto}
use eacopy.Server.{Ended, fault, ServerSettings, Connection, World, value}
use eacopy.Server.Queues.{Queue, queue_at, total_before, too_busy, position, too_busy_iff}
use eacopy.Server.Write.{WriteCommand, skip, decide, write_file_command}
use eacopy.Server.Read.{ReadResponse, ReadCommand, Libraries, Place, choose, read_file_command}
use eacopy.Server.Kept.{SameHashes, read_file_command_keeps, choose-skip}
use eacopy.Network.{send_data}
use eacopy.Network.Sending.{CompressionStats}
use eacopy.Server.Listing.{entry_bytes, listing_bytes, find_files_command}
use eacopy.Server.Overflow.{find_files_command-fault}
use eacopy.Server.Sound.{write_file_command-Inv}
use eacopy.Server.Skips.{decide-skip}
use eacopy.Files.Links.{IsThere}
use eacopy.Files.InMemory.{RefusedByFiles-memory}

abbrev queues : List Queue
queues = (4 ∷ 7 ∷ []) ∷ (5 ∷ 6 ∷ []) ∷ []

full : too_busy 3 1 6 queues ≡ true
unfolding too_busy
full = refl

too_busy_iff_example :
    (too_busy 3 1 5 queues ≡ false) ↔ (total_before 1 queues + position 5 (queue_at 1 queues) < 3)
too_busy_iff_example = too_busy_iff 3 1 5 queues (omega arith)

abbrev settings : ServerSettings
settings = record {
  use_hash = true;
  use_links_threshold = 0;
  use_links_relative_path = true;
  use_odx = false;
  use_buffered_io = auto;
  max_concurrent_download_count = 3;
}

abbrev connection : Connection
connection = record {
  server_path = codes "d:\\";
  is_valid_environment = true;
  is_server_path_external = false;
}

abbrev info : FileInfo
info = record {
  creation_time = no_time;
  last_write_time = record { low = 5; high = 0 };
  file_size = 2;
}

abbrev machine : Machine
machine = record {
  nodes = (codes "d:\\f", 32, info) ∷ [];
  inbox = [];
  outbox = [];
  written = [];
  source = [];
}

abbrev world : World Machine
world = record { database = empty_database; created_dirs = []; os = machine }

abbrev command : WriteCommand
command = record { write_type = send; info = info; path = codes "f" }

abbrev no_zstd : List ℕ → Decompressed
no_zstd bytes = corrupt 1

write_file_command-Inv_example :
    Inv (write_file_command memory settings connection no_zstd 2 command [] [] world).1.database
write_file_command-Inv_example =
    write_file_command-Inv memory settings connection no_zstd 2 command [] [] world
      empty_database-Inv

skips :
    (decide memory settings connection 2 command world).0
    ≡ value (record { response = skip; hash = no_hash })
unfolding decide get_record convert_to_short_path equals find split_last get_file_info
skips = refl

decide-skip_example :
    IsThere memory (codes "d:\\f") info (decide memory settings connection 2 command world).1.os
decide-skip_example =
    decide-skip memory settings connection 2 command (record { response = skip; hash = no_hash })
      world RefusedByFiles-memory skips refl

abbrev libraries : Libraries memory
libraries = record {
  compress = λ level bytes. some bytes;
  clock = λ m. 0;
  hash_file = λ path m. (no_hash, m);
  send_delta = λ from size to size' m. (true, m);
  allow_delta_copy = false;
  use_delta_compression = false;
}

abbrev stats : CompressionStats
stats = record {
  send_time = [];
  send_bytes = [];
  active_send_time = 0;
  active_send_bytes = 0;
  current_send_time = 0;
  current_send_bytes = 0;
  current_index = 0;
  last_time_unit_per_bytes = 0;
  fixed_level = false;
  current_level = 3;
}

abbrev request : ReadCommand
request = record { compression_level = 0; info = info; path = codes "f" }

abbrev place : Place
place = record { queues = queues; index = 1; info = 5 }

abbrev read_result : World Machine
read_result = (read_file_command memory libraries settings connection 4 place request stats world).1

skip_answered : read_result.os.outbox ≡ 3 ∷ []
unfolding read_file_command get_record convert_to_short_path equals find get_file_info send_data
    too_busy
skip_answered = refl

read_file_command_keeps_example :
    (read_result.database ≡ empty_database) × (read_result.created_dirs ≡ [])
read_file_command_keeps_example =
    read_file_command_keeps memory libraries settings connection 4 place request stats world

chosen :
    (choose memory libraries settings connection request info world).0 ≡ value ReadResponse.skip
unfolding choose equals
chosen = refl

choose-skip_example :
    (equals info info ≡ true)
    ⊎ ((true ≡ true)
        × (info.file_size ≡ 2)
        × SameHashes memory libraries settings connection request info world)
choose-skip_example = choose-skip memory libraries settings connection request info world chosen

abbrev some_file : Entry
some_file = record { attributes = 32; name = codes "report.txt"; info = info }

abbrev four_files : List Entry
four_files = some_file ∷ some_file ∷ some_file ∷ some_file ∷ []

abbrev crowded : Os
crowded = record memory { find_files = λ path m. found four_files 18 }

too_long : 3 * 50 < length (listing_bytes four_files)
unfolding entry_bytes le text_bytes
too_long = omega arith

find_files_command-fault_example :
    (find_files_command crowded connection 50 (codes "*.*") world).0 ≡ fault
find_files_command-fault_example =
    find_files_command-fault crowded connection 50 (codes "*.*") four_files 18 world refl
      (omega arith, (omega arith, (omega arith, (omega arith, record {})))) too_long

abbrev plenty : Ended (Unit {0}) × World Machine
plenty = find_files_command crowded connection 4096 (codes "*.*") world

listed : length plenty.1.os.outbox ≡ 4 + 4 * 42 + 4
unfolding find_files_command entry_bytes le text_bytes send_data
listed = refl
