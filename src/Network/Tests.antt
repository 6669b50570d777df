-- ===== src/Network/Tests.antt =====
-- Sending and receiving on a machine in memory.
use mathlib.Core.Option
use eacopy.Base.{
  Option, ◌+◌, ◌⊎◌, ◌≢◌, false, Option-cases, inl, inr, WString, codes, ℕ, ◌≡◌, ◌≤◌, refl, ap, sym,
  ◌∙◌, true, [], ◌∷◌, ◌++◌, some, length, take, drop, take-append-drop, length-take, arith,
}
use eacopy.Base.Bytes.{Bytes}
use eacopy.Keys.{no_time}
use eacopy.Paths.{convert_to_short_path}
use eacopy.Files.{set_file_writable}
use eacopy.Os.Memory.{look, Machine, memory}
use eacopy.Network.{send_data, receive_data}
use eacopy.Network.Transfer.{Transfer, finished, send, Decompressed, corrupt, receive_file}
use eacopy.Network.Content.{FileStream, receive_file-content}
use eacopy.Network.Sending.{
  CompressionStats, Sending, file_sent, unfinished, send_file, adapt, adapt-level,
}
use eacopy.Network.Outgoing.{Source, send_file-outgoing, send_file_ends}
use eacopy.Network.InMemory.{memory_stream}
use eacopy.Network.Stream.{send_data-outgoing}

abbrev machine : Machine
machine = record { nodes = []; inbox = 1 ∷ 2 ∷ 3 ∷ []; outbox = 9 ∷ []; written = []; source = [] }

all_sent : (send_data memory (4 ∷ 5 ∷ []) machine).0 ≡ true
unfolding send_data
all_sent = refl

send_data-outgoing_example : (send_data memory (4 ∷ 5 ∷ []) machine).1.outbox ≡ 9 ∷ 4 ∷ 5 ∷ []
send_data-outgoing_example = send_data-outgoing memory memory_stream (4 ∷ 5 ∷ []) machine all_sent

two_received : (receive_data memory 2 machine).0 ≡ some (1 ∷ 2 ∷ [])
unfolding receive_data
two_received = refl

attributes-incoming :
    (path : WString) (a : ℕ) (m : Machine) → (memory.set_attributes path a m).1.inbox ≡ m.inbox
attributes-incoming path a m = elim (Option-cases (look path m.nodes)) [
  | inl gone ↦ ground (arith, gone)
  | inr (n, there) ↦ ground (arith, there)
]

abbrev memory_file : FileStream memory memory_stream
memory_file = record {
  content = λ m. m.written;
  open-content = λ path buffered m h. refl;
  write-content = λ bytes m h. refl;
  recv-content = λ size m. refl;
  time-content = λ time m. refl;
  close-content = λ m. refl;
  attributes-incoming = attributes-incoming;
  open-incoming = λ path buffered m. refl;
  write-incoming = λ bytes m. refl;
  time-incoming = λ time m. refl;
  close-incoming = λ m. refl;
}

abbrev no_zstd : Bytes → Decompressed
no_zstd bytes = corrupt 1

abbrev path : WString
path = codes "c:\\f"

abbrev after : (Transfer × Machine) × ℕ
after = receive_file memory no_zstd 0 path 3 no_time send true (7 ∷ []) [] machine

whole_file : after.0.0 ≡ finished true
unfolding receive_file convert_to_short_path set_file_writable
whole_file = refl

receive_file-content_example :
    (got : Bytes) × (after.0.1.written ≡ 7 ∷ got)
    × (1 ∷ 2 ∷ 3 ∷ [] ≡ got ++ after.0.1.inbox)
    × (length got ≡ 2)
receive_file-content_example =
    receive_file-content memory memory_stream memory_file no_zstd 0 path 3 no_time true (7 ∷ []) []
      machine whole_file

read_bytes_lem : (a b : Bytes) → some a ≡ some b → a ≡ b
read_bytes_lem a b h = ground (arith, h)

memory-unread :
    (size : ℕ) (bytes : Bytes) (m m' : Machine)
    → memory.read size m ≡ (some bytes, m')
    → (m.written ≡ bytes ++ m'.written) × (length bytes ≤ size)
memory-unread size bytes m m' h =
    let got = read_bytes_lem (take size m.written) bytes (ap (λ r. r.0) h) in
    let left : drop size m.written ≡ m'.written = ap (λ r. r.1.written) h in
    (
      sym (take-append-drop size m.written)
          ∙ ap (λ t. t ++ drop size m.written) got
          ∙ ap (λ t. bytes ++ t) left,
      omega (arith, ap length got, length-take size m.written),
    )

memory_some :
    (size : ℕ) (bytes : Bytes) (m m' : Machine)
    → memory.read size m ≡ (some bytes, m')
    → 1 ≤ size
    → 1 ≤ length m.written
    → 1 ≤ length bytes
memory_some size bytes m m' h some_size some_left =
    let got = read_bytes_lem (take size m.written) bytes (ap (λ r. r.0) h) in
    omega (arith, ap length got, length-take size m.written, some_size, some_left)

abbrev memory_source : Source memory memory_stream
memory_source = record {
  unread = λ m. m.written;
  read-unread = memory-unread;
  read-outgoing = λ size m. refl;
  send-unread = λ bytes m. refl;
  close-outgoing = λ m. refl;
  open-outgoing = λ path' buffered m. refl;
  read_some = memory_some;
}

abbrev stored : Bytes → Option Bytes
stored bytes = some bytes

abbrev no_stats : CompressionStats
no_stats = record {
  send_time = 0 ∷ 0 ∷ 0 ∷ 0 ∷ 0 ∷ 0 ∷ 0 ∷ 0 ∷ [];
  send_bytes = 0 ∷ 0 ∷ 0 ∷ 0 ∷ 0 ∷ 0 ∷ 0 ∷ 0 ∷ [];
  active_send_time = 0;
  active_send_bytes = 0;
  current_send_time = 0;
  current_send_bytes = 0;
  current_index = 0;
  last_time_unit_per_bytes = 50;
  fixed_level = false;
  current_level = 14;
}

abbrev source_machine : Machine
source_machine = record machine { written = 3 ∷ 4 ∷ 5 ∷ [] }

abbrev sending : Sending × CompressionStats × Machine
sending = send_file memory (λ level. stored) (λ m. 0) 4 path 3 send true no_stats source_machine

went : sending.0 ≡ file_sent
unfolding send_file convert_to_short_path send_data
went = refl

send_file-outgoing_example :
    (bytes rest : Bytes) × (sending.2.outbox ≡ 9 ∷ bytes)
    × (3 ∷ 4 ∷ 5 ∷ [] ≡ bytes ++ rest)
    × (length bytes ≡ 3)
send_file-outgoing_example =
    send_file-outgoing memory memory_stream memory_source (λ level. stored) (λ m. 0) 4 path 3
      no_stats source_machine (omega arith) went

send_file_ends_example : sending.0 ≢ unfinished
send_file_ends_example =
    send_file_ends memory memory_stream memory_source (λ level. stored) (λ m. 0) 4 path 3 no_stats
      source_machine (omega arith) (omega arith) (omega arith)

adapted :
    Option.map (λ (cs : CompressionStats). cs.current_level) (adapt 200000 400 no_stats) ≡ some 13
unfolding adapt
adapted = refl

abbrev slower : CompressionStats
slower = record no_stats {
  send_time = 0 ∷ 200000 ∷ 0 ∷ 0 ∷ 0 ∷ 0 ∷ 0 ∷ 0 ∷ [];
  send_bytes = 0 ∷ 400 ∷ 0 ∷ 0 ∷ 0 ∷ 0 ∷ 0 ∷ 0 ∷ [];
  current_send_time = 200000;
  current_send_bytes = 400;
  current_index = 1;
  last_time_unit_per_bytes = 500000000;
  current_level = 13;
}

one_adapted : adapt 200000 400 no_stats ≡ some slower
unfolding adapt
one_adapted = refl

adapt-level_example :
    (13 ≤ 14) × ((slower.current_level ≡ 14) ⊎ (1 ≤ 13)) × (13 ≤ 14 + 1) × (14 ≤ 13 + 1)
adapt-level_example = adapt-level 200000 400 no_stats slower one_adapted (omega arith)
