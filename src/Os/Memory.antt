-- ===== src/Os/Memory.antt =====
-- An operating system in memory, for tests: a map of paths, the bytes to receive, and those sent.
use eacopy.Base.{
  ◌-◌, ℕ, Bool, true, false, List, [], ◌∷◌, ◌++◌, Option, none, some, length, ◌==◌, if◌then◌else◌,
  WString, text_eq, take, drop,
}
use eacopy.Base.Bytes.{Bytes}
use eacopy.Keys.{FileInfo, no_time}
use eacopy.Os.{
  Os, Stat, missing, present, not_found, Received, received, sent, error_file_not_found,
  error_already_exists, error_file_exists,
}

pub record Machine : Type 0 where
  pub nodes : List (WString × ℕ × FileInfo)
  pub inbox : Bytes
  pub outbox : Bytes
  pub written : Bytes
  pub source : Bytes

abbrev pub look : WString → List (WString × ℕ × FileInfo) → Option (ℕ × FileInfo)
look p [] = none
look p ((q, a, i) ∷ ns) = if text_eq p q then some (a, i) else look p ns

abbrev pub without : WString → List (WString × ℕ × FileInfo) → List (WString × ℕ × FileInfo)
without p [] = []
without p ((q, a, i) ∷ ns) =
    let rest = without p ns in if text_eq p q then rest else (q, a, i) ∷ rest

abbrev place : WString → ℕ → FileInfo → Machine → Machine
place p a i m = record m { nodes = (p, a, i) ∷ without p m.nodes }

abbrev no_info : FileInfo
no_info = record { creation_time = no_time; last_write_time = no_time; file_size = 0 }

-- A file without attributes has FILE_ATTRIBUTE_NORMAL.
abbrev pub settled : ℕ → ℕ
settled a = if a == 0 then 128 else a

abbrev stat : WString → Machine → Stat
stat p m = elim (look p m.nodes) [
  | none ↦ missing error_file_not_found
  | some (a, i) ↦ present (settled a) i
]

abbrev create_directory : WString → Machine → Option ℕ × Machine
create_directory p m = elim (look p m.nodes) [
  | none ↦ (none, place p 16 no_info m)
  | some n ↦ (some error_already_exists, m)
]

abbrev remove : WString → Machine → Option ℕ × Machine
remove p m = elim (look p m.nodes) [
  | none ↦ (some error_file_not_found, m)
  | some n ↦ (none, record m { nodes = without p m.nodes })
]

abbrev set_attributes : WString → ℕ → Machine → Option ℕ × Machine
set_attributes p a m = elim (look p m.nodes) [
  | none ↦ (some error_file_not_found, m)
  | some (old, i) ↦ (none, place p a i m)
]

abbrev create_hard_link : WString → WString → Machine → Option ℕ × Machine
create_hard_link p source m = elim (look p m.nodes) [
  | some n ↦ (some error_already_exists, m)
  | none ↦ elim (look source m.nodes) [
    | none ↦ (some error_file_not_found, m)
    | some (a, i) ↦ (none, place p a i m)
  ]
]

abbrev copy_file : WString → WString → Bool → Machine → Option ℕ × Machine
copy_file source dest true m = elim (look dest m.nodes) [
  | some n ↦ (some error_file_exists, m)
  | none ↦ (some error_file_not_found, m)
]
copy_file source dest false m = elim (look source m.nodes) [
  | none ↦ (some error_file_not_found, m)
  | some (a, i) ↦ (none, place dest a i m)
]

abbrev move_file : WString → WString → Machine → Option ℕ × Machine
move_file source dest m = elim (look source m.nodes) [
  | none ↦ (some error_file_not_found, m)
  | some (a, i) ↦ (none, place dest a i (record m { nodes = without source m.nodes }))
]

abbrev recv : ℕ → Machine → Received × Machine
recv n m = (received (take n m.inbox), record m { inbox = drop n m.inbox })

abbrev create_file : WString → Bool → Bool → Machine → Option ℕ × Machine
create_file p buffered fresh m = elim (look p m.nodes) [
  | none ↦ (none, place p 32 no_info (record m { written = [] }))
  | some (a, i) ↦
      if fresh then (some error_file_exists, m) else (none, place p a i (record m { written = [] }))
]

abbrev pub memory : Os
memory = record {
  State = Machine;
  last_error = λ m. 0;
  stat = stat;
  find_files = λ p m. not_found error_file_not_found;
  create_directory = create_directory;
  remove_directory = remove;
  set_attributes = set_attributes;
  create_hard_link = create_hard_link;
  copy_file = copy_file;
  delete_file = remove;
  move_file = move_file;
  open_write = λ p buffered m. (none, record m { written = [] });
  write = λ bytes m. (none, record m { written = m.written ++ bytes });
  set_file_time = λ t m. (none, m);
  close = λ m. (none, m);
  open_read = λ p buffered m. (none, m);
  read = λ n m. (some (take n m.written), record m { written = drop n m.written });
  transmit = λ from n m. (none, record m { outbox = m.outbox ++ take n (drop from m.written) });
  send = λ bytes m. (sent (length bytes - 1), record m { outbox = m.outbox ++ bytes });
  recv = recv;
  create_file = create_file;
  open_source = λ p buffered m. (none, m);
  read_at = λ at n m. (some (take n (drop at m.source)), m);
  cut = λ n m. record m { written = take n m.written };
  close_source = λ m. (none, m);
}
