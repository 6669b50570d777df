-- ===== src/Files/Tests.antt =====
-- File operations on a machine in memory.
use eacopy.Base.{
  ℕ, ◌≡◌, refl, Bool, true, false, some, take, drop, ◌&&◌, not, List, [], ◌∷◌, none, WString, codes,
  text_eq, arith, Bool-cases, Option-cases, inl, inr,
}
use eacopy.Keys.{FileInfo, no_time, equals}
use eacopy.Paths.{convert_to_short_path}
use eacopy.Os.{present, is_readonly}
use eacopy.Files.InMemory.{RefusedByFiles-memory}
use eacopy.Os.Memory.{Machine, memory, look, without}
use eacopy.Files.{
  copied, delete_file, no_info, create_file_link, skipped, linked, set_file_writable,
}
use eacopy.Files.Copy.{own_copy_file}
use eacopy.Files.CopyContent.{Pair, own_copy_file-content}
use eacopy.Files.Directories.{ensure_directory}
use eacopy.Files.Ensure.{ensure_directory_ends}
use eacopy.Files.Links.{IsThere, LinksToNew, create_file_link-skipped}
use eacopy.Files.Writable.{AttributesKept, set_file_writable-readonly}

abbrev report : WString
report = codes "c:\\out\\report.txt"

abbrev stored : WString
stored = codes "c:\\links\\report.txt"

abbrev small : FileInfo
small = record {
  creation_time = no_time;
  last_write_time = record { low = 7; high = 1 };
  file_size = 12;
}

abbrev machine : Machine
machine = record {
  nodes = (report, 33, small) ∷ (stored, 33, small) ∷ [];
  inbox = [];
  outbox = [];
  written = [];
  source = [];
}

abbrev deep : WString
deep = codes "c:\\out\\a\\b\\"

replaced : (create_file_link memory report no_info stored true 2 machine).0 ≡ linked
unfolding create_file_link convert_to_short_path equals delete_file
replaced = refl

same_file : (create_file_link memory report small stored true 2 machine).0 ≡ skipped
unfolding create_file_link convert_to_short_path equals
same_file = refl

create_file_link-skipped_example :
    IsThere memory
      (convert_to_short_path report)
      small
      (create_file_link memory report small stored true 2 machine).1
create_file_link-skipped_example =
    create_file_link-skipped memory 2 report stored small true machine RefusedByFiles-memory
      same_file

look-without : (p : WString) (ns : List (WString × ℕ × FileInfo)) → look p (without p ns) ≡ none
look-without p [] = refl
look-without p ((q, a, i) ∷ ns) = elim (Bool-cases (text_eq p q)) [
  | inl same ↦ rw same (look-without p ns)
  | inr other ↦ rw (other, other) (look-without p ns)
]

LinksToNew-memory : LinksToNew memory
LinksToNew-memory = record {
  deleted-missing = λ path source m h. elim (Option-cases (look path m.nodes)) [
    | inl gone ↦ absurd (ground (arith, h, gone))
    | inr (n, there) ↦ ground (arith, there, look-without path m.nodes)
  ];
}

text_eq_refl : (p : WString) → text_eq p p ≡ true
text_eq_refl [] = refl
text_eq_refl (c ∷ cs) = ground (arith, text_eq_refl cs)

AttributesKept-memory : AttributesKept memory
AttributesKept-memory = record {
  set-stat = λ path attributes m h. elim (Option-cases (look path m.nodes)) [
    | inl gone ↦ absurd (ground (arith, h, gone))
    | inr ((a, i), there) ↦ (i, ground (arith, there, text_eq_refl path))
  ];
}

there : memory.stat (convert_to_short_path report) machine ≡ present 33 small
unfolding convert_to_short_path
there = refl

made_writable : (set_file_writable memory report true machine).0 ≡ true
unfolding set_file_writable convert_to_short_path
made_writable = refl

set_file_writable-readonly_example :
    (a : ℕ) × (i : FileInfo) × (memory.stat
        (convert_to_short_path report)
        (set_file_writable memory report true machine).1
      ≡ present a i)
    × (is_readonly a ≡ is_readonly 33 && not true)
set_file_writable-readonly_example =
    set_file_writable-readonly memory report true 33 small machine AttributesKept-memory there refl
      made_writable

ensure_directory_ends_example : (ensure_directory memory deep 16 true false machine).stuck ≡ false
ensure_directory_ends_example = ensure_directory_ends memory deep 16 true false machine

read_bytes_eq : (a b : List ℕ) → some a ≡ some b → b ≡ a
read_bytes_eq a b h = ground (arith, h)

create_file-empty :
    (path : WString) (buffered fresh : Bool) (m : Machine)
    → (memory.create_file path buffered fresh m).0 ≡ none
    → (memory.create_file path buffered fresh m).1.written ≡ []
create_file-empty path buffered fresh m h = elim (Option-cases (look path m.nodes)) [
  | inl gone ↦ ground (arith, gone)
  | inr (n, there) ↦ elim (Bool-cases fresh) [
    | inl only_new ↦ absurd (ground (arith, there, only_new, h))
    | inr over ↦ ground (arith, there, over)
  ]
]

set_attributes-written :
    (path : WString) (a : ℕ) (m : Machine) → (memory.set_attributes path a m).1.written ≡ m.written
set_attributes-written path a m = elim (Option-cases (look path m.nodes)) [
  | inl gone ↦ ground (arith, gone)
  | inr (n, there) ↦ ground (arith, there)
]

abbrev memory_pair : Pair memory
memory_pair = record {
  content = λ m. m.source;
  sink = λ m. m.written;
  read_at-content =
      λ at size bytes m h. (read_bytes_eq (take size (drop at m.source)) bytes h, refl, refl);
  write-sink = λ bytes m h. (refl, refl);
  open_source-sink = λ path buffered m. refl;
  create_file-sink = create_file-empty;
  set_attributes-sink = set_attributes-written;
  set_file_time-sink = λ time m. refl;
  close_source-sink = λ m. refl;
  close-sink = λ m. refl;
}

abbrev full_machine : Machine
full_machine = record machine { source = 1 ∷ 2 ∷ 3 ∷ 4 ∷ []; written = 9 ∷ [] }

abbrev three : FileInfo
three = record small { file_size = 3 }

made_copy :
    (own_copy_file memory [] true stored three 32 (codes "c:\\new") true full_machine).0 ≡ copied 3
unfolding own_copy_file
made_copy = refl

own_copy_file-content_example :
    (◌≡◌ {A = ℕ} 3 3)
    × ((own_copy_file memory [] true stored three 32 (codes "c:\\new") true full_machine).1.written
        ≡ 1 ∷ 2 ∷ 3 ∷ [])
own_copy_file-content_example =
    own_copy_file-content memory memory_pair [] stored (codes "c:\\new") three 32 true full_machine
      3 made_copy
