-- ===== src/Client/FileTests.antt =====
-- Files, purges, responses and threads of the client on concrete inputs.
use mathlib.Core.List.Memᴰ.{head, tail}
use eacopy.Base.{
  ℕ, ◌≡◌, refl, if◌then◌else◌, true, false, List, [], ◌∷◌, ◌++◌, none, WString, codes, arith, inl,
  Option, ap, ◌∙◌, text_eq,
}
use eacopy.Database.Invariant.{Inv, empty_database-Inv}
use eacopy.Os.{Os, Entry, found, is_directory}
use eacopy.Os.Memory.{Machine, memory}
use eacopy.Network.{send_data, receive_data}
use eacopy.Settings.{Settings, default_settings, auto}
use eacopy.Paths.{equals_ignore_case, convert_to_short_path}
use eacopy.Files.{delete_file}
use eacopy.Client.{
  is_file_with_attribute_allowed, is_ignored_directory, holds, Work, CopyEntry, value, fault,
  no_link,
}
use eacopy.Client.ProcessFile.{process_file}
use eacopy.Client.Counted.{CountedOnce}
use eacopy.Client.FileCounts.{process_file-CountedOnce}
use eacopy.Client.Purge.{handled_path, purge_entry, purge_files_in_directory}
use eacopy.Client.Spared.{IsBelow, at_root, under, Survives, purge_files_in_directory-Spares}
use eacopy.Client.Upload.{send_write_file_command}
use eacopy.Client.Responses.{send_write_file_command_refused}
use eacopy.Database.{empty_database}
use eacopy.Network.InMemory.{memory_stream}
use eacopy.Network.Transfer.{send, corrupt}
use eacopy.Server.{Connection, World, ServerSettings}
use eacopy.Server.Write.{WriteCommand, write_file_command}
use eacopy.Client.Threads.{
  Pool, Run, here, later, occurrences, left, queue_file, enter_loop, take_file, finish_file,
  see_no_dirs, leave_loop, working,
}
use eacopy.Client.Workers.{start, Run-processed, Run-lost}
use eacopy.Client.Tests.{libraries_of, info, machine, work_with}

abbrev settings : Settings
settings = record default_settings {
  dest_directory = codes "d:\\";
  source_directory = codes "s:\\";
}

abbrev entry : CopyEntry
entry = record { src = codes "s:\\a"; dst = codes "a"; src_info = info; attributes = 32 }

abbrev queued_work : Work Machine
queued_work = record (work_with (machine [])) { copy_entries = entry ∷ entry ∷ [] }

process_file-CountedOnce_example :
    ((process_file memory (libraries_of memory) settings 9 no_link queued_work).0 ≡ value true)
    × ((process_file memory (libraries_of memory) settings 9 no_link queued_work).1.copy_entries
        ≡ entry ∷ [])
    × CountedOnce queued_work.stats
        (process_file memory (libraries_of memory) settings 9 no_link queued_work).1.stats
    × Inv (process_file memory (libraries_of memory) settings 9 no_link queued_work).1.database
process_file-CountedOnce_example =
    process_file-CountedOnce memory (libraries_of memory) settings 9 entry (entry ∷ []) queued_work
      empty_database-Inv refl refl

-- A machine that notes the paths that are deleted, and in `source` whether the handled file is one of
-- them.
abbrev kept_file : Entry
kept_file = record { attributes = 32; name = codes "keep"; info = info }

abbrev old_file : Entry
old_file = record { attributes = 32; name = codes "old"; info = info }

abbrev noted : WString → Machine → Option ℕ × Machine
noted path m = (
  none,
  record m {
    written = m.written ++ path;
    source = if text_eq path (codes "d:\\keep") then 1 ∷ [] else m.source;
  },
)

abbrev noting : Os
noting = record memory {
  find_files = λ path m. found (kept_file ∷ old_file ∷ []) 18;
  delete_file = noted;
  remove_directory = noted;
  set_attributes = λ path a m. (none, m);
}

abbrev HandledKept : Machine → Type 0
HandledKept m = m.source ≡ []

abbrev purge_work : Work Machine
purge_work = record (work_with (machine [])) { handled_files = codes "keep" ∷ [] }

-- No directory is listed.
root_only :
    (path : WString)
    → IsBelow noting
        (libraries_of noting)
        settings
        (codes "keep" ∷ [])
        HandledKept
        (codes "d:\\")
        path
    → path ≡ codes "d:\\"
root_only path at_root = refl
root_only path (under e below (m, p, head same) directory known) =
    absurd (ground (arith, ap (λ x. is_directory x.attributes) same, directory))
root_only path (under e below (m, p, tail (head same)) directory known) =
    absurd (ground (arith, ap (λ x. is_directory x.attributes) same, directory))
root_only path (under e below (m, p, tail (tail none_left)) directory known) = elim none_left [ ]

old_deleted :
    (depth : ℕ) (m : Machine)
    → m.source ≡ []
    → (purge_entry noting
        (libraries_of noting)
        settings
        no_link
        depth
        (codes "d:\\")
        old_file
        m).1.source
      ≡ []
unfolding purge_entry delete_file convert_to_short_path
old_deleted depth m p = p

keep_handled :
    holds
      (handled_path noting (libraries_of noting) settings no_link (codes "d:\\") kept_file)
      (codes "keep" ∷ [])
    ≡ true
unfolding holds equals_ignore_case
keep_handled = refl

survives :
    Survives noting (libraries_of noting) settings (codes "keep" ∷ []) HandledKept (codes "d:\\")
survives depth path e m below (at, q, head same) h real allowed kept p = absurd (
    ground (
      arith,
      ap
          (λ t.
            holds (handled_path noting (libraries_of noting) settings no_link t e)
              (codes "keep" ∷ []))
          (root_only path below),
      ap
          (λ x.
            holds (handled_path noting (libraries_of noting) settings no_link (codes "d:\\") x)
              (codes "keep" ∷ []))
          same,
      keep_handled,
      h,
    ))
survives depth path e m below (at, q, tail (head same)) h real allowed kept p =
    ap (λ t. (purge_entry noting (libraries_of noting) settings no_link depth t e m).1.source)
      (root_only path below)
    ∙ ap
        (λ x.
          (purge_entry noting (libraries_of noting) settings no_link depth (codes "d:\\") x
            m).1.source)
        same
    ∙ old_deleted depth m p
survives depth path e m below (at, q, tail (tail none_left)) h real allowed kept p =
    elim none_left [ ]

purged :
    (purge_files_in_directory noting
      (libraries_of noting)
      settings
      no_link
      3
      (codes "d:\\")
      16
      purge_work).1.os.written
    ≡ codes "d:\\old"
unfolding purge_files_in_directory is_file_with_attribute_allowed holds equals_ignore_case
    is_ignored_directory delete_file convert_to_short_path
purged = refl

abbrev refusing : Connection
refusing = record {
  server_path = codes "d:\\";
  is_valid_environment = false;
  is_server_path_external = false;
}

abbrev of_server : ServerSettings
of_server = record {
  use_hash = false;
  use_links_threshold = 0;
  use_links_relative_path = false;
  use_odx = false;
  use_buffered_io = auto;
  max_concurrent_download_count = 3;
}

abbrev upload : WriteCommand
upload = record { write_type = send; info = info; path = codes "f" }

abbrev refused : World Machine
refused = record { database = empty_database; created_dirs = []; os = machine [] }

send_write_file_command_refused_example :
    (send_write_file_command memory
      (libraries_of memory)
      settings
      5
      (codes "s:\\a")
      (codes "a")
      info
      32
      (work_with (machine (7 ∷ 8 ∷ [])))).0
    ≡ fault
unfolding write_file_command send_data receive_data
send_write_file_command_refused_example =
    send_write_file_command_refused memory memory_stream of_server refusing memory memory_stream
      (libraries_of memory) settings (λ b. corrupt 1) 2 upload [] [] refused (7 ∷ []) (8 ∷ []) 0 5
      (codes "s:\\a") (codes "a") info 32 (7 ∷ []) (work_with (machine (7 ∷ 8 ∷ []))) refl refl refl
      refl (omega arith) refl refl refl

abbrev one_file : Pool
one_file = record start { copy_entries = 4 ∷ []; queued = 4 ∷ []; main = working }

abbrev all_done : Pool
all_done = record start { queued = 4 ∷ []; processed = 4 ∷ []; main = left }

abbrev all_done_run : Run 2 false start all_done
all_done_run =
    later
      (later
        (later
          (later (later (later here (queue_file 4 (inl refl))) (enter_loop refl))
            (take_file 4 [] (omega arith) refl))
          (finish_file 4 [] [] refl))
        (see_no_dirs refl refl refl refl))
      (leave_loop refl refl)

Run-processed_example :
    (◌≡◌ {A = List ℕ} [] [])
    × (◌≡◌ {A = List ℕ} [] [])
    × (◌≡◌ {A = ℕ} 0 0)
    × ((a : ℕ) → occurrences (4 ∷ []) a ≡ occurrences (4 ∷ []) a)
Run-processed_example = Run-processed 2 all_done all_done_run refl refl

Run-lost_example :
    (t : Pool) × Run 2 true one_file t
    × (t.main ≡ left)
    × (t.in_hand ≡ [])
    × (t.main_in_hand ≡ none)
    × (t.process_dir_active ≡ 0)
    × (t.copy_entries ≡ 4 ∷ [])
    × (t.processed ≡ [])
Run-lost_example = Run-lost 2 one_file 4 (omega arith) refl refl refl refl refl refl

purge_files_in_directory-Spares_example :
    ((purge_files_in_directory noting
        (libraries_of noting)
        settings
        no_link
        3
        (codes "d:\\")
        16
        purge_work).1.os.source
      ≡ [])
    × ((purge_files_in_directory noting
          (libraries_of noting)
          settings
          no_link
          3
          (codes "d:\\")
          16
          purge_work).1.handled_files
        ≡ codes "keep" ∷ [])
purge_files_in_directory-Spares_example =
    purge_files_in_directory-Spares noting (libraries_of noting) settings (codes "keep" ∷ [])
      HandledKept (codes "d:\\") 3 16 purge_work survives refl refl
