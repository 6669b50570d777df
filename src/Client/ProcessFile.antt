-- ===== src/Client/ProcessFile.antt =====
-- processFile of source/EACopyClient.cpp. Waiting and the log are left out.
use eacopy.Base.{
  ℕ, zero, suc, Bool, true, false, ◌&&◌, ◌||◌, not, [], ◌∷◌, ◌++◌, leb, ◌==◌, if◌then◌else◌,
  WString, is_empty, text_eq,
}
use eacopy.Keys.{Hash, no_hash, FileKey, equals}
use eacopy.Database.{FileRec, get_record, add_to_files_history, remove_file_history}
use eacopy.Paths.{is_local_path}
use eacopy.Os.{Os, is_readonly}
use eacopy.Settings.{Settings}
use eacopy.Files.{
  Info, get_file_info, set_file_writable, create_file_link, linked, skipped, refused, Copied,
  copied, existed, not_copied,
}
use eacopy.Files as Files
use eacopy.Files.Copy.{copy_file}
use eacopy.Server.{get_use_buffered_io}
use eacopy.Client.{
  Work, Ended, value, failed, fault, stuck, Step, pure, ◌>>=◌, ◌>>◌, call, change_database,
  change_stats, ClientStats, add64, CopyEntry, Libraries, Link, no_link, to_dest, to_source,
  get_file_key_path,
}
use eacopy.Client.Upload.{Written, send_write_file_command}
use eacopy.Client.Download.{Read, success, busy, send_read_file_command}

-- How a part of a round ends: processFile returns, or goes on, with links or without.
pub data Round : Type 0 where
  finished : Bool → Round
  go_on : Bool → Round

abbrev pub next : {S : Type 0} → (Bool → Step S Round) → Round → Step S Round
next f (finished b) = pure (finished b)
next f (go_on use_links) = f use_links

unfoldable pub count_copy : ℕ → ClientStats → ClientStats
count_copy size stats = record stats {
  copy_count = add64 stats.copy_count 1;
  copy_size = add64 stats.copy_size size;
}

unfoldable pub count_skip : ℕ → ClientStats → ClientStats
count_skip size stats = record stats {
  skip_count = add64 stats.skip_count 1;
  skip_size = add64 stats.skip_size size;
}

unfoldable pub count_link : ℕ → ClientStats → ClientStats
count_link size stats = record stats {
  link_count = add64 stats.link_count 1;
  link_size = add64 stats.link_size size;
}

unfoldable pub count_fail : ClientStats → ClientStats
count_fail stats = record stats { fail_count = add64 stats.fail_count 1 }

unfoldable pub count_retry : ClientStats → ClientStats
count_retry stats = record stats { retry_count = add64 stats.retry_count 1 }

unfoldable pub count_processed : Bool → ClientStats → ClientStats
count_processed processed stats =
    if processed
    then record stats { processed_by_server_count = add64 stats.processed_by_server_count 1 }
    else stats

module _ (w : Os) (libraries : Libraries w) (settings : Settings) where
  abbrev pub file_key_of : CopyEntry → FileKey
  file_key_of entry = record {
    name = get_file_key_path settings entry.dst;
    last_write_time = entry.src_info.last_write_time;
    file_size = entry.src_info.file_size;
  }

  abbrev pub full_dst : CopyEntry → WString
  full_dst entry = settings.dest_directory ++ entry.dst

  abbrev buffered : Bool
  buffered = get_use_buffered_io settings.use_buffered_io

  abbrev pub touch : CopyEntry → Hash → Step w.State (Unit {0})
  touch entry hash =
      change_database (add_to_files_history (file_key_of entry) hash (full_dst entry))

  -- What createFileLink leads to.
  unfoldable pub after_link : CopyEntry → FileRec → Files.Link w → Step w.State Round
  after_link entry rec skipped = do
    change_stats (count_skip entry.src_info.file_size)
    touch entry rec.hash
    pure (finished true)
  after_link entry rec linked = do
    change_stats (count_link entry.src_info.file_size)
    touch entry rec.hash
    pure (finished true)
  after_link entry rec refused = pure (go_on false)
  after_link entry rec Files.Link.stuck = λ work. (stuck, work)

  -- The attempt to link to a recorded file, if it has not changed.
  unfoldable pub link_to : CopyEntry → FileRec → Step w.State Round
  unfolding after_link
  link_to entry rec work =
      let info = get_file_info w rec.name work.os in
      if not (not (info.attributes == 0) && equals entry.src_info info.info)
      then (change_database (remove_file_history (file_key_of entry)) >> pure (go_on true)) work
      else if text_eq rec.name (full_dst entry)
      then (change_stats (count_skip entry.src_info.file_size)
            >> touch entry rec.hash
            >> pure (finished true))
          work
      else (call (create_file_link w (full_dst entry) entry.src_info rec.name false 1)
            >>= after_link entry rec)
          work

  unfoldable pub link_round : CopyEntry → Bool → Step w.State Round
  unfolding link_to
  link_round entry false work = (value (go_on false), work)
  link_round entry true work =
      let rec = get_record (file_key_of entry) work.database in
      if is_empty rec.name then (value (go_on true), work) else link_to entry rec work

  -- What a copy on the system leads to.
  unfoldable pub after_odx : CopyEntry → FileRec → Bool → Copied w → Step w.State Round
  after_odx entry rec use_links (copied n) = do
    change_stats (count_copy n)
    touch entry rec.hash
    pure (finished true)
  after_odx entry rec use_links existed = pure (go_on use_links)
  after_odx entry rec use_links not_copied = pure (go_on use_links)

  -- The copy from a recorded file.
  unfoldable pub odx_round : CopyEntry → Bool → Step w.State Round
  unfolding after_odx
  odx_round entry use_links work =
      let rec = get_record (file_key_of entry) work.database in
      let info = get_file_info w rec.name work.os in
      if settings.use_odx
        && (not (is_empty rec.name)
            && (not (info.attributes == 0) && equals entry.src_info info.info))
      then (call (
              copy_file w libraries.padding rec.name entry.src_info info.attributes (full_dst entry)
                true settings.exclude_changed_files buffered)
            >>= after_odx entry rec use_links)
          work
      else (value (go_on use_links), work)

  abbrev count_written : CopyEntry → Written → ClientStats → ClientStats
  count_written entry out stats =
      if out.written == 0
      then count_skip entry.src_info.file_size stats
      else if out.linked
      then count_link out.written stats
      else count_copy out.written stats

  -- What the upload leads to: a failure is tried again.
  unfoldable pub after_upload :
      CopyEntry → Bool → Ended Written × Work w.State → Ended Round × Work w.State
  after_upload entry use_links (value out, work) =
      (change_stats (count_written entry out)
          >> change_stats (count_processed out.processed_by_server)
          >> pure (finished true))
        work
  after_upload entry use_links (failed, work) = (value (go_on use_links), work)
  after_upload entry use_links (fault, work) = (fault, work)
  after_upload entry use_links (stuck, work) = (stuck, work)

  -- What the download leads to: after an error the entry is dropped, and when the server is busy it is
  -- put back.
  unfoldable pub after_download : CopyEntry → Ended Read × Work w.State → Ended Round × Work w.State
  after_download entry (value (success size read processed), work) =
      (change_stats (if read == 0 then count_skip size else count_copy size)
          >> change_stats (count_processed processed)
          >> pure (finished true))
        work
  after_download entry (value busy, work) =
      (value (finished true), record work { copy_entries = entry ∷ work.copy_entries })
  after_download entry (failed, work) = (value (finished false), work)
  after_download entry (fault, work) = (fault, work)
  after_download entry (stuck, work) = (stuck, work)

  -- The lambda addToDatabase.
  unfoldable pub add_to_database : CopyEntry → Bool → Step w.State (Unit {0})
  add_to_database entry use_links = if use_links then touch entry no_hash else pure tt

  abbrev use_system : Bool
  use_system =
      settings.use_system_copy
      || (settings.use_odx
          && not (is_local_path settings.dest_directory)
          && not (is_local_path settings.source_directory))

  abbrev pub copy_entry : CopyEntry → Bool → Step w.State (Copied w)
  copy_entry entry fail_if_exists = call (
      copy_file w libraries.padding entry.src entry.src_info entry.attributes (full_dst entry)
        use_system fail_if_exists buffered)

  abbrev pub done_copying : CopyEntry → Bool → ℕ → Step w.State Round
  done_copying entry use_links n = do
    change_stats (count_copy n)
    add_to_database entry use_links
    pure (finished true)

  abbrev pub done_skipping : CopyEntry → Bool → ℕ → Step w.State Round
  done_skipping entry use_links size = do
    change_stats (count_skip size)
    add_to_database entry use_links
    pure (finished true)

  unfoldable pub after_overwrite : CopyEntry → Bool → Copied w → Step w.State Round
  unfolding add_to_database
  after_overwrite entry use_links (copied n) = done_copying entry use_links n
  after_overwrite entry use_links existed = pure (go_on use_links)
  after_overwrite entry use_links not_copied = pure (go_on use_links)

  -- The copy over a file that may exist. A file that is the same already is skipped.
  unfoldable pub overwrite : CopyEntry → Bool → Step w.State Round
  unfolding after_overwrite add_to_database
  overwrite entry use_links work =
      let dest = get_file_info w (full_dst entry) work.os in
      if not (dest.attributes == 0) && (not settings.force_copy && equals entry.src_info dest.info)
      then done_skipping entry use_links dest.info.file_size work
      else (call (λ s. (
        tt,
        (if is_readonly dest.attributes
            then (set_file_writable w (full_dst entry) true s).1
            else s),
      ))
            >> (copy_entry entry false >>= after_overwrite entry use_links))
          work

  -- What follows the attempt to make a new file.
  unfoldable pub after_first_copy : CopyEntry → Bool → Copied w → Step w.State Round
  unfolding overwrite
  after_first_copy entry use_links (copied n) work = done_copying entry use_links n work
  after_first_copy entry use_links existed work =
      if settings.exclude_changed_files
      then done_skipping entry use_links entry.src_info.file_size work
      else overwrite entry use_links (record work { try_copy_first = false })
  after_first_copy entry use_links not_copied work = (
    value (go_on use_links),
    record work {
      try_copy_first = (if settings.exclude_changed_files then work.try_copy_first else false);
    },
  )

  -- The copy by the client itself.
  unfoldable pub copy_round : CopyEntry → Bool → Step w.State Round
  unfolding after_first_copy
  copy_round entry use_links work =
      if work.try_copy_first
      then (copy_entry entry true >>= after_first_copy entry use_links) work
      else overwrite entry use_links work

  -- The choice between the server of the destination, that of the source, and a copy by the client.
  unfoldable pub transfer_round : ℕ → Link → CopyEntry → Bool → Step w.State Round
  unfolding after_upload after_download copy_round
  transfer_round rounds to_dest entry use_links work =
      if libraries.is_open work.os
      then after_upload entry use_links (
          send_write_file_command w libraries settings rounds entry.src entry.dst entry.src_info
            entry.attributes work)
      else copy_round entry use_links work
  transfer_round rounds to_source entry use_links work =
      if libraries.is_open work.os
      then after_download entry (
          send_read_file_command w libraries settings rounds entry.src entry.dst entry.src_info
            entry.attributes work)
      else copy_round entry use_links work
  transfer_round rounds no_link entry use_links work = copy_round entry use_links work

  -- A round of the loop.
  unfoldable pub try_round : ℕ → Link → CopyEntry → Bool → Step w.State Round
  unfolding link_round odx_round transfer_round
  try_round rounds connection entry use_links =
      link_round entry use_links
      >>= next (λ use_links'.
        odx_round entry use_links' >>= next (transfer_round rounds connection entry))

  -- The loop, over the retries that are left.
  unfoldable pub try_rounds : ℕ → ℕ → Link → CopyEntry → Bool → Step w.State Bool
  unfolding try_round
  try_rounds zero rounds connection entry use_links =
      try_round rounds connection entry use_links >>= λ r. elim r [
        | finished b ↦ pure b
        | go_on use_links' ↦ (change_stats count_fail >> pure true)
      ]
  try_rounds (suc retries) rounds connection entry use_links =
      try_round rounds connection entry use_links >>= λ r. elim r [
        | finished b ↦ pure b
        | go_on use_links' ↦
            (change_stats count_retry >> try_rounds retries rounds connection entry use_links')
      ]

  -- processFile: false when there is no entry, or when the server of the source could not send it.
  unfoldable pub process_file : ℕ → Link → Step w.State Bool
  unfolding try_rounds
  process_file rounds connection work = elim work.copy_entries [
    | [] ↦ (value false, work)
    | entry ∷ entries ↦
        if is_empty entry.src
        then (value false, record work { copy_entries = entries })
        else try_rounds settings.retry_count rounds connection entry
            (leb settings.use_links_threshold entry.src_info.file_size)
            (record work { copy_entries = entries })
  ]
