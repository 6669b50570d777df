-- ===== src/Client/FileCounts.antt =====
-- processFile of source/EACopyClient.cpp by a client that makes its copies itself.
use eacopy.Base.{
  ℕ, zero, suc, ◌≡◌, refl, sym, ◌∙◌, subst, Bool, true, false, ◌&&◌, not, List, ◌∷◌, leb, ◌==◌,
  if◌then◌else◌, is_empty, inl, inr, Bool-cases,
}
use eacopy.Keys.{no_hash, equals}
use eacopy.Database.{get_record}
use eacopy.Database.Invariant.{Inv}
use eacopy.Os.{Os, is_readonly}
use eacopy.Settings.{Settings}
use eacopy.Server.{get_use_buffered_io}
use eacopy.Files.{get_file_info, set_file_writable, Copied, copied, existed, not_copied}
use eacopy.Files.Copy.{copy_file}
use eacopy.Client.{
  Work, Ended, value, failed, fault, stuck, Step, pure, resume, ◌>>◌, change_stats, ClientStats,
  CopyEntry, Libraries, no_link,
}
use eacopy.Client.ProcessFile.{
  Round, finished, go_on, count_copy, count_skip, count_fail, count_retry, file_key_of, full_dst,
  link_round, after_odx, odx_round, add_to_database, after_overwrite, overwrite, after_first_copy,
  copy_round, transfer_round, try_round, try_rounds, process_file, copy_entry,
}
use eacopy.Client.Counted.{
  CountedOnce, Kept, RoundOk, next-RoundOk, counted_later, counted_copy, counted_skip,
  recorded_round, link_round-RoundOk,
}

either-RoundOk :
    {S : Type 0} (before : Work S) (b : Bool) (x y : Ended Round × Work S)
    → RoundOk before x
    → RoundOk before y
    → RoundOk before (if b then x else y)
either-RoundOk before true x y hx hy = hx
either-RoundOk before false x y hx hy = hy

module _ (w : Os) (libraries : Libraries w) (settings : Settings) where
  after_odx-RoundOk :
      (entry : CopyEntry) (use_links : Bool) (r : Copied w) (work : Work w.State)
      → Inv work.database
      → RoundOk work (
          after_odx w libraries settings entry
            (get_record (file_key_of w libraries settings entry) work.database)
            use_links
            r
            work)
  unfolding after_odx
  after_odx-RoundOk entry use_links (copied n) work sound =
      recorded_round w libraries settings entry _ (count_copy n) work sound
        (counted_copy n work.stats)
  after_odx-RoundOk entry use_links existed work sound = ((sound, refl), (refl, refl, refl, refl))
  after_odx-RoundOk entry use_links not_copied work sound =
      ((sound, refl), (refl, refl, refl, refl))

  odx_round-RoundOk :
      (entry : CopyEntry) (use_links : Bool) (work : Work w.State)
      → Inv work.database
      → RoundOk work (odx_round w libraries settings entry use_links work)
  unfolding odx_round
  odx_round-RoundOk entry use_links work sound =
      let rec = get_record (file_key_of w libraries settings entry) work.database in
      let info = get_file_info w rec.name work.os in
      elim (Bool-cases (
        settings.use_odx
        && (not (is_empty rec.name)
            && (not (info.attributes == 0) && equals entry.src_info info.info)))) [
              | inr other ↦ rw other ((sound, refl), (refl, refl, refl, refl))
              | inl valid ↦
                  let r =
                    copy_file w libraries.padding rec.name entry.src_info info.attributes
                      (full_dst w libraries settings entry) true settings.exclude_changed_files
                      (get_use_buffered_io settings.use_buffered_io) work.os in
                  rw valid (after_odx-RoundOk entry use_links r.0 (record work { os = r.1 }) sound)
            ]

  -- The end of a round that is counted: the file is recorded if links are used.
  counted_round :
      (entry : CopyEntry) (use_links : Bool) (count : ClientStats → ClientStats)
      (work : Work w.State)
      → Inv work.database
      → CountedOnce work.stats (count work.stats)
      → RoundOk work (
          (add_to_database w libraries settings entry use_links >> pure (finished true))
            (record work { stats = count work.stats }))
  unfolding add_to_database
  counted_round entry true count work sound once =
      recorded_round w libraries settings entry no_hash count work sound once
  counted_round entry false count work sound once = ((sound, refl), once)

  after_overwrite-RoundOk :
      (entry : CopyEntry) (use_links : Bool) (r : Copied w) (work : Work w.State)
      → Inv work.database
      → RoundOk work (after_overwrite w libraries settings entry use_links r work)
  unfolding after_overwrite
  after_overwrite-RoundOk entry use_links (copied n) work sound =
      counted_round entry use_links (count_copy n) work sound (counted_copy n work.stats)
  after_overwrite-RoundOk entry use_links existed work sound =
      ((sound, refl), (refl, refl, refl, refl))
  after_overwrite-RoundOk entry use_links not_copied work sound =
      ((sound, refl), (refl, refl, refl, refl))

  overwrite-RoundOk :
      (entry : CopyEntry) (use_links : Bool) (work : Work w.State)
      → Inv work.database
      → RoundOk work (overwrite w libraries settings entry use_links work)
  unfolding overwrite
  overwrite-RoundOk entry use_links work sound =
      let target = full_dst w libraries settings entry in
      let dest = get_file_info w target work.os in
      elim (Bool-cases (
        not (dest.attributes == 0)
        && (not settings.force_copy && equals entry.src_info dest.info))) [
          | inl same ↦ rw same (
              counted_round entry use_links (count_skip dest.info.file_size) work sound
                (counted_skip dest.info.file_size work.stats))
          | inr other ↦
              let os =
                (if is_readonly dest.attributes
                  then (set_file_writable w target true work.os).1
                  else work.os) in
              let r = copy_entry w libraries settings entry false (record work { os = os }) in
              rw other
                (after_overwrite-RoundOk entry use_links _ (record work { os = r.1.os }) sound)
        ]

  after_first_copy-RoundOk :
      (entry : CopyEntry) (use_links : Bool) (r : Copied w) (work : Work w.State)
      → Inv work.database
      → RoundOk work (after_first_copy w libraries settings entry use_links r work)
  unfolding after_first_copy
  after_first_copy-RoundOk entry use_links (copied n) work sound =
      counted_round entry use_links (count_copy n) work sound (counted_copy n work.stats)
  after_first_copy-RoundOk entry use_links existed work sound =
      either-RoundOk work settings.exclude_changed_files _ _
        (counted_round entry use_links (count_skip entry.src_info.file_size) work sound
          (counted_skip entry.src_info.file_size work.stats))
        (overwrite-RoundOk entry use_links (record work { try_copy_first = false }) sound)
  after_first_copy-RoundOk entry use_links not_copied work sound =
      ((sound, refl), (refl, refl, refl, refl))

  copy_round-RoundOk :
      (entry : CopyEntry) (use_links : Bool) (work : Work w.State)
      → Inv work.database
      → RoundOk work (copy_round w libraries settings entry use_links work)
  unfolding copy_round
  copy_round-RoundOk entry use_links work sound =
      let r = copy_entry w libraries settings entry true work in
      either-RoundOk work work.try_copy_first _ _
        (after_first_copy-RoundOk entry use_links _ (record work { os = r.1.os }) sound)
        (overwrite-RoundOk entry use_links work sound)

  try_round-RoundOk :
      (rounds : ℕ) (entry : CopyEntry) (use_links : Bool) (work : Work w.State)
      → Inv work.database
      → RoundOk work (try_round w libraries settings rounds no_link entry use_links work)
  unfolding try_round transfer_round
  try_round-RoundOk rounds entry use_links work sound =
      next-RoundOk _ work (link_round w libraries settings entry use_links work)
        (link_round-RoundOk w libraries settings entry use_links work sound)
        λ u work'. λ sound'.
          next-RoundOk _ work' (odx_round w libraries settings entry u work')
            (odx_round-RoundOk entry u work' sound')
            (λ u' work''. copy_round-RoundOk entry u' work'')

  abbrev CountedFile : Work w.State → Ended Bool × Work w.State → Type 0
  CountedFile before r = (r.0 ≡ value true) × Kept before r.1 × CountedOnce before.stats r.1.stats

  counted_file :
      (before : Work w.State) (r : Ended Round × Work w.State) (f : Bool → Step w.State Bool)
      → RoundOk before r
      → ((u : Bool) (work : Work w.State) → Inv work.database → CountedFile work (f u work))
      → CountedFile before (resume (λ o. elim o [ finished b ↦ pure b | go_on u ↦ f u ]) r)
  counted_file before (value (finished true), after) f (kept, once) go = (refl, kept, once)
  counted_file before (value (finished false), after) f h go = absurd h
  counted_file before (value (go_on u), after) f ((sound, kept), counts) go =
      let (done, (sound', kept'), once) = go u after sound in
      (
        done,
        (sound', kept' ∙ kept),
        counted_later before.stats after.stats (f u after).1.stats counts once,
      )
  counted_file before (failed, after) f h go = absurd h
  counted_file before (fault, after) f h go = absurd h
  counted_file before (stuck, after) f h go = absurd h

  try_rounds-CountedFile :
      (retries rounds : ℕ) (entry : CopyEntry) (use_links : Bool) (work : Work w.State)
      → Inv work.database
      → CountedFile work
          (try_rounds w libraries settings retries rounds no_link entry use_links work)
  unfolding try_rounds count_fail count_retry
  try_rounds-CountedFile zero rounds entry use_links work sound =
      counted_file work (try_round w libraries settings rounds no_link entry use_links work)
        (λ u. change_stats count_fail >> pure true)
        (try_round-RoundOk rounds entry use_links work sound)
        λ u work' sound'. (refl, (sound', refl), inr (inr (inr (refl, refl, refl, refl))))
  try_rounds-CountedFile (suc retries) rounds entry use_links work sound =
      counted_file work (try_round w libraries settings rounds no_link entry use_links work)
        (λ u.
          change_stats count_retry
          >> try_rounds w libraries settings retries rounds no_link entry u)
        (try_round-RoundOk rounds entry use_links work sound)
        λ u work' sound'.
          try_rounds-CountedFile retries rounds entry u
            (record work' { stats = count_retry work'.stats }) sound'

  -- A client without a server, with a sound database and an entry in its queue that has a source: whatever
  -- the operating system answers, processFile returns true within its retries, without undefined
  -- behaviour, has taken the entry off the queue and left the others, has counted the file once, as
  -- copied, skipped, linked or failed, and leaves the database sound.
  pub process_file-CountedOnce :
      (rounds : ℕ) (entry : CopyEntry) (entries : List CopyEntry) (work : Work w.State)
      → Inv work.database
      → work.copy_entries ≡ entry ∷ entries
      → is_empty entry.src ≡ false
      → ((process_file w libraries settings rounds no_link work).0 ≡ value true)
        × ((process_file w libraries settings rounds no_link work).1.copy_entries ≡ entries)
        × CountedOnce work.stats (process_file w libraries settings rounds no_link work).1.stats
        × Inv (process_file w libraries settings rounds no_link work).1.database
  unfolding process_file
  process_file-CountedOnce rounds entry entries work sound queued named =
      let links = leb settings.use_links_threshold entry.src_info.file_size in
      let taken = record work { copy_entries = entries } in
      let step : process_file w libraries settings rounds no_link work
          ≡ try_rounds w libraries settings settings.retry_count rounds no_link entry links taken =
        rw (process_file, queued, named) refl in
      let (done, (sound', kept), once) =
        try_rounds-CountedFile settings.retry_count rounds entry links taken sound in
      subst
        (λ r.
          (r.0 ≡ value true)
          × (r.1.copy_entries ≡ entries)
          × CountedOnce work.stats r.1.stats
          × Inv r.1.database)
        (sym step) (done, kept, once, sound')
