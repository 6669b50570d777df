-- ===== src/Client/Counted.antt =====
-- What a round of processFile does to the counters and the database: linking to a recorded file.
use eacopy.Base.{
  ℕ, ◌≡◌, ◌≢◌, refl, sym, ◌∙◌, subst, Bool, true, false, ◌&&◌, not, Option, some, ◌==◌, WString,
  is_empty, text_eq, arith, ◌⊎◌, inl, inr, Bool-cases,
}
use eacopy.Keys.{Hash, FileInfo, equals}
use eacopy.Database.{Database, FileRec, get_record, add_to_files_history, remove_file_history}
use eacopy.Database.Invariant.{Inv, add_to_files_history_total, remove_file_history_total}
use eacopy.Os.{Os}
use eacopy.Settings.{Settings}
use eacopy.Files.{
  Info, get_file_info, create_file_link, link_rounds, linked, skipped, refused, Copied, copied,
  existed, not_copied,
}
use eacopy.Files as Files
use eacopy.Client.{
  Work, Ended, value, failed, fault, stuck, Step, pure, resume, change_database, ◌>>◌, ClientStats,
  add64, CopyEntry, Libraries,
}
use eacopy.Client.ProcessFile.{
  Round, finished, go_on, next, count_copy, count_skip, count_link, file_key_of, full_dst, touch,
  after_link, link_to, link_round,
}

-- The four counters by which a file can end.
abbrev pub SameCounts : ClientStats → ClientStats → Type 0
SameCounts s t =
    (t.copy_count ≡ s.copy_count)
    × (t.skip_count ≡ s.skip_count)
    × (t.link_count ≡ s.link_count)
    × (t.fail_count ≡ s.fail_count)

-- One of the four counters is one higher, and the others are as before.
abbrev pub CountedOnce : ClientStats → ClientStats → Type 0
CountedOnce s t =
    ((t.copy_count ≡ add64 s.copy_count 1)
      × (t.skip_count ≡ s.skip_count)
      × (t.link_count ≡ s.link_count)
      × (t.fail_count ≡ s.fail_count))
    ⊎ (((t.copy_count ≡ s.copy_count)
          × (t.skip_count ≡ add64 s.skip_count 1)
          × (t.link_count ≡ s.link_count)
          × (t.fail_count ≡ s.fail_count))
        ⊎ (((t.copy_count ≡ s.copy_count)
              × (t.skip_count ≡ s.skip_count)
              × (t.link_count ≡ add64 s.link_count 1)
              × (t.fail_count ≡ s.fail_count))
            ⊎ ((t.copy_count ≡ s.copy_count)
                × (t.skip_count ≡ s.skip_count)
                × (t.link_count ≡ s.link_count)
                × (t.fail_count ≡ add64 s.fail_count 1))))

-- A sound database, and the other entries as they were.
abbrev pub Kept : {S : Type 0} → Work S → Work S → Type 0
Kept before after = Inv after.database × (after.copy_entries ≡ before.copy_entries)

abbrev pub RoundOk : {S : Type 0} → Work S → Ended Round × Work S → Type 0
RoundOk before (value (finished true), after) =
    Kept before after × CountedOnce before.stats after.stats
RoundOk before (value (finished false), after) = ⊥
RoundOk before (value (go_on use_links), after) =
    Kept before after × SameCounts before.stats after.stats
RoundOk before (failed, after) = ⊥
RoundOk before (fault, after) = ⊥
RoundOk before (stuck, after) = ⊥

pub counted_later : (s t u : ClientStats) → SameCounts s t → CountedOnce t u → CountedOnce s u
counted_later s t u same (inl h) = inl (ground (arith, same, h))
counted_later s t u same (inr (inl h)) = inr (inl (ground (arith, same, h)))
counted_later s t u same (inr (inr (inl h))) = inr (inr (inl (ground (arith, same, h))))
counted_later s t u same (inr (inr (inr h))) = inr (inr (inr (ground (arith, same, h))))

pub RoundOk-later :
    {S : Type 0} (before middle : Work S) (r : Ended Round × Work S)
    → middle.copy_entries ≡ before.copy_entries
    → SameCounts before.stats middle.stats
    → RoundOk middle r
    → RoundOk before r
RoundOk-later before middle (value (finished true), after) same counts ((sound, kept), once) =
    ((sound, kept ∙ same), counted_later before.stats middle.stats after.stats counts once)
RoundOk-later before middle (value (finished false), after) same counts h = h
RoundOk-later before middle (value (go_on u), after) same counts ((sound, kept), more) =
    ((sound, kept ∙ same), ground (arith, counts, more))
RoundOk-later before middle (failed, after) same counts h = h
RoundOk-later before middle (fault, after) same counts h = h
RoundOk-later before middle (stuck, after) same counts h = h

pub next-RoundOk :
    {S : Type 0} (f : Bool → Step S Round) (before : Work S) (r : Ended Round × Work S)
    → RoundOk before r
    → ((u : Bool) (work : Work S) → Inv work.database → RoundOk work (f u work))
    → RoundOk before (resume (next f) r)
next-RoundOk f before (value (finished true), after) h go = h
next-RoundOk f before (value (finished false), after) h go = absurd h
next-RoundOk f before (value (go_on u), after) ((sound, kept), counts) go =
    RoundOk-later before after (f u after) kept counts (go u after sound)
next-RoundOk f before (failed, after) h go = absurd h
next-RoundOk f before (fault, after) h go = absurd h
next-RoundOk f before (stuck, after) h go = absurd h

pub counted_copy : (n : ℕ) (s : ClientStats) → CountedOnce s (count_copy n s)
unfolding count_copy
counted_copy n s = inl (refl, refl, refl, refl)

pub counted_skip : (n : ℕ) (s : ClientStats) → CountedOnce s (count_skip n s)
unfolding count_skip
counted_skip n s = inr (inl (refl, refl, refl, refl))

counted_link : (n : ℕ) (s : ClientStats) → CountedOnce s (count_link n s)
unfolding count_link
counted_link n s = inr (inr (inl (refl, refl, refl, refl)))

change_database-some :
    {S : Type 0} (f : Database → Option Database) (db : Database) (work : Work S)
    → f work.database ≡ some db
    → change_database f work ≡ (value tt, record work { database = db })
change_database-some f db work h = rw (change_database, h) refl

module _ (w : Os) (libraries : Libraries w) (settings : Settings) where
  pub recorded_round :
      (entry : CopyEntry) (hash : Hash) (count : ClientStats → ClientStats) (work : Work w.State)
      → Inv work.database
      → CountedOnce work.stats (count work.stats)
      → RoundOk work (
          (touch w libraries settings entry hash >> pure (finished true))
            (record work { stats = count work.stats }))
  recorded_round entry hash count work sound once =
      let (db, added, sound') =
        add_to_files_history_total (file_key_of w libraries settings entry) hash
          (full_dst w libraries settings entry) work.database sound in
      subst (λ r. RoundOk work (resume (λ (u : Unit {0}). pure (finished true)) r))
        (sym (
          change_database-some
            (add_to_files_history (file_key_of w libraries settings entry) hash
              (full_dst w libraries settings entry))
            db (record work { stats = count work.stats }) added))
        ((sound', refl), once)

  after_link-RoundOk :
      (entry : CopyEntry) (rec : FileRec) (l : Files.Link w) (work : Work w.State)
      → Inv work.database
      → l ≢ Files.Link.stuck
      → RoundOk work (after_link w libraries settings entry rec l work)
  unfolding after_link
  after_link-RoundOk entry rec skipped work sound ends =
      recorded_round entry rec.hash (count_skip entry.src_info.file_size) work sound
        (counted_skip _ work.stats)
  after_link-RoundOk entry rec linked work sound ends =
      recorded_round entry rec.hash (count_link entry.src_info.file_size) work sound
        (counted_link _ work.stats)
  after_link-RoundOk entry rec refused work sound ends = ((sound, refl), (refl, refl, refl, refl))
  after_link-RoundOk entry rec Files.Link.stuck work sound ends = absurd (ends refl)

  one_link_ends :
      (path source : WString) (info : FileInfo) (s : w.State)
      → (create_file_link w path info source false 1 s).0 ≢ Files.Link.stuck
  unfolding create_file_link link_rounds
  one_link_ends path source info s h = ground (arith, h)

  link_to-RoundOk :
      (entry : CopyEntry) (rec : FileRec) (work : Work w.State)
      → Inv work.database
      → RoundOk work (link_to w libraries settings entry rec work)
  unfolding link_to
  link_to-RoundOk entry rec work sound =
      let info = get_file_info w rec.name work.os in
      elim (Bool-cases (not (not (info.attributes == 0) && equals entry.src_info info.info))) [
        | inl changed ↦
            let (db, removed, sound') =
              remove_file_history_total (file_key_of w libraries settings entry) work.database
                sound in
            rw changed (
              subst (λ r. RoundOk work (resume (λ (u : Unit {0}). pure (go_on true)) r))
                (sym (
                  change_database-some
                    (remove_file_history (file_key_of w libraries settings entry)) db work removed))
                ((sound', refl), (refl, refl, refl, refl)))
        | inr valid ↦ elim (Bool-cases (text_eq rec.name (full_dst w libraries settings entry))) [
          | inl itself ↦
              rw (valid, itself)
                (recorded_round entry rec.hash (count_skip entry.src_info.file_size) work sound
                  (counted_skip _ work.stats))
          | inr other ↦
              let target = full_dst w libraries settings entry in
              let r = create_file_link w target entry.src_info rec.name false 1 work.os in
              rw (valid, other)
                (after_link-RoundOk entry rec r.0 (record work { os = r.1 }) sound
                  (one_link_ends target rec.name entry.src_info work.os))
        ]
      ]

  pub link_round-RoundOk :
      (entry : CopyEntry) (use_links : Bool) (work : Work w.State)
      → Inv work.database
      → RoundOk work (link_round w libraries settings entry use_links work)
  unfolding link_round
  link_round-RoundOk entry false work sound = ((sound, refl), (refl, refl, refl, refl))
  link_round-RoundOk entry true work sound =
      let rec = get_record (file_key_of w libraries settings entry) work.database in
      elim (Bool-cases (is_empty rec.name)) [
        | inl unknown ↦ rw unknown ((sound, refl), (refl, refl, refl, refl))
        | inr known ↦ rw known (link_to-RoundOk entry rec work sound)
      ]
