-- ===== src/Client/Excluded.antt =====
-- What excludeFilesFromFile of source/EACopyClient.cpp makes of an input file that is read in pieces.
use eacopy.Base.{
  ℕ, zero, suc, ◌+◌, ◌-◌, ◌≤◌, ◌<◌, ◌≡◌, refl, ap, sym, ◌∙◌, subst, Bool, true, false, List, [],
  ◌∷◌, ◌++◌, none, length, length-append, if◌then◌else◌, arith, WString,
}
use eacopy.Base.Bytes.{Bytes}
use eacopy.Paths.{is_absolute_path}
use eacopy.Os.{Os}
use eacopy.Settings.{Settings}
use eacopy.Client.{
  Work, Ended, value, failed, fault, stuck, Step, pure, fail, resume, Libraries, Link, buffer_size,
}
use eacopy.Client.Lines.{
  add_line, cut_lines, read_lines, after_lines, handle_buffer, exclude_files_from_file,
  handle_files_or_wildcards_from_file, read_input, opened, fetch_input, close_after,
}
use eacopy.Client.LineList.{
  segments, clean, lines_of, longest, has_nul, has_nul-append, NoStops, cut_nil, cut_lines-append,
  with_last, continued_nil, with_last-joined, cut_lines-segments, cut_lines-left, longest-append,
}
use eacopy.Client.Exclusion.{
  Input, exclude_all, exclude_all-append, excludes, counted, offer_all-exclude, Left, at_least,
  handle_buffer-end, handle_buffer-more, follow,
}

module _ (w : Os) (libraries : Libraries w) (settings : Settings) (link : Link) where
  module _ (input : Input w) where
    abbrev Round : ℕ → Bytes → ℕ → Work w.State → Type 0
    Round rounds left n work =
        NoStops left
        → has_nul (input.remaining work.os) ≡ false
        → longest (length left) (input.remaining work.os) + 1 < buffer_size
        → length (input.remaining work.os) + 2 ≤ rounds
        → (Left w libraries settings link)
            (read_lines w (excludes w libraries settings link) rounds left n n work)
            (exclude_all (with_last (cut_lines left (input.remaining work.os))) work.handled_files)

    -- A round in which the whole rest of the file is empty, or some of it was read.
    round-Left :
        (rounds : ℕ) (left : Bytes) (n : ℕ) (work : Work w.State) (whole bytes : Bytes)
        → NoStops left
        → has_nul whole ≡ false
        → longest (length left) whole + 1 < buffer_size
        → length whole + 2 ≤ suc rounds
        → whole ≡ bytes ++ input.remaining work.os
        → (bytes ≡ [] → whole ≡ [])
        → ((left' : Bytes) (k : ℕ) (handled : List WString)
            → Round rounds left' k (record work { handled_files = handled }))
        → (Left w libraries settings link)
            (handle_buffer w
              (excludes w libraries settings link)
              (read_lines w (excludes w libraries settings link) rounds)
              left
              bytes
              n
              n
              work)
            (exclude_all (with_last (cut_lines left whole)) work.handled_files)
    round-Left rounds left n work whole [] v z short m e at_end next =
        let over : with_last (cut_lines left whole) ≡ add_line left [] =
          ap (λ t. with_last (cut_lines left t)) (at_end refl) ∙ ap with_last (cut_nil left) in
        subst
          (λ ls.
            (Left w libraries settings link)
              (handle_buffer w (excludes w libraries settings link)
                (read_lines w (excludes w libraries settings link) rounds) left [] n n work)
              (exclude_all ls work.handled_files))
          (sym over)
          ((handle_buffer-end w libraries settings link)
            (read_lines w (excludes w libraries settings link) rounds) left n work v)
    round-Left rounds left n work whole (b ∷ bytes) v z short m e at_end next =
        let front = b ∷ bytes in
        let rest = input.remaining work.os in
        let r = cut_lines left front in
        let found = exclude_all r.0 work.handled_files in
        let more = with_last (cut_lines r.1 rest) in
        let (z_front, z_rest) = has_nul-append front rest (ap has_nul (sym e) ∙ z) in
        let over : exclude_all (with_last (cut_lines left whole)) work.handled_files
            ≡ (if found.0 then exclude_all more found.1 else (false, found.1)) =
          ap (λ t. exclude_all (with_last (cut_lines left t)) work.handled_files) e
          ∙ ap (λ c. exclude_all (with_last c) work.handled_files)
              (cut_lines-append left front rest z_front)
          ∙ ap (λ ls. exclude_all ls work.handled_files) (with_last-joined r rest)
          ∙ exclude_all-append r.0 more work.handled_files in
        let step : handle_buffer w (excludes w libraries settings link)
              (read_lines w (excludes w libraries settings link) rounds) left front n n work
            ≡ resume
                (after_lines w (excludes w libraries settings link)
                  (read_lines w (excludes w libraries settings link) rounds) r.1 front)
                ((counted w libraries settings link) (length r.0 + n) work found) =
          (handle_buffer-more w libraries settings link)
            (read_lines w (excludes w libraries settings link) rounds) left b bytes n work v
          ∙ ap
              (resume (
                after_lines w (excludes w libraries settings link)
                  (read_lines w (excludes w libraries settings link) rounds) r.1 front))
              ((offer_all-exclude w libraries settings link) r.0 n work) in
        let enough : length rest + 2 ≤ rounds =
          omega (arith, m, ap length e, length-append front rest) in
        let fits : longest (length r.1) rest + 1 < buffer_size =
          omega
            (arith, short, longest-append left front rest z_front, ap (longest (length left)) e) in
        subst
          (λ a.
            (Left w libraries settings link)
              (handle_buffer w (excludes w libraries settings link)
                (read_lines w (excludes w libraries settings link) rounds) left front n n work)
              a)
          (sym over)
          (subst
            (λ t.
              (Left w libraries settings link) t
                (if found.0 then exclude_all more found.1 else (false, found.1)))
            (sym step)
            ((follow w libraries settings link)
              (read_lines w (excludes w libraries settings link) rounds) r.1 b bytes
              (length r.0 + n) work more found
              λ handled.
                next r.1 (length r.0 + n) handled (cut_lines-left left front v z_front) z_rest fits
                  enough))

    read_lines-exclude :
        (rounds : ℕ) (left : Bytes) (n : ℕ) (work : Work w.State) → Round rounds left n work
    unfolding read_lines
    read_lines-exclude zero left n work v z short m = absurd (omega (arith, m))
    read_lines-exclude (suc rounds) left n work v z short m =
        let size = buffer_size - length left - 1 in
        let whole = input.remaining work.os in
        let room : 0 < size =
          omega (arith, short, (at_least w libraries settings link) (length left) whole) in
        let (bytes, came, split, at_end) = input.read-remaining size work.os room in
        let work1 = record work { os = (w.read size work.os).1 } in
        let step : read_lines w (excludes w libraries settings link) (suc rounds) left n n work
            ≡ handle_buffer w (excludes w libraries settings link)
                (read_lines w (excludes w libraries settings link) rounds) left bytes n n work1 =
          rw (read_lines, came) refl in
        subst
          (λ t.
            (Left w libraries settings link) t
              (exclude_all (with_last (cut_lines left whole)) work.handled_files))
          (sym step)
          (round-Left rounds left n work1 whole bytes v z short m split at_end λ left' k handled.
            read_lines-exclude rounds left' k (record work1 { handled_files = handled }))

    ended-Left :
        (retry : Step w.State (Unit {0})) (r : Ended (Unit {0}) × Work w.State)
        (a : Bool × List WString)
        → (Left w libraries settings link) r a
        → (Left w libraries settings link)
            (resume
              (λ there. if there then pure tt else retry)
              (close_after w libraries settings link (resume (λ u. pure true) r)))
            a
    ended-Left retry (value tt, work) a v = v
    ended-Left retry (failed, work) a v = v
    ended-Left retry (fault, work) a v = v
    ended-Left retry (stuck, work) a v = v

    opened-Left :
        (retries rounds : ℕ) (source_path file_name dest_path : WString) (work : Work w.State)
        (a : Bool × List WString)
        → is_absolute_path file_name ≡ true
        → (w.open_read file_name true work.os).0 ≡ none
        → (Left w libraries settings link)
            (read_lines w
              (excludes w libraries settings link)
              rounds
              []
              0
              0
              (record work { os = (w.open_read file_name true work.os).1 }))
            a
        → (Left w libraries settings link)
            (handle_files_or_wildcards_from_file w libraries settings link retries
              (excludes w libraries settings link)
              rounds
              source_path
              file_name
              dest_path
              work)
            a
    unfolding handle_files_or_wildcards_from_file
    opened-Left zero rounds source_path file_name dest_path work a absolute there v =
        rw (handle_files_or_wildcards_from_file, read_input, fetch_input, opened, absolute, there)
          (ended-Left fail
            (read_lines w (excludes w libraries settings link) rounds [] 0 0
              (record work { os = (w.open_read file_name true work.os).1 }))
            a v)
    opened-Left (suc retries) rounds source_path file_name dest_path work a absolute there v =
        rw (handle_files_or_wildcards_from_file, read_input, fetch_input, opened, absolute, there)
          (ended-Left _
            (read_lines w (excludes w libraries settings link) rounds [] 0 0
              (record work { os = (w.open_read file_name true work.os).1 }))
            a v)

    -- An input file with an absolute path that can be opened, without zeros, with lines that are shorter
    -- than the buffer, and read in whatever pieces: excludeFilesFromFile ends within its rounds, returns
    -- false just if some line has a wildcard, and has added the lines of the file up to that one to the
    -- handled files, in their order and widened to paths.
    pub exclude_files_from_file-lines_of :
        (rounds : ℕ) (source_path file_name dest_path : WString) (work : Work w.State)
        → is_absolute_path file_name ≡ true
        → (w.open_read file_name true work.os).0 ≡ none
        → (text : Bytes) → input.remaining (w.open_read file_name true work.os).1 ≡ text
        → has_nul text ≡ false
        → longest 0 text + 1 < buffer_size
        → length text + 2 ≤ rounds
        → (let (went, handled) = exclude_all (lines_of text) work.handled_files in
            let r =
              exclude_files_from_file w libraries settings link rounds source_path file_name
                dest_path work in
            (r.0 ≡ (if went then value tt else failed)) × (r.1.handled_files ≡ handled))
    unfolding exclude_files_from_file
    exclude_files_from_file-lines_of rounds source_path file_name dest_path work absolute there text
          e z short m =
        let work1 = record work { os = (w.open_read file_name true work.os).1 } in
        let all : exclude_all (with_last (cut_lines [] (input.remaining work1.os)))
              work.handled_files
            ≡ exclude_all (lines_of text) work.handled_files =
          ap (λ t. exclude_all (with_last (cut_lines [] t)) work.handled_files) e
          ∙ ap (λ ls. exclude_all ls work.handled_files)
              (cut_lines-segments [] text z ∙ ap clean (continued_nil (segments text))) in
        opened-Left settings.retry_count rounds source_path file_name dest_path work
          (exclude_all (lines_of text) work.handled_files) absolute there
          (subst
            ((Left w libraries settings link)
              (read_lines w (excludes w libraries settings link) rounds [] 0 0 work1))
            all
            (read_lines-exclude rounds [] 0 work1 tt (ap has_nul e ∙ z)
              (omega (arith, short, ap (longest 0) e)) (omega (arith, m, ap length e))))
